-- ===== src/Js/Text.antt =====
-- What the program uses of JavaScript strings: trim, toLowerCase, `join`, character classes, and
-- the decimal notation of an integer. A text is a sequence of code points.
use Prim.Native.Char.{Char, code}
use Prim.Native.String as NativeString
use Prim.Native.String.{char_at}
use intercom_swap.Prelude.{
  ℕ, zero, suc, ◌-◌, ◌+◌, ◌*◌, ◌/◌, ◌%◌, String, Bool, true, false, ◌&&◌, ◌||◌, List, [], ◌∷◌, ltb,
  leb, ◌==◌, if◌then◌else◌, ◌≡◌, refl, Bool-cases, inl, inr,
}

-- s + t
abbrev pub concat : String → String → String
concat s t = NativeString.◌++◌ s t

-- The white space and line terminators that `String.prototype.trim` removes.
unfoldable pub is_space : ℕ → Bool
is_space c =
    (leb 9 c && leb c 13)
    || c == 32
    || c == 0xa0
    || c == 0x1680
    || (leb 0x2000 c && leb c 0x200a)
    || c == 0x2028
    || c == 0x2029
    || c == 0x202f
    || c == 0x205f
    || c == 0x3000
    || c == 0xfeff

abbrev pub is_empty : String → Bool
is_empty String.[] = true
is_empty (String.◌∷◌ c s) = false

pub trim_start : String → String
trim_start String.[] = ""
trim_start (String.◌∷◌ c s) =
    let rest = trim_start s in if is_space (code c) then rest else String.◌∷◌ c s

pub trim_end : String → String
trim_end String.[] = ""
trim_end (String.◌∷◌ c s) =
    let rest = trim_end s in if is_space (code c) && is_empty rest then "" else String.◌∷◌ c rest

unfoldable pub trim : String → String
unfolding trim_start trim_end is_space
trim s = trim_end (trim_start s)

-- `toLowerCase`, on the letters A to Z; no other character has a lower case in [0-9a-z].
lower_char : Char → Char
lower_char c =
    if leb b'A' (code c) && leb (code c) b'Z'
    then char_at "abcdefghijklmnopqrstuvwxyz" (code c - b'A')
    else c

unfoldable pub to_lower : String → String
unfolding lower_char
to_lower String.[] = ""
to_lower (String.◌∷◌ c s) = String.◌∷◌ (lower_char c) (to_lower s)

-- The code points of a text.
abbrev pub codes : String → List ℕ
codes String.[] = []
codes (String.◌∷◌ c s) = code c ∷ codes s

unfoldable pub every : (ℕ → Bool) → List ℕ → Bool
every p [] = true
every p (c ∷ cs) = p c && every p cs

unfoldable pub length : List ℕ → ℕ
length [] = 0
length (c ∷ cs) = suc (length cs)

unfoldable pub is_digit : ℕ → Bool
is_digit c = leb b'0' c && leb c b'9'

-- [0-9a-f]
unfoldable pub is_hex_digit : ℕ → Bool
unfolding is_digit
is_hex_digit c = is_digit c || (leb b'a' c && leb c b'f')

-- [1-9A-HJ-NP-Za-km-z]
unfoldable pub is_base58_char : ℕ → Bool
is_base58_char c =
    (leb b'1' c && leb c b'9')
    || (leb b'A' c && leb c b'H')
    || (leb b'J' c && leb c b'N')
    || (leb b'P' c && leb c b'Z')
    || (leb b'a' c && leb c b'k')
    || (leb b'm' c && leb c b'z')

-- The value of a run of digits.
unfoldable pub digits_value : ℕ → List ℕ → ℕ
digits_value acc [] = acc
digits_value acc (c ∷ cs) = digits_value (acc * 10 + (c - b'0')) cs

-- The decimal digits of n, most significant first; `fuel` bounds their number.
print_digits : ℕ → ℕ → String → String
print_digits zero n acc = acc
print_digits (suc fuel) n acc =
    let acc' : String = String.◌∷◌ (char_at "0123456789" (n % 10)) acc in
    let rest = print_digits fuel (n / 10) acc' in if ltb n 10 then acc' else rest

unfoldable pub decimal : ℕ → String
unfolding print_digits
decimal n = print_digits (suc n) n ""

print_digits-nonempty :
    (fuel n : ℕ) (acc : String) → is_empty acc ≡ false → is_empty (print_digits fuel n acc) ≡ false
unfolding print_digits
print_digits-nonempty zero n acc h = h
print_digits-nonempty (suc fuel) n acc h = elim (Bool-cases (ltb n 10)) [
  | inl one ↦ rw one
  | inr more ↦
      rw more
        (print_digits-nonempty fuel (n / 10) (String.◌∷◌ (char_at "0123456789" (n % 10)) acc) refl)
]

pub decimal-nonempty : (n : ℕ) → is_empty (decimal n) ≡ false
unfolding decimal
decimal-nonempty n = elim (Bool-cases (ltb n 10)) [
  | inl one ↦ rw one
  | inr more ↦
      rw more
        (print_digits-nonempty n (n / 10) (String.◌∷◌ (char_at "0123456789" (n % 10)) "") refl)
]
