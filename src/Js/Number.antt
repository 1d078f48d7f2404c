-- ===== src/Js/Number.antt =====
-- JavaScript numbers as far as the program uses them. A finite number is an integer or a decimal
-- fraction that is no integer; values beyond 2 ^ 53 are kept exact, where a double rounds.
use intercom_swap.Prelude.{
  ℕ, zero, suc, ◌-◌, ◌+◌, ◌*◌, ◌/◌, ◌%◌, ◌^◌, String, Bool, true, false, not, ◌&&◌, ◌||◌, Option,
  none, some, List, [], ◌∷◌, ltb, leb, ◌==◌, if◌then◌else◌,
}
use intercom_swap.Js.Text.{concat, trim, codes, is_digit, every, digits_value, length, decimal}

-- `neg n` is -(n + 1); `frac sign m k` is m / 10 ^ k, below zero where `sign` is true.
pub data Num : Type 0 where
  nat neg : ℕ → Num
  frac : Bool → ℕ → ℕ → Num
  infinity minus_infinity nan : Num

-- m / 10 ^ k, as an integer where it is one.
unfoldable pub of_decimal : Bool → ℕ → ℕ → Num
of_decimal sign m k =
    let unit = 10 ^ k in
    if m % unit == 0
    then (if sign && not (m / unit == 0) then neg (m / unit - 1) else nat (m / unit))
    else frac sign m k

abbrev pub is_finite : Num → Bool
is_finite infinity = false
is_finite minus_infinity = false
is_finite nan = false
is_finite _ = true

-- Number.isInteger
abbrev pub is_integer : Num → Bool
is_integer (nat n) = true
is_integer (neg n) = true
is_integer _ = false

-- The sign, and the size as a numerator over a power of ten.
abbrev pub is_negative : Num → Bool
is_negative (nat n) = false
is_negative (neg n) = true
is_negative (frac s m k) = s
is_negative infinity = false
is_negative minus_infinity = true
is_negative nan = false

abbrev pub numerator : Num → ℕ
numerator (nat n) = n
numerator (neg n) = suc n
numerator (frac s m k) = m
numerator _ = 0

abbrev pub scale : Num → ℕ
scale (frac s m k) = k
scale _ = 0

abbrev smaller_size : Num → Num → Bool
smaller_size a b = ltb (numerator a * 10 ^ scale b) (numerator b * 10 ^ scale a)

abbrev finite_less : Num → Num → Bool
finite_less a b = elim (is_negative a) [
  | true ↦ elim (is_negative b) [ true ↦ smaller_size b a | false ↦ true ]
  | false ↦ elim (is_negative b) [ true ↦ false | false ↦ smaller_size a b ]
]

-- a < b
unfoldable pub less : Num → Num → Bool
less (nat a) (nat b) = ltb a b
less nan b = false
less a nan = false
less infinity b = false
less a minus_infinity = false
less minus_infinity b = true
less a infinity = true
less a b = finite_less a b

-- a <= b
unfoldable pub less_eq : Num → Num → Bool
unfolding less
less_eq (nat a) (nat b) = leb a b
less_eq nan b = false
less_eq a nan = false
less_eq a b = not (less b a)

-- a === b
unfoldable pub num_eq : Num → Num → Bool
unfolding less_eq
num_eq (nat a) (nat b) = a == b
num_eq a b = less_eq a b && less_eq b a

-- Math.trunc
unfoldable pub truncate : Num → Num
unfolding of_decimal
truncate (frac s m k) = of_decimal s (m / 10 ^ k) 0
truncate n = n

-- n * c for a positive constant c
unfoldable pub times : Num → ℕ → Num
unfolding of_decimal
times (nat n) c = nat (n * c)
times (neg n) c = neg (suc n * c - 1)
times (frac s m k) c = of_decimal s (m * c) k
times n c = n

-- The sum of two decimals of one scale.
abbrev pub difference : Bool → ℕ → Bool → ℕ → ℕ → Num
difference s m t n k = elim (leb n m) [
  | true ↦ of_decimal s (m - n) k
  | false ↦ of_decimal t (n - m) k
]

abbrev pub sum_sizes : Bool → ℕ → Bool → ℕ → ℕ → Num
sum_sizes true m true n k = of_decimal true (m + n) k
sum_sizes false m false n k = of_decimal false (m + n) k
sum_sizes s m t n k = difference s m t n k

-- a + b
unfoldable pub plus : Num → Num → Num
unfolding of_decimal
plus (nat a) (nat b) = nat (a + b)
plus nan b = nan
plus a nan = nan
plus infinity minus_infinity = nan
plus minus_infinity infinity = nan
plus infinity b = infinity
plus a infinity = infinity
plus minus_infinity b = minus_infinity
plus a minus_infinity = minus_infinity
plus a b =
    sum_sizes (is_negative a) (numerator a * 10 ^ scale b) (is_negative b)
      (numerator b * 10 ^ scale a) (scale a + scale b)

-- -n
unfoldable pub minus : Num → Num
minus (nat n) = if n == 0 then nat 0 else neg (n - 1)
minus (neg n) = nat (suc n)
minus (frac s m k) = frac (not s) m k
minus infinity = minus_infinity
minus minus_infinity = infinity
minus nan = nan

-- The text of k digits, with leading zeros.
pad : ℕ → String → String
pad zero s = s
pad (suc k) s = if ltb (length (codes s)) (suc k) then concat "0" (pad k s) else s

-- String(n), for the numbers that JavaScript prints without an exponent
unfoldable pub num_text : Num → String
unfolding pad decimal length
num_text (nat n) = decimal n
num_text (neg n) = concat "-" (decimal (suc n))
num_text (frac s m k) =
    let digits = concat (decimal (m / 10 ^ k)) (concat "." (pad k (decimal (m % 10 ^ k)))) in
    if s then concat "-" digits else digits
num_text infinity = "Infinity"
num_text minus_infinity = "-Infinity"
num_text nan = "NaN"

-- The digits of a number literal in base 2, 8 or 16, most significant first.
abbrev digit_of : ℕ → ℕ
digit_of c =
    if leb b'0' c && leb c b'9'
    then c - b'0'
    else if leb b'a' c && leb c b'f'
    then c - 87
    else if leb b'A' c && leb c b'F'
    then c - 55
    else 99

radix_value : ℕ → ℕ → List ℕ → Option ℕ
radix_value base acc [] = some acc
radix_value base acc (c ∷ cs) =
    let rest = radix_value base (acc * base + digit_of c) cs in
    if ltb (digit_of c) base then rest else none

-- A literal with a prefix, 0x, 0o or 0b; the digits may not be missing.
prefixed : ℕ → List ℕ → Option ℕ
unfolding radix_value
prefixed base [] = none
prefixed base (c ∷ cs) = radix_value base 0 (c ∷ cs)

radix_of : ℕ → ℕ
radix_of c =
    if c == b'x' || c == b'X'
    then 16
    else if c == b'o' || c == b'O'
    then 8
    else if c == b'b' || c == b'B'
    then 2
    else 0

unfoldable pub radix_literal : List ℕ → Option ℕ
unfolding prefixed radix_of
radix_literal (z ∷ x ∷ cs) =
    let base = radix_of x in
    let number = prefixed base cs in if z == b'0' && ltb 0 base then number else none
radix_literal _ = none

-- The longest run of digits at the front, and what follows it.
unfoldable pub take_digits : List ℕ → List ℕ × List ℕ
unfolding is_digit
take_digits [] = ([], [])
take_digits (c ∷ cs) =
    let rest = take_digits cs in if is_digit c then (c ∷ rest.0, rest.1) else ([], c ∷ cs)

-- `e`, a sign and digits: the value is m / 10 ^ k times 10 to that power.
shifted : Bool → ℕ → ℕ → Bool → ℕ → Num
unfolding of_decimal
shifted sign m k down e =
    if down
    then of_decimal sign m (k + e)
    else if leb k e
    then of_decimal sign (m * 10 ^ (e - k)) 0
    else of_decimal sign m (k - e)

exponent_digits : Bool → ℕ → ℕ → Bool → List ℕ → Num
unfolding shifted every digits_value is_digit
exponent_digits sign m k down [] = nan
exponent_digits sign m k down (c ∷ cs) =
    if every is_digit (c ∷ cs) then shifted sign m k down (digits_value 0 (c ∷ cs)) else nan

exponent_sign : Bool → ℕ → ℕ → List ℕ → Num
unfolding exponent_digits
exponent_sign sign m k [] = nan
exponent_sign sign m k (c ∷ cs) =
    if c == b'-'
    then exponent_digits sign m k true cs
    else if c == b'+'
    then exponent_digits sign m k false cs
    else exponent_digits sign m k false (c ∷ cs)

exponent : Bool → ℕ → ℕ → List ℕ → Num
unfolding exponent_sign
exponent sign m k [] = of_decimal sign m k
exponent sign m k (c ∷ cs) = if c == b'e' || c == b'E' then exponent_sign sign m k cs else nan

-- The digits before the point, then those after it; one of the two runs is there.
fraction : Bool → List ℕ → List ℕ → Num
unfolding exponent take_digits digits_value length of_decimal
fraction sign whole [] = elim whole [
  | [] ↦ nan
  | d ∷ ds ↦ of_decimal sign (digits_value 0 (d ∷ ds)) 0
]
fraction sign whole (c ∷ cs) =
    let (part, rest) = take_digits cs in
    if c == b'.'
    then elim (length whole + length part) [
      | zero ↦ nan
      | suc n ↦ exponent sign (digits_value (digits_value 0 whole) part) (length part) rest
    ]
    else elim whole [ [] ↦ nan | d ∷ ds ↦ exponent sign (digits_value 0 (d ∷ ds)) 0 (c ∷ cs) ]

abbrev infinity_of : Bool → Num
infinity_of true = minus_infinity
infinity_of false = infinity

abbrev codes_eq : List ℕ → List ℕ → Bool
codes_eq [] [] = true
codes_eq (a ∷ as') (b ∷ bs) = a == b && codes_eq as' bs
codes_eq _ _ = false

unsigned : Bool → List ℕ → Num
unfolding fraction
unsigned sign cs =
    let (whole, rest) = take_digits cs in
    if codes_eq cs (codes "Infinity") then infinity_of sign else fraction sign whole rest

signed : List ℕ → Num
unfolding unsigned
signed [] = nat 0
signed (c ∷ cs) =
    if c == b'-'
    then unsigned true cs
    else if c == b'+'
    then unsigned false cs
    else unsigned false (c ∷ cs)

-- Number(text)
unfoldable pub number_of_text : String → Num
unfolding signed radix_literal
number_of_text s = elim (radix_literal (codes (trim s))) [
  | some n ↦ nat n
  | none ↦ signed (codes (trim s))
]
