-- ===== src/Js/Value.antt =====
-- A JavaScript value as JSON.parse gives it, with `undefined` for what is missing, and the
-- program's ways to read it: property access, typeof, truthiness, String, Number and BigInt.
use intercom_swap.Prelude.{
  ℕ, ◌-◌, String, Bool, true, false, not, ◌&&◌, ◌||◌, Option, none, some, List, [], ◌∷◌, ltb, ◌==◌,
  if◌then◌else◌, str_eq, ◌≡◌, ap, eq_iff,
}
use intercom_swap.Js.Text.{
  concat, trim, to_lower, is_empty, codes, every, is_digit, digits_value, length,
}
use intercom_swap.Js.Number.{
  Num, nat, neg, nan, is_integer, less, less_eq, num_eq, num_text, number_of_text, radix_literal,
}

mutual
  pub data Fields : Type 0 where
    end : Fields
    field : String → Value → Fields → Fields

  pub data Items : Type 0 where
    nil : Items
    cons : Value → Items → Items

  pub data Value : Type 0 where
    undefined null : Value
    bool : Bool → Value
    num : Num → Value
    str : String → Value
    arr : Items → Value
    obj : Fields → Value

-- `key in value`, over the object's own properties
unfoldable pub has : Fields → String → Bool
has end key = false
has (field k v fs) key = str_eq k key || has fs key

unfoldable pub lookup : Fields → String → Value
lookup end key = undefined
lookup (field k v fs) key = if str_eq k key then v else lookup fs key

-- value?.key
infixl 80 ◌!◌
unfoldable pub ◌!◌ : Value → String → Value
unfolding lookup
obj fs ! key = lookup fs key
_ ! key = undefined

-- typeof value === 'string'
abbrev pub is_string : Value → Bool
is_string (str s) = true
is_string _ = false

-- value && typeof value === 'object' && !Array.isArray(value)
unfoldable pub is_object : Value → Bool
is_object (obj fs) = true
is_object _ = false

-- value && typeof value === 'object'
unfoldable pub is_reference : Value → Bool
is_reference (obj fs) = true
is_reference (arr xs) = true
is_reference _ = false

-- value !== undefined
abbrev pub is_defined : Value → Bool
is_defined undefined = false
is_defined _ = true

-- value !== undefined && value !== null
unfoldable pub is_present : Value → Bool
is_present undefined = false
is_present null = false
is_present _ = true

-- Whether `if (value)` takes its branch.
unfoldable pub truthy : Value → Bool
unfolding num_eq
truthy undefined = false
truthy null = false
truthy (bool b) = b
truthy (num nan) = false
truthy (num n) = not (num_eq n (nat 0))
truthy (str s) = not (is_empty s)
truthy _ = true

-- String(value), for a value that it reads (`is_readable`)
unfoldable mutual
  unfolding num_text

  pub to_text : Value → String
  to_text undefined = "undefined"
  to_text null = "null"
  to_text (bool b) = if b then "true" else "false"
  to_text (num n) = num_text n
  to_text (str s) = s
  to_text (arr xs) = join_items xs
  to_text (obj fs) = "[object Object]"

  pub join_items : Items → String
  join_items nil = ""
  join_items (cons v nil) = item_text v
  join_items (cons v xs) = concat (item_text v) (concat "," (join_items xs))

  -- Array.prototype.join leaves out null and undefined.
  pub item_text : Value → String
  item_text undefined = ""
  item_text null = ""
  item_text (bool b) = if b then "true" else "false"
  item_text (num n) = num_text n
  item_text (str s) = s
  item_text (arr xs) = join_items xs
  item_text (obj fs) = "[object Object]"

-- Whether String(value) gives a text. It raises a TypeError for an object with a field `toString` of
-- its own, which is no function: `valueOf` then gives the object back. A list asks its items.
unfoldable mutual
  unfolding has

  pub is_readable : Value → Bool
  is_readable (arr xs) = are_readable xs
  is_readable (obj fs) = not (has fs "toString")
  is_readable _ = true

  pub are_readable : Items → Bool
  are_readable nil = true
  are_readable (cons v xs) = is_readable v && are_readable xs

-- value || ''
unfoldable pub or_empty : Value → Value
unfolding truthy
or_empty v = if truthy v then v else str ""

-- String(value || '').trim()
unfoldable pub trimmed : Value → String
unfolding or_empty to_text trim
trimmed v = trim (to_text (or_empty v))

-- `normalizeHex`: String(value || '').trim().toLowerCase()
unfoldable pub normalize_hex : Value → String
unfolding trimmed to_lower
normalize_hex v = to_lower (trimmed v)

-- Number(value), for a value that is readable
unfoldable pub to_number : Value → Num
unfolding number_of_text to_text
to_number undefined = nan
to_number null = nat 0
to_number (bool b) = if b then nat 1 else nat 0
to_number (num n) = n
to_number (str s) = number_of_text s
to_number (arr xs) = number_of_text (join_items xs)
to_number (obj fs) = nan

-- BigInt(value); `none` is a thrown SyntaxError, RangeError or TypeError.
abbrev integer_of : Num → Option Num
integer_of (nat n) = some (nat n)
integer_of (neg n) = some (neg n)
integer_of _ = none

abbrev negated : ℕ → Num
negated n = if n == 0 then nat 0 else neg (n - 1)

-- A sign and at least one digit.
signed_digits : List ℕ → Option Num
unfolding every digits_value is_digit length
signed_digits [] = some (nat 0)
signed_digits (c ∷ cs) =
    let sized = every is_digit cs && ltb 0 (length cs) in
    if c == b'-' && sized
    then some (negated (digits_value 0 cs))
    else if c == b'+' && sized
    then some (nat (digits_value 0 cs))
    else none

unfoldable pub big_int_of_text : String → Option Num
unfolding signed_digits radix_literal
big_int_of_text s =
    let t = codes (trim s) in
    if every is_digit t
    then some (nat (digits_value 0 t))
    else elim (radix_literal t) [ some n ↦ some (nat n) | none ↦ signed_digits t ]

unfoldable pub big_int : Value → Option Num
unfolding big_int_of_text to_text
big_int undefined = none
big_int null = none
big_int (bool b) = some (if b then nat 1 else nat 0)
big_int (num n) = integer_of n
big_int (str s) = big_int_of_text s
big_int (arr xs) = big_int_of_text (join_items xs)
big_int (obj fs) = none

-- `isUint` and `isPosInt`: Number.isInteger(value) and a bound
unfoldable pub is_uint : Value → Bool
unfolding less_eq
is_uint (num n) = is_integer n && less_eq (nat 0) n
is_uint _ = false

unfoldable pub is_pos_int : Value → Bool
unfolding less
is_pos_int (num n) = is_integer n && less (nat 0) n
is_pos_int _ = false

-- value === text
unfoldable pub is_text : Value → String → Bool
is_text (str s) t = str_eq s t
is_text _ t = false

-- a === b, for two values of which neither is an object that the other is
unfoldable pub strict_eq : Value → Value → Bool
strict_eq (str s) (str t) = str_eq s t
strict_eq (num m) (num n) = num_eq m n
strict_eq (bool true) (bool b) = b
strict_eq (bool false) (bool b) = not b
strict_eq null null = true
strict_eq undefined undefined = true
strict_eq a b = false

pub is_text-str : (v : Value) {text : String} → is_text v text ≡ true → v ≡ str text
unfolding is_text
is_text-str (str s) {text} h = ap str ((eq_iff s text).0 h)
is_text-str undefined h = cc
is_text-str null h = cc
is_text-str (bool b) h = cc
is_text-str (num n) h = cc
is_text-str (arr xs) h = cc
is_text-str (obj fs) h = cc
