-- ===== src/Js/Parse.antt =====
-- Number.parseInt, `??`, Math.min and Math.max.
use intercom_swap.Prelude.{
  ℕ, ◌-◌, ◌≤◌, String, Bool, true, false, ◌≡◌, List, [], ◌∷◌, ◌==◌, ltb, if◌then◌else◌, arith,
}
use intercom_swap.Js.Text.{codes, trim, digits_value}
use intercom_swap.Js.Number.{
  Num, nat, neg, nan, infinity, minus_infinity, is_integer, less, take_digits,
}
use intercom_swap.Js.Value.{Value, is_present}

-- a ?? b
unfoldable pub coalesce : Value → Value → Value
unfolding is_present
coalesce a b = if is_present a then a else b

-- Math.min(a, b)
unfoldable pub num_min : Num → Num → Num
unfolding less
num_min nan b = nan
num_min a nan = nan
num_min a b = if less b a then b else a

-- Math.max(a, b)
unfoldable pub num_max : Num → Num → Num
unfolding less
num_max nan b = nan
num_max a nan = nan
num_max a b = if less a b then b else a

-- The run of digits at the front; NaN where there is none.
leading : Bool → List ℕ → Num
leading negative [] = nan
leading negative (d ∷ ds) =
    let n = digits_value 0 (d ∷ ds) in
    if negative then (if n == 0 then nat 0 else neg (n - 1)) else nat n

sign_and_digits : List ℕ → Num
unfolding take_digits leading
sign_and_digits [] = nan
sign_and_digits (c ∷ cs) =
    if c == b'-'
    then leading true (take_digits cs).0
    else if c == b'+'
    then leading false (take_digits cs).0
    else leading false (take_digits (c ∷ cs)).0

-- Number.parseInt(text, 10)
unfoldable pub parse_int : String → Num
unfolding sign_and_digits trim
parse_int s = sign_and_digits (codes (trim s))

clamp : ℕ → ℕ → ℕ → ℕ
clamp low high n = if ltb high n then high else if ltb n low then low else n

-- An integer that is brought into a range is a number of the range.
pub clamped :
    (low high : ℕ) (x : Num)
    → is_integer x ≡ true
    → low ≤ high
    → (n : ℕ) × (num_max (nat low) (num_min (nat high) x) ≡ nat n) × (low ≤ n) × (n ≤ high)
unfolding num_max num_min less clamp
clamped low high (nat n) h le = (clamp low high n, ground arith, ground arith, ground arith)
clamped low high (neg n) h le = (low, ground arith, ground arith, ground arith)
clamped low high (Num.frac s m k) h le = cc
clamped low high infinity h le = cc
clamped low high minus_infinity h le = cc
clamped low high nan h le = cc
