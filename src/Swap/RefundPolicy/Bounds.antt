-- ===== src/Swap/RefundPolicy/Bounds.antt =====
-- The refund windows of src/swap/pairs.js lie in their range.
use intercom_swap.Prelude.{ℕ, ◌≤◌, ◌/◌, ◌^◌, ◌≡◌, refl, Bool, true, Option, some, none, arith}
use intercom_swap.Js.Number.{Num, nat, neg, frac, truncate, is_integer, of_decimal}
use intercom_swap.Js.Parse.{clamped, parse_int}
use intercom_swap.Js.Text.{trim}
use intercom_swap.Js.Value.{Value, num, ◌!◌, to_text}
use intercom_swap.Swap.Constants.{Pair, btc_usdt, btc_tao}
use intercom_swap.Swap.Pairs.{normalize_pair}
use intercom_swap.Swap.RefundPolicy.{
  finite_int, to_int_or_null, int_or, normalize_sec, min_sec_of, max_sec_of, policy_for,
  RefundPolicy, normalize_refund_policy_for_pair,
}

of_decimal-integer : (s : Bool) (m : ℕ) → is_integer (of_decimal s m 0) ≡ true
unfolding of_decimal
of_decimal-integer s m = ground arith

finite_int-integer : (x n : Num) → finite_int x ≡ some n → is_integer n ≡ true
unfolding finite_int truncate
finite_int-integer (nat m) n h = ground arith
finite_int-integer (neg m) n h = ground arith
finite_int-integer (frac s m k) n h = ground (arith, of_decimal-integer s (m / 10 ^ k))
finite_int-integer _ n h = cc

to_int_or_null-integer : (v : Value) (n : Num) → to_int_or_null v ≡ some n → is_integer n ≡ true
unfolding to_int_or_null
to_int_or_null-integer Value.undefined n h = cc
to_int_or_null-integer Value.null n h = cc
to_int_or_null-integer (num x) n h = finite_int-integer x n h
to_int_or_null-integer (Value.bool b) n h =
    finite_int-integer (parse_int (trim (to_text (Value.bool b)))) n h
to_int_or_null-integer (Value.str s) n h =
    finite_int-integer (parse_int (trim (to_text (Value.str s)))) n h
to_int_or_null-integer (Value.arr xs) n h =
    finite_int-integer (parse_int (trim (to_text (Value.arr xs)))) n h
to_int_or_null-integer (Value.obj fs) n h =
    finite_int-integer (parse_int (trim (to_text (Value.obj fs)))) n h

some_or-integer :
    (v : Value) (o : Option Num) (x : Num)
    → to_int_or_null v ≡ o
    → is_integer x ≡ true
    → is_integer (elim o [ some n ↦ n | none ↦ x ]) ≡ true
some_or-integer v none x e h = h
some_or-integer v (some n) x e h = to_int_or_null-integer v n e

int_or-integer : (v : Value) (x : Num) → is_integer x ≡ true → is_integer (int_or v x) ≡ true
unfolding int_or
int_or-integer v x h = some_or-integer v (to_int_or_null v) x refl h

-- A number of seconds in the range.
abbrev pub InRange : ℕ → ℕ → Num → Type 0
InRange low high x = (n : ℕ) × (x ≡ nat n) × (low ≤ n) × (n ≤ high)

normalize_sec-InRange :
    (v : Value) (x lo hi : Num) (low high : ℕ)
    → is_integer x ≡ true
    → lo ≡ nat low
    → hi ≡ nat high
    → low ≤ high
    → InRange low high (normalize_sec v x lo hi)
unfolding normalize_sec
normalize_sec-InRange v x lo hi low high h a b le =
    let (n, e, lower, upper) = clamped low high (int_or v x) (int_or-integer v x h) le in
    (n, cc, lower, upper)

-- The windows of a policy, for a quote and for an RFQ.
pub record AreInRange (low high : ℕ) (policy : RefundPolicy) : Type 0 where
  pub quote : InRange low high policy.quote_refund_sec
  pub least : InRange low high policy.min_refund_sec
  pub most : InRange low high policy.max_refund_sec

pub policy_for-AreInRange :
    (pair : Pair) (raw defaults : Value) (low high : ℕ)
    → min_sec_of defaults ≡ nat low
    → max_sec_of defaults ≡ nat high
    → low ≤ high
    → AreInRange low high (policy_for pair raw defaults)
unfolding policy_for
policy_for-AreInRange btc_tao raw defaults low high a b le =
    let quote =
      normalize_sec-InRange _ _ _ _ low high
        (int_or-integer (defaults ! "defaultQuoteRefundSec") (nat 259200) refl) a b le in
    record { quote = quote; least = quote; most = quote }
policy_for-AreInRange btc_usdt raw defaults low high a b le = record {
  quote =
      normalize_sec-InRange _ _ _ _ low high
        (int_or-integer (defaults ! "defaultQuoteRefundSec") (nat 259200) refl) a b le;
  least =
      normalize_sec-InRange _ _ _ _ low high
        (int_or-integer (defaults ! "defaultMinRefundSec") (min_sec_of defaults)
          (int_or-integer (defaults ! "minSec") (nat 3600) refl))
        a b le;
  most =
      normalize_sec-InRange _ _ _ _ low high
        (int_or-integer (defaults ! "defaultMaxRefundSec") (max_sec_of defaults)
          (int_or-integer (defaults ! "maxSec") (nat 604800) refl))
        a b le;
}

-- The windows of a normalized policy are whole seconds between the least and the most that the
-- defaults allow, whatever the settings are, where that range is not empty.
pub normalize_refund_policy-AreInRange :
    (pair raw defaults : Value) (low high : ℕ)
    → min_sec_of defaults ≡ nat low
    → max_sec_of defaults ≡ nat high
    → low ≤ high
    → AreInRange low high (normalize_refund_policy_for_pair pair raw defaults)
unfolding normalize_refund_policy_for_pair
normalize_refund_policy-AreInRange pair raw defaults low high a b le =
    policy_for-AreInRange (normalize_pair pair) raw defaults low high a b le
