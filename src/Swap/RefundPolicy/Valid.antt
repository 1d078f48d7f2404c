-- ===== src/Swap/RefundPolicy/Valid.antt =====
-- Validation (src/swap/schema.js) takes the refund windows of src/swap/pairs.js.
use intercom_swap.Prelude.{ℕ, ◌≤◌, String, ◌≡◌, refl, true, arith}
use intercom_swap.Js.Number.{Num, nat, less, less_eq}
use intercom_swap.Js.Result.{ok}
use intercom_swap.Js.Value.{Value, num, obj, field, end, ◌!◌, is_uint, is_present, to_number}
use intercom_swap.Swap.Constants.{Pair, btc_usdt, btc_tao}
use intercom_swap.Swap.Pairs.{normalize_pair}
use intercom_swap.Swap.Schema.Fields.{
  check_window, tao_refund_constraints, rfq_refund_range, sol_refund_constraints,
  validate_refund_constraints,
}
use intercom_swap.Swap.Schema.Envelope.{default_opts}
use intercom_swap.Swap.RefundPolicy.{
  min_sec_of, max_sec_of, policy_for, RefundPolicy, normalize_refund_policy_for_pair,
}
use intercom_swap.Swap.RefundPolicy.Bounds.{AreInRange, policy_for-AreInRange}

-- One window of seconds, within an hour and seven days.
check_window-ok :
    (body : Value) (label name : String) (n : ℕ)
    → body ! name ≡ num (nat n)
    → 3600 ≤ n
    → n ≤ 604800
    → check_window body label name (nat 3600) (nat 604800) ≡ ok tt
unfolding check_window is_present is_uint less_eq less to_number
check_window-ok body label name n e low high = rw e (ground arith)

exact_window : String → ℕ → Value
exact_window name n = obj (field name (num (nat n)) end)

range_window : ℕ → ℕ → Value
range_window low high = obj (
    field "min_sol_refund_window_sec" (num (nat low))
      (field "max_sol_refund_window_sec" (num (nat high)) end))

tao_window-ok :
    (label : String) (n : ℕ)
    → 3600 ≤ n
    → n ≤ 604800
    → validate_refund_constraints
        (exact_window "settlement_refund_after_sec" n)
        label
        btc_tao
        default_opts
      ≡ ok tt
unfolding exact_window validate_refund_constraints tao_refund_constraints ◌!◌
tao_window-ok label n low high =
    rw
      (check_window-ok (exact_window "settlement_refund_after_sec" n) label
        "settlement_refund_after_sec" n refl low high)
      refl

sol_window-ok :
    (n : ℕ)
    → 3600 ≤ n
    → n ≤ 604800
    → validate_refund_constraints
        (exact_window "sol_refund_window_sec" n)
        "quote"
        btc_usdt
        default_opts
      ≡ ok tt
unfolding exact_window validate_refund_constraints sol_refund_constraints ◌!◌ is_present
sol_window-ok n low high =
    check_window-ok (exact_window "sol_refund_window_sec" n) "quote" "sol_refund_window_sec" n refl
      low high

range_window-ok :
    (m n : ℕ)
    → 3600 ≤ m
    → m ≤ n
    → n ≤ 604800
    → validate_refund_constraints (range_window m n) "rfq" btc_usdt default_opts ≡ ok tt
unfolding range_window validate_refund_constraints sol_refund_constraints rfq_refund_range ◌!◌
    is_present to_number less
range_window-ok m n low le high = ground (
  arith,
  check_window-ok (range_window m n) "rfq" "min_sol_refund_window_sec" m refl low (omega arith),
  check_window-ok (range_window m n) "rfq" "max_sol_refund_window_sec" n refl (omega arith) high,
)

-- Validation takes the fields of an RFQ and of a quote that follow a policy.
abbrev pub IsValid : Pair → RefundPolicy → Type 0
IsValid pair policy =
    (validate_refund_constraints policy.rfq_fields "rfq" pair default_opts ≡ ok tt)
    × (validate_refund_constraints policy.quote_fields "quote" pair default_opts ≡ ok tt)

less_eq-le : (x y : Num) (m k : ℕ) → x ≡ nat m → y ≡ nat k → less_eq x y ≡ true → m ≤ k
unfolding less_eq
less_eq-le x y m k ex ey h = ground arith

policy_for-IsValid :
    (pair : Pair) (raw defaults : Value) (low high : ℕ)
    → 3600 ≤ low
    → high ≤ 604800
    → (policy_for pair raw defaults).range_valid ≡ true
    → AreInRange low high (policy_for pair raw defaults)
    → IsValid pair (policy_for pair raw defaults)
unfolding policy_for exact_window range_window
policy_for-IsValid btc_tao raw defaults low high hour week v r =
    let (n, e, ln, hn) = r.quote in
    rw e (
      tao_window-ok "rfq" n (omega arith) (omega arith),
      tao_window-ok "quote" n (omega arith) (omega arith),
    )
policy_for-IsValid btc_usdt raw defaults low high hour week v r =
    let (n, e, ln, hn) = r.quote in
    let (m, em, lm, hm) = r.least in
    let (k, ek, lk, hk) = r.most in
    rw (e, em, ek)
      (
        range_window-ok m k (omega arith) (less_eq-le _ _ m k em ek v) (omega arith),
        sol_window-ok n (omega arith) (omega arith),
      )

-- Where the least and the most seconds of the defaults are in order, an hour at least and seven days
-- at most, validation takes the refund fields that a normalized policy with a valid range gives to an
-- RFQ and to a quote, whatever the settings ask for.
pub normalize_refund_policy-IsValid :
    (pair raw defaults : Value) (low high : ℕ)
    → min_sec_of defaults ≡ nat low
    → max_sec_of defaults ≡ nat high
    → 3600 ≤ low
    → low ≤ high
    → high ≤ 604800
    → (normalize_refund_policy_for_pair pair raw defaults).range_valid ≡ true
    → IsValid (normalize_pair pair) (normalize_refund_policy_for_pair pair raw defaults)
unfolding normalize_refund_policy_for_pair
normalize_refund_policy-IsValid pair raw defaults low high a b hour le week v =
    policy_for-IsValid (normalize_pair pair) raw defaults low high hour week v
      (policy_for-AreInRange (normalize_pair pair) raw defaults low high a b le)
