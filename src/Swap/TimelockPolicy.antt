-- ===== src/Swap/TimelockPolicy.antt =====
-- src/swap/timelockPolicy.js
pub mod Margins
use intercom_swap.Prelude.{ℕ, Bool, true, false, Option, none, some, ltb, if◌then◌else◌}
use intercom_swap.Js.Number.{Num, nat, less, less_eq, plus, minus}
use intercom_swap.Js.Value.{Value, to_number}

-- The integers greater than 0.
unfoldable pub positive : Num → Option ℕ
positive (nat n) = if ltb 0 n then some n else none
positive _ = none

-- parseUnixSecondsOrNull; Number of undefined, null and '' is no integer greater than 0.
unfoldable pub parse_unix_seconds_or_null : Value → Option ℕ
unfolding positive
parse_unix_seconds_or_null v = positive (to_number v)

pub record TimelockOpts : Type 0 where
  pub refund_after_unix : Value
  pub invoice_expiry_unix : Value
  pub now_unix : Value
  pub min_timelock_remaining_sec : Value
  pub invoice_expiry_safety_margin_sec : Value
  pub strict : Bool  -- requireRefundAfterGreaterThanInvoiceExpiryPlusMin

-- The `code` of the answer, with the numbers that it reports.
pub data Verdict : Type 0 where
  safe : ℕ → Verdict
  refund_after_invalid : Verdict
  timelock_too_short : ℕ → Num → Verdict
  invoice_expiry_violation_strict : ℕ → ℕ → Num → Verdict
  invoice_expiry_violation_margin : ℕ → ℕ → Num → Verdict

-- The test of the time that remains; `now` may be missing.
unfoldable pub too_short : Option ℕ → ℕ → Num → Bool
too_short none refund_after least = false
too_short (some now) refund_after least = less (plus (nat refund_after) (minus (nat now))) least

remaining : Option ℕ → ℕ → Num
remaining none refund_after = nat refund_after
remaining (some now) refund_after = plus (nat refund_after) (minus (nat now))

unfoldable pub against_invoice : TimelockOpts → Option ℕ → ℕ → Verdict
against_invoice opts none refund_after = safe refund_after
against_invoice opts (some expiry) refund_after =
    let min_safe = plus (nat expiry) (to_number opts.min_timelock_remaining_sec) in
    let min_refund = plus (nat expiry) (to_number opts.invoice_expiry_safety_margin_sec) in
    if opts.strict
    then (if less_eq (nat refund_after) min_safe
        then invoice_expiry_violation_strict refund_after expiry min_safe
        else safe refund_after)
    else (if less (nat refund_after) min_refund
        then invoice_expiry_violation_margin refund_after expiry min_refund
        else safe refund_after)

unfoldable pub judge : TimelockOpts → Option ℕ → Verdict
unfolding too_short remaining against_invoice
judge opts none = refund_after_invalid
judge opts (some refund_after) =
    let now = parse_unix_seconds_or_null opts.now_unix in
    if too_short now refund_after (to_number opts.min_timelock_remaining_sec)
    then timelock_too_short refund_after (remaining now refund_after)
    else against_invoice opts (parse_unix_seconds_or_null opts.invoice_expiry_unix) refund_after

-- evaluatePrePayTimelockSafety
unfoldable pub evaluate_pre_pay_timelock_safety : TimelockOpts → Verdict
unfolding judge
evaluate_pre_pay_timelock_safety opts =
    judge opts (parse_unix_seconds_or_null opts.refund_after_unix)
