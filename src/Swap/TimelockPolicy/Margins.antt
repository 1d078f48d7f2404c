-- ===== src/Swap/TimelockPolicy/Margins.antt =====
-- When src/swap/timelockPolicy.js calls the time until the refund safe.
use intercom_swap.Prelude.{
  ℕ, zero, suc, ◌+◌, ◌-◌, ◌*◌, ◌≤◌, ◌<◌, ◌≡◌, ◌↔◌, Bool, true, false, some, ltb, arith,
}
use intercom_swap.Js.Number.{nat, neg, less, less_eq, plus, minus, of_decimal}
use intercom_swap.Js.Integers.{to_number-nat, of_decimal-whole}
use intercom_swap.Js.Value.{num, to_number}
use intercom_swap.Swap.TimelockPolicy.{
  positive, parse_unix_seconds_or_null, TimelockOpts, safe, too_short, against_invoice, judge,
  evaluate_pre_pay_timelock_safety,
}

parse-nat : (n : ℕ) → 0 < n → parse_unix_seconds_or_null (num (nat n)) ≡ some n
unfolding parse_unix_seconds_or_null positive
parse-nat n h = ground (arith, to_number-nat n)

-- The settings and times of one check, all of them whole seconds.
abbrev pub whole_opts : ℕ → ℕ → ℕ → ℕ → ℕ → Bool → TimelockOpts
whole_opts refund_after expiry now least margin strict = record {
  refund_after_unix = num (nat refund_after);
  invoice_expiry_unix = num (nat expiry);
  now_unix = num (nat now);
  min_timelock_remaining_sec = num (nat least);
  invoice_expiry_safety_margin_sec = num (nat margin);
  strict = strict;
}

-- The refund against the expiry of the invoice.
abbrev pub IsAfterInvoice : Bool → ℕ → ℕ → ℕ → ℕ → Type 0
IsAfterInvoice true refund_after expiry least margin = expiry + least < refund_after
IsAfterInvoice false refund_after expiry least margin = expiry + margin ≤ refund_after

of_decimal-below : (m : ℕ) → 0 < m → of_decimal true m 0 ≡ neg (m - 1)
unfolding of_decimal
of_decimal-below m h = ground arith

too_short-nat :
    (now refund_after least : ℕ)
    → 0 < now
    → too_short (some now) refund_after (nat least) ≡ ltb refund_after (now + least)
unfolding too_short plus minus less
too_short-nat (suc n) r l h =
    let one : suc n - 1 ≡ n = omega arith in
    ground (
      arith,
      one,
      of_decimal-whole (r * 1 - suc (suc n - 1) * 1),
      of_decimal-below (suc (suc n - 1) * 1 - r * 1),
    )
too_short-nat zero r l h = absurd (omega arith)

module _ (refund_after expiry now least margin : ℕ) where
  judge-safe :
      (strict : Bool)
      → 0 < expiry
      → 0 < now
      → (judge (whole_opts refund_after expiry now least margin strict) (some refund_after)
          ≡ safe refund_after)
        ↔ (now + least ≤ refund_after) × IsAfterInvoice strict refund_after expiry least margin
  unfolding judge against_invoice plus less less_eq to_number
  judge-safe true he hn =
      rw (parse-nat expiry he, parse-nat now hn, too_short-nat now refund_after least hn)
        (λ h. ground arith, λ h. ground arith)
  judge-safe false he hn =
      rw (parse-nat expiry he, parse-nat now hn, too_short-nat now refund_after least hn)
        (λ h. ground arith, λ h. ground arith)

-- With whole numbers of seconds, the three times above 0, the check answers `safe` exactly when the
-- least time remains until the refund, and the refund is the margin after the invoice expires; in
-- the strict mode, more than the least time after it.
pub evaluate_pre_pay_timelock_safety_iff :
    (refund_after expiry now least margin : ℕ) (strict : Bool)
    → 0 < refund_after
    → 0 < expiry
    → 0 < now
    → (evaluate_pre_pay_timelock_safety (whole_opts refund_after expiry now least margin strict)
        ≡ safe refund_after)
      ↔ (now + least ≤ refund_after) × IsAfterInvoice strict refund_after expiry least margin
unfolding evaluate_pre_pay_timelock_safety
evaluate_pre_pay_timelock_safety_iff refund_after expiry now least margin strict hr he hn =
    rw (parse-nat refund_after hr) (judge-safe refund_after expiry now least margin strict he hn)
