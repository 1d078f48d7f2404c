-- ===== src/Swap/Verify/PrePay.antt =====
-- verifySwapPrePay (src/swap/verify.js): what an approval to pay guarantees.
use intercom_swap.Prelude.{ℕ, ◌+◌, ◌≤◌, String, ◌≡◌, true, arith, eq_iff}
use intercom_swap.Js.Number.{nat, less, less_eq}
use intercom_swap.Js.Value.{Value, num, ◌!◌, is_present, is_reference, normalize_hex}
use intercom_swap.Js.Integers.{to_number-nat, plus-minus}
use intercom_swap.Js.Result.{ok}
use intercom_swap.Ln.Bolt11.{Bech32, Decoded}
use intercom_swap.Swap.StateMachine.Agreed.{EscrowAgrees}
use intercom_swap.Swap.Verify.Escrow.{tao_terms, verify_escrow_iff}
use intercom_swap.Swap.Verify.{
  verify_escrow_against_terms, check_margin, invoice_expires_at, check_times, verify_swap_pre_pay,
  verify_invoice_body,
}

check_margin-le :
    (now limit margin : ℕ) (reached soon : String)
    → check_margin (nat now) (nat limit) margin reached soon ≡ ok tt
    → now + margin ≤ limit
unfolding check_margin less_eq less
check_margin-le now limit margin reached soon h = ground (arith, plus-minus limit now)

pre_pay_parts :
    (bech32 : Bech32) (terms invoice escrow now_unix : Value) (d : Decoded)
    → verify_swap_pre_pay bech32 terms invoice escrow now_unix ≡ ok d
    → (is_reference terms ≡ true)
      × (is_reference escrow ≡ true)
      × (verify_invoice_body bech32 invoice ≡ ok d)
      × (verify_escrow_against_terms terms escrow ≡ ok tt)
      × (normalize_hex (invoice ! "payment_hash_hex") ≡ normalize_hex (escrow ! "payment_hash_hex"))
      × (check_times invoice escrow d now_unix ≡ ok tt)
unfolding verify_swap_pre_pay
pre_pay_parts bech32 terms invoice escrow now_unix d h = ground (
  arith,
  eq_iff (normalize_hex (invoice ! "payment_hash_hex"))
      (normalize_hex (escrow ! "payment_hash_hex")),
)

times_parts :
    (invoice escrow : Value) (d : Decoded) (now expiry refund : ℕ)
    → check_times invoice escrow d (num (nat now)) ≡ ok tt
    → invoice_expires_at invoice d ≡ nat expiry
    → escrow ! "refund_after_unix" ≡ num (nat refund)
    → (now + 60 ≤ expiry) × (now + 600 ≤ refund)
unfolding check_times is_present
times_parts invoice escrow d now expiry refund h e r = ground (
  arith,
  to_number-nat now,
  to_number-nat refund,
  check_margin-le now expiry 60 "invoice already expired"
      "invoice expires too soon (need >=60s margin)",
  check_margin-le now refund 600 "escrow refund_after already reached"
      "escrow refund_after too soon (need >=600s claim margin)",
)

-- What is certain when the check says that the invoice may be paid.
pub record SafeToPay (terms invoice escrow : Value) (now expiry refund : ℕ) : Type 0 where
  pub agrees : EscrowAgrees (tao_terms terms) terms escrow
  pub same_hash :
      normalize_hex (invoice ! "payment_hash_hex") ≡ normalize_hex (escrow ! "payment_hash_hex")
  pub invoice_margin : now + 60 ≤ expiry
  pub refund_margin : now + 600 ≤ refund

-- Where the check at the time `now` says that the invoice may be paid, the escrow agrees with the
-- terms and has the payment hash of the invoice, the invoice is good for a minute more, and the
-- refund is ten minutes away at least, for times that are whole numbers of seconds.
pub pre_pay-SafeToPay :
    (bech32 : Bech32) (terms invoice escrow : Value) (d : Decoded) (now expiry refund : ℕ)
    → verify_swap_pre_pay bech32 terms invoice escrow (num (nat now)) ≡ ok d
    → invoice_expires_at invoice d ≡ nat expiry
    → escrow ! "refund_after_unix" ≡ num (nat refund)
    → SafeToPay terms invoice escrow now expiry refund
pre_pay-SafeToPay bech32 terms invoice escrow d now expiry refund h e r =
    let (ft, fe, valid, agreed, same, times) =
      pre_pay_parts bech32 terms invoice escrow (num (nat now)) d h in
    let (soon, late) = times_parts invoice escrow d now expiry refund times e r in
    record {
      agrees = (verify_escrow_iff terms escrow ft fe).0 agreed;
      same_hash = same;
      invoice_margin = soon;
      refund_margin = late;
    }
