-- ===== src/Swap/Verify.antt =====
-- src/swap/verify.js: what the payer checks before it pays the Lightning invoice.
pub mod Escrow
pub mod PrePay
use intercom_swap.Prelude.{ℕ, String, Bool, true, false, not, ◌&&◌, if◌then◌else◌, str_eq}
use intercom_swap.Js.Number.{Num, nat, is_finite, less, less_eq, plus, minus}
use intercom_swap.Js.Value.{
  Value, num, ◌!◌, is_present, is_reference, to_text, to_number, normalize_hex,
}
use intercom_swap.Js.Result.{Result, ok, error, throw, require, refuse, when, ◌>>=◌, ◌>>◌}
use intercom_swap.Js.Text.{concat}
use intercom_swap.Ln.Bolt11.{Bech32, Decoded, verify_bolt11_matches_invoice_body}
use intercom_swap.Swap.Pairs.{
  normalize_pair, is_tao_pair, get_amount_for_pair, get_terms_settlement_recipient,
  get_terms_settlement_refund_address, get_terms_settlement_refund_after_unix,
  get_terms_settlement_asset_id,
}

abbrev pub default_min_refund_delta_sec : ℕ
default_min_refund_delta_sec = 600

abbrev pub default_min_invoice_expiry_delta_sec : ℕ
default_min_invoice_expiry_delta_sec = 60

unfoldable pub verify_invoice_body : Bech32 → Value → Result Decoded
verify_invoice_body bech32 body = do
  require (is_reference body) "invoiceBody is required"
  verify_bolt11_matches_invoice_body bech32 body

unfoldable pub verify_escrow_against_terms : Value → Value → Result (Unit {0})
verify_escrow_against_terms terms escrow =
    let pair = normalize_pair (terms ! "pair") in
    let amount = get_amount_for_pair terms pair true in
    do
      require (is_reference terms) "terms is required"
      require (is_reference escrow) "escrowBody is required"
      require
          (str_eq (to_text (escrow ! "recipient")) (to_text (get_terms_settlement_recipient terms)))
          "escrow recipient mismatch vs terms"
      require
          (str_eq (to_text (escrow ! "refund"))
            (to_text (get_terms_settlement_refund_address terms)))
          "escrow refund mismatch vs terms"
      refuse
          (not (is_tao_pair pair)
            && not (
                str_eq (to_text (escrow ! "mint")) (to_text (get_terms_settlement_asset_id terms))))
          "escrow mint mismatch vs terms"
      require
          (str_eq
            (to_text (if is_tao_pair pair then escrow ! "amount_atomic" else escrow ! "amount"))
            amount)
          "escrow amount mismatch vs terms"
      refuse
          (less (to_number (escrow ! "refund_after_unix"))
            (to_number (get_terms_settlement_refund_after_unix terms)))
          "escrow refund_after_unix earlier than terms"

-- The point `limit` lies at least `margin` seconds after `now`.
unfoldable pub check_margin : Num → Num → ℕ → String → String → Result (Unit {0})
check_margin now limit margin reached soon =
    let delta = plus limit (minus now) in
    do refuse (less_eq limit now) reached; refuse (is_finite delta && less delta (nat margin)) soon

-- `invoiceBody.expires_at_unix ?? decoded.expires_at_unix`
abbrev pub invoice_expires_at : Value → Decoded → Num
invoice_expires_at body decoded =
    if is_present (body ! "expires_at_unix")
    then to_number (body ! "expires_at_unix")
    else nat decoded.expires_at_unix

unfoldable pub check_times : Value → Value → Decoded → Value → Result (Unit {0})
check_times invoice escrow decoded now_unix = when (is_present now_unix) do
  require (is_finite (to_number now_unix) && less (nat 0) (to_number now_unix))
      "now_unix must be a unix seconds number"
  check_margin (to_number now_unix) (invoice_expires_at invoice decoded)
      default_min_invoice_expiry_delta_sec "invoice already expired"
      "invoice expires too soon (need >=60s margin)"
  when (is_present (escrow ! "refund_after_unix")) (
      check_margin (to_number now_unix) (to_number (escrow ! "refund_after_unix"))
        default_min_refund_delta_sec "escrow refund_after already reached"
        "escrow refund_after too soon (need >=600s claim margin)")

abbrev invoice_error : Result Decoded → Result Decoded
invoice_error (error e) = error (concat "invoice invalid: " e)
invoice_error m = m

unfoldable pub verify_swap_pre_pay : Bech32 → Value → Value → Value → Value → Result Decoded
verify_swap_pre_pay bech32 terms invoice escrow now_unix = do
  require (is_reference terms) "terms is required"
  require (is_reference invoice) "invoiceBody is required"
  require (is_reference escrow) "escrowBody is required"
  decoded ← invoice_error (verify_invoice_body bech32 invoice)
  verify_escrow_against_terms terms escrow
  require
      (str_eq (normalize_hex (invoice ! "payment_hash_hex"))
        (normalize_hex (escrow ! "payment_hash_hex")))
      "payment_hash mismatch (invoice vs escrow)"
  check_times invoice escrow decoded now_unix
  ok decoded
