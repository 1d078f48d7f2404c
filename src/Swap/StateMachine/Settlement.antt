-- ===== src/Swap/StateMachine/Settlement.antt =====
-- src/swap/stateMachine.js, applySwapEnvelope: the cases LN_INVOICE, SOL_ESCROW_CREATED,
-- TAO_HTLC_LOCKED and LN_PAID.
use intercom_swap.Prelude.{
  String, Bool, true, false, not, ◌&&◌, Option, none, some, if◌then◌else◌, str_eq,
}
use intercom_swap.Js.Text.{concat, is_empty}
use intercom_swap.Js.Number.{Num, less, num_eq, times}
use intercom_swap.Js.Value.{
  strict_eq, Value, ◌!◌, is_defined, is_present, truthy, to_text, to_number, big_int,
  big_int_of_text,
}
use intercom_swap.Js.Result.{Result, ok, throw, require, refuse, when, ◌>>=◌, ◌>>◌}
use intercom_swap.Swap.Constants.{State, accepted, invoice, escrow, ln_paid, state_text}
use intercom_swap.Swap.Pairs.{
  normalize_pair, get_amount_for_pair, get_terms_settlement_recipient,
  get_terms_settlement_refund_address, get_terms_settlement_refund_after_unix,
  get_terms_settlement_asset_id,
}
use intercom_swap.Swap.StateMachine.Trade.{Trade, require_signer, hex_eq, text_eq, not_after}

abbrev or_throw : Option Num → Result Num
or_throw none = throw
or_throw (some n) = ok n

-- The invoiced amount is the agreed one, in msat.
unfoldable pub check_invoice_amount : Value → Value → Result (Unit {0})
check_invoice_amount terms body = when (is_present (body ! "amount_msat")) do
  sats ← or_throw (big_int (terms ! "btc_sats"))
  got ← or_throw (big_int_of_text (to_text (body ! "amount_msat")))
  require (num_eq got (times sats 1000)) "LN invoice amount_msat mismatch vs terms"

-- A repeated invoice is the one that is there.
unfoldable pub check_same_invoice : Value → Value → Result (Unit {0})
check_same_invoice prior body = do
  require (hex_eq (prior ! "payment_hash_hex") (body ! "payment_hash_hex"))
      "LN invoice payment_hash mismatch vs prior invoice"
  require (text_eq (prior ! "bolt11") (body ! "bolt11"))
      "LN invoice bolt11 mismatch vs prior invoice"
  when (is_defined (prior ! "amount_msat") && is_defined (body ! "amount_msat")) (
      require (text_eq (prior ! "amount_msat") (body ! "amount_msat"))
        "LN invoice amount_msat mismatch vs prior invoice")
  when (is_defined (prior ! "expires_at_unix") && is_defined (body ! "expires_at_unix")) (
      require
        (num_eq (to_number (prior ! "expires_at_unix")) (to_number (body ! "expires_at_unix")))
        "LN invoice expires_at_unix mismatch vs prior invoice")

abbrev pub allows_invoice : State → Bool
allows_invoice accepted = true
allows_invoice invoice = true
allows_invoice escrow = true
allows_invoice _ = false

-- Only move forward if we weren't already past invoice.
abbrev pub after_invoice : State → State
after_invoice accepted = invoice
after_invoice s = s

-- `if (prior) { check } else { field = body }`
abbrev pub first_of_both : Value → Value → Value
first_of_both prior body = if truthy prior then prior else body

unfoldable pub apply_ln_invoice : Trade → Value → Result Trade
apply_ln_invoice next envelope =
    let body = envelope ! "body" in
    do
      require (allows_invoice next.state)
          (concat "LN_INVOICE not allowed in state=" (state_text next.state))
      require (truthy next.terms) "LN_INVOICE requires terms"
      require_signer envelope (next.terms ! "ln_receiver_peer") "ln_invoice"
      check_invoice_amount next.terms body
      not_after envelope (body ! "expires_at_unix") "LN invoice invalid expires_at_unix"
          "LN invoice already expired"
      when (truthy next.invoice) (check_same_invoice next.invoice body)
      ok (record next {
        invoice = first_of_both next.invoice body;
        state = after_invoice next.state;
      })

abbrev pub allows_escrow : State → Bool
allows_escrow invoice = true
allows_escrow escrow = true
allows_escrow _ = false

-- The settlement that the terms ask for.
unfoldable pub check_escrow_terms : Value → Value → String → Result (Unit {0})
check_escrow_terms terms body name =
    let after = get_terms_settlement_refund_after_unix terms in
    do
      require (text_eq (body ! "recipient") (get_terms_settlement_recipient terms))
          (concat name " recipient mismatch vs terms")
      require (text_eq (body ! "refund") (get_terms_settlement_refund_address terms))
          (concat name " refund mismatch vs terms")
      refuse
          (not (is_empty (to_text (body ! "refund_after_unix")))
            && less (to_number (body ! "refund_after_unix")) (to_number after))
          (concat name " refund_after_unix earlier than terms")

abbrev pub terms_amount : Value → String
terms_amount terms = get_amount_for_pair terms (normalize_pair (terms ! "pair")) true

unfoldable pub check_tao_lock : Trade → Value → Result (Unit {0})
check_tao_lock next body = do
  require (str_eq (to_text (body ! "amount_atomic")) (terms_amount next.terms))
      "TAO HTLC amount_atomic mismatch vs terms"
  when (truthy next.escrow) do
    require (text_eq (next.escrow ! "settlement_id") (body ! "settlement_id"))
        "TAO HTLC settlement_id mismatch vs prior lock"
    require (text_eq (next.escrow ! "tx_id") (body ! "tx_id"))
        "TAO HTLC tx_id mismatch vs prior lock"

unfoldable pub check_sol_escrow : Trade → Value → Result (Unit {0})
check_sol_escrow next body = do
  require (strict_eq (body ! "mint") (get_terms_settlement_asset_id next.terms))
      "SOL escrow mint mismatch vs terms"
  require (str_eq (to_text (body ! "amount")) (terms_amount next.terms))
      "SOL escrow amount mismatch vs terms"
  when (truthy next.escrow) do
    require (text_eq (next.escrow ! "escrow_pda") (body ! "escrow_pda"))
        "SOL escrow escrow_pda mismatch vs prior escrow"
    require (text_eq (next.escrow ! "vault_ata") (body ! "vault_ata"))
        "SOL escrow vault_ata mismatch vs prior escrow"
    require (text_eq (next.escrow ! "tx_sig") (body ! "tx_sig"))
        "SOL escrow tx_sig mismatch vs prior escrow"

unfoldable pub apply_escrow : Bool → Trade → Value → Result Trade
apply_escrow is_tao next envelope =
    let body = envelope ! "body" in
    let label = if is_tao then "TAO_HTLC_LOCKED" else "SOL_ESCROW_CREATED" in
    let name = if is_tao then "TAO HTLC" else "SOL escrow" in
    do
      require (allows_escrow next.state)
          (concat label (concat " not allowed in state=" (state_text next.state)))
      require (truthy next.terms) (concat label " requires terms")
      require (truthy next.invoice) (concat label " requires invoice")
      require_signer envelope (next.terms ! "ln_receiver_peer")
          (if is_tao then "tao_htlc_locked" else "sol_escrow_created")
      require (hex_eq (body ! "payment_hash_hex") (next.invoice ! "payment_hash_hex"))
          (concat name " payment_hash mismatch vs invoice")
      check_escrow_terms next.terms body name
      if is_tao then check_tao_lock next body else check_sol_escrow next body
      ok (record next { escrow = first_of_both next.escrow body; state = escrow })

abbrev pub allows_ln_paid : State → Bool
allows_ln_paid escrow = true
allows_ln_paid ln_paid = true
allows_ln_paid _ = false

unfoldable pub apply_ln_paid : Trade → Value → Result Trade
apply_ln_paid next envelope =
    let hash = envelope ! "body" ! "payment_hash_hex" in
    do
      require (allows_ln_paid next.state)
          (concat "LN_PAID not allowed in state=" (state_text next.state))
      require (truthy next.terms) "LN_PAID requires terms"
      require (truthy next.invoice) "LN_PAID requires invoice"
      require (truthy next.escrow) "LN_PAID requires escrow"
      require_signer envelope (next.terms ! "ln_payer_peer") "ln_paid"
      require (hex_eq hash (next.invoice ! "payment_hash_hex"))
          "LN_PAID payment_hash mismatch vs invoice"
      require (hex_eq hash (next.escrow ! "payment_hash_hex"))
          "LN_PAID payment_hash mismatch vs escrow"
      not_after envelope (next.invoice ! "expires_at_unix")
          "LN_PAID invalid invoice expires_at_unix" "LN_PAID after invoice expiry"
      when (truthy next.ln_paid) (
          require (hex_eq (next.ln_paid ! "payment_hash_hex") hash)
            "LN_PAID payment_hash mismatch vs prior ln_paid")
      ok (record next { ln_paid = first_of_both next.ln_paid (envelope ! "body"); state = ln_paid })
