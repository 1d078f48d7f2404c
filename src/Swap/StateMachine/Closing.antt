-- ===== src/Swap/StateMachine/Closing.antt =====
-- src/swap/stateMachine.js, applySwapEnvelope: the cases SOL_CLAIMED and TAO_CLAIMED, SOL_REFUNDED
-- and TAO_REFUNDED, and CANCEL.
use intercom_swap.Prelude.{String, Bool, true, false, if◌then◌else◌}
use intercom_swap.Js.Text.{concat}
use intercom_swap.Js.Value.{Value, null, ◌!◌, truthy}
use intercom_swap.Js.Result.{Result, ok, require, refuse, when, ◌>>◌}
use intercom_swap.Swap.Constants.{State, escrow, ln_paid, claimed, refunded, canceled, state_text}
use intercom_swap.Swap.StateMachine.Trade.{Trade, require_signer, hex_eq, text_eq, not_before}
use intercom_swap.Swap.StateMachine.Agreement.{is_canceled}
use intercom_swap.Swap.StateMachine.Settlement.{first_of_both}

-- The envelope names the escrow of the trade, by the field that identifies one of its kind.
unfoldable pub check_escrow_named : Bool → Value → Value → String → Result (Unit {0})
check_escrow_named is_tao prior body label =
    if is_tao
    then require (text_eq (body ! "settlement_id") (prior ! "settlement_id"))
        (concat label " settlement_id mismatch vs escrow")
    else require (text_eq (body ! "escrow_pda") (prior ! "escrow_pda"))
        (concat label " escrow_pda mismatch vs escrow")

-- `tx_id` or `tx_sig` is the one of the prior claim or refund.
unfoldable pub same_tx : Bool → Value → Value → Bool
same_tx is_tao prior body =
    if is_tao
    then text_eq (prior ! "tx_id") (body ! "tx_id")
    else text_eq (prior ! "tx_sig") (body ! "tx_sig")

abbrev pub allows_claimed : State → Bool
allows_claimed escrow = true
allows_claimed ln_paid = true
allows_claimed claimed = true
allows_claimed _ = false

unfoldable pub apply_claimed : Bool → Trade → Value → Result Trade
apply_claimed is_tao next envelope =
    let body = envelope ! "body" in
    let label = if is_tao then "TAO_CLAIMED" else "SOL_CLAIMED" in
    do
      require (allows_claimed next.state)
          (concat label (concat " not allowed in state=" (state_text next.state)))
      require (truthy next.terms) (concat label " requires terms")
      require (truthy next.escrow) (concat label " requires escrow")
      require_signer envelope (next.terms ! "ln_payer_peer")
          (if is_tao then "tao_claimed" else "sol_claimed")
      require (hex_eq (body ! "payment_hash_hex") (next.escrow ! "payment_hash_hex"))
          (concat label " payment_hash mismatch vs escrow")
      check_escrow_named is_tao next.escrow body label
      when (truthy next.claimed) (
          require (same_tx is_tao next.claimed body) (
            concat label (
              if is_tao
              then " tx_id mismatch vs prior claim"
              else " tx_sig mismatch vs prior claim")))
      ok (record next { claimed = first_of_both next.claimed body; state = claimed })

abbrev pub allows_refunded : State → Bool
allows_refunded escrow = true
allows_refunded refunded = true
allows_refunded _ = false

unfoldable pub apply_refunded : Bool → Trade → Value → Result Trade
apply_refunded is_tao next envelope =
    let body = envelope ! "body" in
    let label = if is_tao then "TAO_REFUNDED" else "SOL_REFUNDED" in
    do
      require (allows_refunded next.state)
          (concat label (concat " not allowed in state=" (state_text next.state)))
      require (truthy next.terms) (concat label " requires terms")
      require (truthy next.escrow) (concat label " requires escrow")
      require_signer envelope (next.terms ! "ln_receiver_peer")
          (if is_tao then "tao_refunded" else "sol_refunded")
      require (hex_eq (body ! "payment_hash_hex") (next.escrow ! "payment_hash_hex"))
          (concat label " payment_hash mismatch vs escrow")
      check_escrow_named is_tao next.escrow body label
      not_before envelope (next.escrow ! "refund_after_unix")
          (concat label " invalid refund_after_unix") (concat label " too early")
      when (truthy next.refunded) (
          require (same_tx is_tao next.refunded body) (concat label " tx mismatch vs prior refund"))
      ok (record next { refunded = first_of_both next.refunded body; state = refunded })

abbrev pub is_closed : State → Bool
is_closed claimed = true
is_closed refunded = true
is_closed _ = false

abbrev pub is_escrowed : State → Bool
is_escrowed escrow = true
is_escrowed ln_paid = true
is_escrowed _ = false

unfoldable pub apply_cancel : Trade → Value → Result Trade
apply_cancel next envelope =
    let reason = envelope ! "body" ! "reason" in
    if is_canceled next.state then ok next else (do
      refuse (is_closed next.state)
          (concat "CANCEL not allowed in terminal state=" (state_text next.state))
      refuse (is_escrowed next.state) (
          concat "CANCEL not allowed after escrow creation (state="
            (concat (state_text next.state) ")"))
      ok (record next {
        state = canceled;
        canceled_reason = if truthy reason then reason else null;
      }))
