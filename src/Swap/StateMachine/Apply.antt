-- ===== src/Swap/StateMachine/Apply.antt =====
-- src/swap/stateMachine.js: applySwapEnvelope.
use intercom_swap.Prelude.{String, true, false, Option, none, some}
use intercom_swap.Js.Text.{concat}
use intercom_swap.Js.Value.{Value, ◌!◌, is_text, to_text}
use intercom_swap.Js.Result.{Result, ok, error, require, ◌>>◌}
use intercom_swap.Swap.Constants.{
  Kind, terms, accept, cancel, status, ln_invoice, sol_escrow_created, tao_htlc_locked, ln_paid,
  sol_claimed, tao_claimed, sol_refunded, tao_refunded, kind_text,
}
use intercom_swap.Swap.Schema.Envelope.{kind_of, validate_swap_envelope, default_opts}
use intercom_swap.Protocol.SignedMessage.{Crypto, verify_signed_envelope}
use intercom_swap.Swap.StateMachine.Trade.{Trade, last_of}
use intercom_swap.Swap.StateMachine.Agreement.{apply_terms, apply_accept}
use intercom_swap.Swap.StateMachine.Settlement.{apply_ln_invoice, apply_escrow, apply_ln_paid}
use intercom_swap.Swap.StateMachine.Closing.{apply_claimed, apply_refunded, apply_cancel}

-- The switch over `envelope.kind`; the kinds of the negotiation fall to `default`.
unfoldable pub dispatch : Crypto → Kind → Trade → Value → Result Trade
dispatch crypto terms next envelope = apply_terms crypto next envelope
dispatch crypto accept next envelope = apply_accept next envelope
dispatch crypto ln_invoice next envelope = apply_ln_invoice next envelope
dispatch crypto sol_escrow_created next envelope = apply_escrow false next envelope
dispatch crypto tao_htlc_locked next envelope = apply_escrow true next envelope
dispatch crypto ln_paid next envelope = apply_ln_paid next envelope
dispatch crypto sol_claimed next envelope = apply_claimed false next envelope
dispatch crypto tao_claimed next envelope = apply_claimed true next envelope
dispatch crypto sol_refunded next envelope = apply_refunded false next envelope
dispatch crypto tao_refunded next envelope = apply_refunded true next envelope
dispatch crypto cancel next envelope = apply_cancel next envelope
dispatch crypto status next envelope = ok next
dispatch crypto k next envelope = error (concat "Unhandled kind: " (kind_text k))

unfoldable pub dispatch_kind : Crypto → Option Kind → Trade → Value → Result Trade
unfolding dispatch
dispatch_kind crypto (some k) next envelope = dispatch crypto k next envelope
dispatch_kind crypto none next envelope =
    error (concat "Unhandled kind: " (to_text (envelope ! "kind")))

-- `{ ok: false, error: prefix + error }`
abbrev prefix_error : String → Result (Unit {0}) → Result (Unit {0})
prefix_error prefix (error e) = error (concat prefix e)
prefix_error prefix m = m

unfoldable pub apply_swap_envelope : Crypto → Trade → Value → Result Trade
apply_swap_envelope crypto trade envelope = do
  validate_swap_envelope envelope default_opts
  require (is_text (envelope ! "trade_id") trade.trade_id) "trade_id mismatch"
  prefix_error "bad signature: " (verify_signed_envelope crypto envelope)
  dispatch_kind crypto (kind_of (envelope ! "kind")) (record trade { last = last_of envelope })
      envelope
