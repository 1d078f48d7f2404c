-- ===== src/Swap/StateMachine/Spec.antt =====
-- applySwapEnvelope (src/swap/stateMachine.js) against its specification, the steps of `Steps`.
use intercom_swap.Prelude.{◌≡◌, true, false, some, arith, ◌↔◌}
use intercom_swap.Js.Value.{Value, ◌!◌, is_text}
use intercom_swap.Js.Result.{ok}
use intercom_swap.Swap.Constants.{
  Kind, terms, accept, cancel, status, ln_invoice, sol_escrow_created, tao_htlc_locked, ln_paid,
  sol_claimed, tao_claimed, sol_refunded, tao_refunded,
}
use intercom_swap.Protocol.SignedMessage.{Crypto, verify_signed_envelope}
use intercom_swap.Swap.Schema.Envelope.{kind_of, validate_swap_envelope, default_opts}
use intercom_swap.Swap.StateMachine.Trade.{Trade, last_of}
use intercom_swap.Swap.StateMachine.Apply.{dispatch, dispatch_kind, apply_swap_envelope}
use intercom_swap.Swap.StateMachine.Steps.{
  TermsStep, AcceptStep, InvoiceStep, PaidStep, EscrowStep, ClaimedStep, RefundedStep, CancelStep,
}
use intercom_swap.Swap.StateMachine.Facts.{
  apply_terms-TermsStep, apply_accept-AcceptStep, apply_ln_invoice-InvoiceStep,
  apply_ln_paid-PaidStep, apply_escrow-EscrowStep, apply_claimed-ClaimedStep,
  apply_refunded-RefundedStep, apply_cancel-CancelStep, TermsStep-apply_terms,
  AcceptStep-apply_accept, InvoiceStep-apply_ln_invoice, PaidStep-apply_ln_paid,
  EscrowStep-apply_escrow, ClaimedStep-apply_claimed, RefundedStep-apply_refunded,
  CancelStep-apply_cancel,
}

-- The step of each kind; the kinds of the negotiation have none.
abbrev pub StepOf : Crypto → Kind → Trade → Value → Trade → Type 0
StepOf crypto terms next envelope t = TermsStep next envelope t crypto
StepOf crypto accept next envelope t = AcceptStep next envelope t
StepOf crypto ln_invoice next envelope t = InvoiceStep next envelope t
StepOf crypto sol_escrow_created next envelope t = EscrowStep next envelope t false
StepOf crypto tao_htlc_locked next envelope t = EscrowStep next envelope t true
StepOf crypto ln_paid next envelope t = PaidStep next envelope t
StepOf crypto sol_claimed next envelope t = ClaimedStep next envelope t false
StepOf crypto tao_claimed next envelope t = ClaimedStep next envelope t true
StepOf crypto sol_refunded next envelope t = RefundedStep next envelope t false
StepOf crypto tao_refunded next envelope t = RefundedStep next envelope t true
StepOf crypto cancel next envelope t = CancelStep next envelope t
StepOf crypto status next envelope t = t ≡ next
StepOf crypto _ next envelope t = ⊥

-- The trade that the switch works on: only `last` is new.
abbrev pub marked : Trade → Value → Trade
marked trade envelope = record trade { last = last_of envelope }

-- An envelope that a trade takes: well formed, of this trade, signed, and with a step of its kind.
pub record Accepted (crypto : Crypto) (trade : Trade) (envelope : Value) (t : Trade) : Type 0 where
  pub kind : Kind
  pub valid : validate_swap_envelope envelope default_opts ≡ ok tt
  pub same_trade : is_text (envelope ! "trade_id") trade.trade_id ≡ true
  pub signed : verify_signed_envelope crypto envelope ≡ ok tt
  pub of_kind : kind_of (envelope ! "kind") ≡ some kind
  pub step : StepOf crypto kind (marked trade envelope) envelope t

dispatch-StepOf :
    (crypto : Crypto) (k : Kind) (next : Trade) (envelope : Value) (t : Trade)
    → dispatch crypto k next envelope ≡ ok t
    → StepOf crypto k next envelope t
unfolding dispatch
dispatch-StepOf crypto terms next e t h = apply_terms-TermsStep next e t crypto h
dispatch-StepOf crypto accept next e t h = apply_accept-AcceptStep next e t h
dispatch-StepOf crypto ln_invoice next e t h = apply_ln_invoice-InvoiceStep next e t h
dispatch-StepOf crypto sol_escrow_created next e t h = apply_escrow-EscrowStep next e t false h
dispatch-StepOf crypto tao_htlc_locked next e t h = apply_escrow-EscrowStep next e t true h
dispatch-StepOf crypto ln_paid next e t h = apply_ln_paid-PaidStep next e t h
dispatch-StepOf crypto sol_claimed next e t h = apply_claimed-ClaimedStep next e t false h
dispatch-StepOf crypto tao_claimed next e t h = apply_claimed-ClaimedStep next e t true h
dispatch-StepOf crypto sol_refunded next e t h = apply_refunded-RefundedStep next e t false h
dispatch-StepOf crypto tao_refunded next e t h = apply_refunded-RefundedStep next e t true h
dispatch-StepOf crypto cancel next e t h = apply_cancel-CancelStep next e t h
dispatch-StepOf crypto status next e t h = cc
dispatch-StepOf crypto _ next e t h = cc

StepOf-dispatch :
    (crypto : Crypto) (k : Kind) (next : Trade) (envelope : Value) (t : Trade)
    → StepOf crypto k next envelope t
    → dispatch crypto k next envelope ≡ ok t
unfolding dispatch
StepOf-dispatch crypto terms next e t h = TermsStep-apply_terms next e t crypto h
StepOf-dispatch crypto accept next e t h = AcceptStep-apply_accept next e t h
StepOf-dispatch crypto ln_invoice next e t h = InvoiceStep-apply_ln_invoice next e t h
StepOf-dispatch crypto sol_escrow_created next e t h = EscrowStep-apply_escrow next e t false h
StepOf-dispatch crypto tao_htlc_locked next e t h = EscrowStep-apply_escrow next e t true h
StepOf-dispatch crypto ln_paid next e t h = PaidStep-apply_ln_paid next e t h
StepOf-dispatch crypto sol_claimed next e t h = ClaimedStep-apply_claimed next e t false h
StepOf-dispatch crypto tao_claimed next e t h = ClaimedStep-apply_claimed next e t true h
StepOf-dispatch crypto sol_refunded next e t h = RefundedStep-apply_refunded next e t false h
StepOf-dispatch crypto tao_refunded next e t h = RefundedStep-apply_refunded next e t true h
StepOf-dispatch crypto cancel next e t h = CancelStep-apply_cancel next e t h
StepOf-dispatch crypto status next e t h = cc
StepOf-dispatch crypto _ next e t h = absurd h

module _ (crypto : Crypto) (trade : Trade) (envelope : Value) (t : Trade) where
  apply_parts :
      apply_swap_envelope crypto trade envelope ≡ ok t
      → (validate_swap_envelope envelope default_opts ≡ ok tt)
        × (is_text (envelope ! "trade_id") trade.trade_id ≡ true)
        × (verify_signed_envelope crypto envelope ≡ ok tt)
        × (k : Kind) × (kind_of (envelope ! "kind") ≡ some k)
        × (dispatch crypto k (marked trade envelope) envelope ≡ ok t)
  unfolding apply_swap_envelope dispatch_kind
  apply_parts h = ground arith

  apply_of_parts :
      (k : Kind)
      → validate_swap_envelope envelope default_opts ≡ ok tt
      → is_text (envelope ! "trade_id") trade.trade_id ≡ true
      → verify_signed_envelope crypto envelope ≡ ok tt
      → kind_of (envelope ! "kind") ≡ some k
      → dispatch crypto k (marked trade envelope) envelope ≡ ok t
      → apply_swap_envelope crypto trade envelope ≡ ok t
  unfolding apply_swap_envelope dispatch_kind
  apply_of_parts k v s g q d = ground arith

  pub apply-Accepted :
      apply_swap_envelope crypto trade envelope ≡ ok t → Accepted crypto trade envelope t
  apply-Accepted h =
      let (v, s, g, k, q, d) = apply_parts h in
      record {
        kind = k;
        valid = v;
        same_trade = s;
        signed = g;
        of_kind = q;
        step = dispatch-StepOf crypto k (marked trade envelope) envelope t d;
      }

  -- A trade takes an envelope, with a given outcome, exactly when the envelope is well formed,
  -- names the trade, carries a valid signature, and has a step of its kind to that outcome.
  pub apply_iff :
      (apply_swap_envelope crypto trade envelope ≡ ok t) ↔ Accepted crypto trade envelope t
  apply_iff = (
    apply-Accepted,
    λ a.
        apply_of_parts a.kind a.valid a.same_trade a.signed a.of_kind
          (StepOf-dispatch crypto a.kind (marked trade envelope) envelope t a.step),
  )
