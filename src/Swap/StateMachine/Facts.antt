-- ===== src/Swap/StateMachine/Facts.antt =====
-- Each handler of src/swap/stateMachine.js accepts an envelope exactly when its step is there.
use intercom_swap.Prelude.{◌≡◌, Bool, true, false, arith}
use intercom_swap.Js.Value.{Value}
use intercom_swap.Js.Result.{ok}
use intercom_swap.Protocol.SignedMessage.{Crypto}
use intercom_swap.Swap.StateMachine.Trade.{Trade}
use intercom_swap.Swap.StateMachine.Agreement.{apply_terms, apply_accept}
use intercom_swap.Swap.StateMachine.Settlement.{apply_ln_invoice, apply_escrow, apply_ln_paid}
use intercom_swap.Swap.StateMachine.Closing.{apply_claimed, apply_refunded, apply_cancel}
use intercom_swap.Swap.StateMachine.Steps.{
  TermsStep, AcceptStep, InvoiceStep, PaidStep, EscrowStep, ClaimedStep, RefundedStep, CancelStep,
}

module _ (next : Trade) (envelope : Value) (t : Trade) where
  pub apply_terms-TermsStep :
      (crypto : Crypto) → apply_terms crypto next envelope ≡ ok t → TermsStep next envelope t crypto
  unfolding apply_terms
  apply_terms-TermsStep crypto h = ground arith

  pub apply_accept-AcceptStep : apply_accept next envelope ≡ ok t → AcceptStep next envelope t
  unfolding apply_accept
  apply_accept-AcceptStep h = ground arith

  pub apply_ln_invoice-InvoiceStep :
      apply_ln_invoice next envelope ≡ ok t → InvoiceStep next envelope t
  unfolding apply_ln_invoice
  apply_ln_invoice-InvoiceStep h = ground arith

  pub apply_ln_paid-PaidStep : apply_ln_paid next envelope ≡ ok t → PaidStep next envelope t
  unfolding apply_ln_paid
  apply_ln_paid-PaidStep h = ground arith

  pub apply_escrow-EscrowStep :
      (b : Bool) → apply_escrow b next envelope ≡ ok t → EscrowStep next envelope t b
  unfolding apply_escrow
  apply_escrow-EscrowStep true h = ground arith
  apply_escrow-EscrowStep false h = ground arith

  pub apply_claimed-ClaimedStep :
      (b : Bool) → apply_claimed b next envelope ≡ ok t → ClaimedStep next envelope t b
  unfolding apply_claimed
  apply_claimed-ClaimedStep true h = ground arith
  apply_claimed-ClaimedStep false h = ground arith

  pub apply_refunded-RefundedStep :
      (b : Bool) → apply_refunded b next envelope ≡ ok t → RefundedStep next envelope t b
  unfolding apply_refunded
  apply_refunded-RefundedStep true h = ground arith
  apply_refunded-RefundedStep false h = ground arith

  pub apply_cancel-CancelStep : apply_cancel next envelope ≡ ok t → CancelStep next envelope t
  unfolding apply_cancel
  apply_cancel-CancelStep h = ground arith

  pub TermsStep-apply_terms :
      (crypto : Crypto) → TermsStep next envelope t crypto → apply_terms crypto next envelope ≡ ok t
  unfolding apply_terms
  TermsStep-apply_terms crypto h = ground arith

  pub AcceptStep-apply_accept : AcceptStep next envelope t → apply_accept next envelope ≡ ok t
  unfolding apply_accept
  AcceptStep-apply_accept h = ground arith

  pub InvoiceStep-apply_ln_invoice :
      InvoiceStep next envelope t → apply_ln_invoice next envelope ≡ ok t
  unfolding apply_ln_invoice
  InvoiceStep-apply_ln_invoice h = ground arith

  pub PaidStep-apply_ln_paid : PaidStep next envelope t → apply_ln_paid next envelope ≡ ok t
  unfolding apply_ln_paid
  PaidStep-apply_ln_paid h = ground arith

  pub EscrowStep-apply_escrow :
      (b : Bool) → EscrowStep next envelope t b → apply_escrow b next envelope ≡ ok t
  unfolding apply_escrow
  EscrowStep-apply_escrow true h = ground arith
  EscrowStep-apply_escrow false h = ground arith

  pub ClaimedStep-apply_claimed :
      (b : Bool) → ClaimedStep next envelope t b → apply_claimed b next envelope ≡ ok t
  unfolding apply_claimed
  ClaimedStep-apply_claimed true h = ground arith
  ClaimedStep-apply_claimed false h = ground arith

  pub RefundedStep-apply_refunded :
      (b : Bool) → RefundedStep next envelope t b → apply_refunded b next envelope ≡ ok t
  unfolding apply_refunded
  RefundedStep-apply_refunded true h = ground arith
  RefundedStep-apply_refunded false h = ground arith

  pub CancelStep-apply_cancel : CancelStep next envelope t → apply_cancel next envelope ≡ ok t
  unfolding apply_cancel
  CancelStep-apply_cancel h = ground arith
