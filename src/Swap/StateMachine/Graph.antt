-- ===== src/Swap/StateMachine/Graph.antt =====
-- The transition diagram of src/swap/stateMachine.js, without the evidence.
use intercom_swap.Prelude.{◌≡◌, Bool, true, false, arith, some}
use intercom_swap.Js.Value.{Value, ◌!◌}
use intercom_swap.Swap.Schema.Envelope.{kind_of}
use intercom_swap.Js.Result.{ok}
use intercom_swap.Swap.Constants.{
  Kind, sol_escrow_created, tao_htlc_locked, sol_claimed, tao_claimed, sol_refunded, tao_refunded,
  State,
}
use intercom_swap.Protocol.SignedMessage.{Crypto}
use intercom_swap.Swap.StateMachine.Trade.{Trade}
use intercom_swap.Swap.StateMachine.Agreement.{before_accept, is_terms, is_canceled}
use intercom_swap.Swap.StateMachine.Apply.{apply_swap_envelope}
use intercom_swap.Swap.StateMachine.Spec.{StepOf, marked, apply-Accepted}

-- The kinds that report a lock, a claim and a refund.
abbrev pub locks : Kind → Bool
locks sol_escrow_created = true
locks tao_htlc_locked = true
locks _ = false

abbrev pub claims : Kind → Bool
claims sol_claimed = true
claims tao_claimed = true
claims _ = false

abbrev pub refunds : Kind → Bool
refunds sol_refunded = true
refunds tao_refunded = true
refunds _ = false

-- The edges of the diagram.
pub data Moves : Kind → State → State → Type 0 where
  propose : Moves Kind.terms State.init State.terms
  propose_again : Moves Kind.terms State.terms State.terms
  repeat_terms : {s : State} → before_accept s ≡ false → Moves Kind.terms s s
  agree : Moves Kind.accept State.terms State.accepted
  repeat_accept : {s : State} → is_terms s ≡ false → is_canceled s ≡ false → Moves Kind.accept s s
  invoice : Moves Kind.ln_invoice State.accepted State.invoice
  invoice_again : Moves Kind.ln_invoice State.invoice State.invoice
  invoice_late : Moves Kind.ln_invoice State.escrow State.escrow
  lock : {k : Kind} → locks k ≡ true → Moves k State.invoice State.escrow
  lock_again : {k : Kind} → locks k ≡ true → Moves k State.escrow State.escrow
  pay : Moves Kind.ln_paid State.escrow State.ln_paid
  pay_again : Moves Kind.ln_paid State.ln_paid State.ln_paid
  claim_early : {k : Kind} → claims k ≡ true → Moves k State.escrow State.claimed
  claim : {k : Kind} → claims k ≡ true → Moves k State.ln_paid State.claimed
  claim_again : {k : Kind} → claims k ≡ true → Moves k State.claimed State.claimed
  refund : {k : Kind} → refunds k ≡ true → Moves k State.escrow State.refunded
  refund_again : {k : Kind} → refunds k ≡ true → Moves k State.refunded State.refunded
  cancel_init : Moves Kind.cancel State.init State.canceled
  cancel_terms : Moves Kind.cancel State.terms State.canceled
  cancel_accepted : Moves Kind.cancel State.accepted State.canceled
  cancel_invoice : Moves Kind.cancel State.invoice State.canceled
  cancel_again : Moves Kind.cancel State.canceled State.canceled
  inform : {s : State} → Moves Kind.status s s

ruleset edges = (
  propose, propose_again, repeat_terms, agree, repeat_accept, invoice, invoice_again, invoice_late,
  lock, lock_again, pay, pay_again, claim_early, claim, claim_again, refund, refund_again,
  cancel_init, cancel_terms, cancel_accepted, cancel_invoice, cancel_again, inform,
)

StepOf-Moves :
    (crypto : Crypto) (k : Kind) (next : Trade) (envelope : Value) (t : Trade)
    → StepOf crypto k next envelope t
    → Moves k next.state t.state
StepOf-Moves crypto Kind.terms next e t h = grind (arith, edges)
StepOf-Moves crypto _ next e t h = grind (arith, edges)

-- An envelope that a trade takes moves it along an edge of the diagram, under its own kind.
pub apply-Moves :
    (crypto : Crypto) (trade : Trade) (envelope : Value) (t : Trade)
    → apply_swap_envelope crypto trade envelope ≡ ok t
    → (k : Kind) × (kind_of (envelope ! "kind") ≡ some k) × Moves k trade.state t.state
apply-Moves crypto trade envelope t h =
    let a = apply-Accepted crypto trade envelope t h in
    (a.kind, a.of_kind, StepOf-Moves crypto a.kind (marked trade envelope) envelope t a.step)
