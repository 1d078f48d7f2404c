-- ===== src/Swap/StateMachine/Authorship.antt =====
-- Who signs what (src/swap/stateMachine.js).
use intercom_swap.Prelude.{String, ◌≡◌, true, arith, eq_iff, Option, some, none}
use intercom_swap.Js.Value.{Value, ◌!◌, truthy, normalize_hex}
use intercom_swap.Js.Result.{ok}
use intercom_swap.Swap.Constants.{
  Kind, terms, accept, ln_invoice, sol_escrow_created, tao_htlc_locked, ln_paid, sol_claimed,
  tao_claimed, sol_refunded, tao_refunded,
}
use intercom_swap.Swap.Schema.Envelope.{kind_of}
use intercom_swap.Protocol.SignedMessage.{Crypto, verify_signed_envelope}
use intercom_swap.Swap.StateMachine.Trade.{Trade}
use intercom_swap.Swap.StateMachine.Apply.{apply_swap_envelope}
use intercom_swap.Swap.StateMachine.Spec.{StepOf, marked, apply-Accepted}

-- The field of the terms that names the peer who has to sign an envelope of this kind.
abbrev pub author_field : Kind → Option String
author_field accept = some "ln_payer_peer"
author_field ln_paid = some "ln_payer_peer"
author_field sol_claimed = some "ln_payer_peer"
author_field tao_claimed = some "ln_payer_peer"
author_field terms = some "ln_receiver_peer"
author_field ln_invoice = some "ln_receiver_peer"
author_field sol_escrow_created = some "ln_receiver_peer"
author_field tao_htlc_locked = some "ln_receiver_peer"
author_field sol_refunded = some "ln_receiver_peer"
author_field tao_refunded = some "ln_receiver_peer"
author_field _ = none

-- The peer that the terms name in this field, where there is one, is the envelope's signer.
abbrev pub SignedBy : Value → Value → Option String → Type 0
SignedBy agreed envelope none = Unit
SignedBy agreed envelope (some field) =
    normalize_hex (envelope ! "signer") ≡ normalize_hex (agreed ! field)

StepOf-SignedBy :
    (crypto : Crypto) (k : Kind) (t : Trade) (envelope : Value) (u : Trade)
    → truthy t.terms ≡ true
    → StepOf crypto k (marked t envelope) envelope u
    → SignedBy t.terms envelope (author_field k)
StepOf-SignedBy crypto terms t e u agreed h =
    ground
      (arith, eq_iff (normalize_hex (e ! "signer")) (normalize_hex (t.terms ! "ln_receiver_peer")))
StepOf-SignedBy crypto accept t e u agreed h =
    ground
      (arith, eq_iff (normalize_hex (e ! "signer")) (normalize_hex (t.terms ! "ln_payer_peer")))
StepOf-SignedBy crypto ln_paid t e u agreed h =
    ground
      (arith, eq_iff (normalize_hex (e ! "signer")) (normalize_hex (t.terms ! "ln_payer_peer")))
StepOf-SignedBy crypto sol_claimed t e u agreed h =
    ground
      (arith, eq_iff (normalize_hex (e ! "signer")) (normalize_hex (t.terms ! "ln_payer_peer")))
StepOf-SignedBy crypto tao_claimed t e u agreed h =
    ground
      (arith, eq_iff (normalize_hex (e ! "signer")) (normalize_hex (t.terms ! "ln_payer_peer")))
StepOf-SignedBy crypto ln_invoice t e u agreed h =
    ground
      (arith, eq_iff (normalize_hex (e ! "signer")) (normalize_hex (t.terms ! "ln_receiver_peer")))
StepOf-SignedBy crypto sol_escrow_created t e u agreed h =
    ground
      (arith, eq_iff (normalize_hex (e ! "signer")) (normalize_hex (t.terms ! "ln_receiver_peer")))
StepOf-SignedBy crypto tao_htlc_locked t e u agreed h =
    ground
      (arith, eq_iff (normalize_hex (e ! "signer")) (normalize_hex (t.terms ! "ln_receiver_peer")))
StepOf-SignedBy crypto sol_refunded t e u agreed h =
    ground
      (arith, eq_iff (normalize_hex (e ! "signer")) (normalize_hex (t.terms ! "ln_receiver_peer")))
StepOf-SignedBy crypto tao_refunded t e u agreed h =
    ground
      (arith, eq_iff (normalize_hex (e ! "signer")) (normalize_hex (t.terms ! "ln_receiver_peer")))
StepOf-SignedBy crypto _ t e u agreed h = tt

-- Every envelope that a trade with terms takes carries a valid signature, and where its kind has an
-- author, the signer is the peer that the terms of the trade before it name: the payer for ACCEPT,
-- LN_PAID and the claims, the receiver for TERMS, LN_INVOICE, the locks and the refunds.
pub apply-SignedBy :
    (crypto : Crypto) (t : Trade) (envelope : Value) (u : Trade)
    → truthy t.terms ≡ true
    → apply_swap_envelope crypto t envelope ≡ ok u
    → (verify_signed_envelope crypto envelope ≡ ok tt)
      × (k : Kind) × (kind_of (envelope ! "kind") ≡ some k)
      × SignedBy t.terms envelope (author_field k)
apply-SignedBy crypto t envelope u agreed h =
    let a = apply-Accepted crypto t envelope u h in
    (a.signed, a.kind, a.of_kind, StepOf-SignedBy crypto a.kind t envelope u agreed a.step)
