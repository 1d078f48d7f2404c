-- ===== src/Swap/StateMachine/Replay.antt =====
-- An envelope that arrives twice (src/swap/stateMachine.js).
use mathlib.Core.Path.{subst}
use text.Mathlib.TextPositions.{eq_refl}
use intercom_swap.Prelude.{◌≡◌, refl, sym, true, arith, some}
use intercom_swap.Js.Number.{Num, nat, num_eq}
use intercom_swap.Js.Value.{Value, num, ◌!◌, is_pos_int, truthy, normalize_hex, to_text, to_number}
use intercom_swap.Js.Result.{ok}
use intercom_swap.Swap.Constants.{Kind}
use intercom_swap.Swap.Schema.Trading.{validate_ln_invoice}
use intercom_swap.Swap.Schema.Envelope.{
  kind_of, validate_swap_envelope, validate_swap_body, validate_body_of_kind, default_opts,
}
use intercom_swap.Protocol.SignedMessage.{Crypto}
use intercom_swap.Swap.StateMachine.Trade.{Trade, last_of, hex_eq, text_eq}
use intercom_swap.Swap.StateMachine.Settlement.{
  check_same_invoice, check_tao_lock, check_sol_escrow,
}
use intercom_swap.Swap.StateMachine.Closing.{same_tx}
use intercom_swap.Swap.StateMachine.Apply.{apply_swap_envelope}
use intercom_swap.Swap.StateMachine.Spec.{StepOf, marked, apply-Accepted, apply_iff}
use intercom_swap.Swap.StateMachine.Evidence.{truthy_of_is_object}
use intercom_swap.Swap.StateMachine.Trace.{valid-body}

hex_eq_self : (v : Value) → hex_eq v v ≡ true
hex_eq_self v = eq_refl (normalize_hex v)

text_eq_self : (v : Value) → text_eq v v ≡ true
text_eq_self v = eq_refl (to_text v)

-- A positive integer is equal to itself, as NaN is not.
num_eq_self : (v : Value) → is_pos_int v ≡ true → num_eq (to_number v) (to_number v) ≡ true
unfolding is_pos_int num_eq to_number
num_eq_self (num (nat n)) h = ground arith
num_eq_self (num (Num.neg n)) h = ground arith
num_eq_self (num n) h = cc
num_eq_self v h = cc

-- An invoice that validation lets through agrees with itself.
same_invoice_self :
    (body : Value) → validate_ln_invoice body ≡ ok tt → check_same_invoice body body ≡ ok tt
unfolding validate_ln_invoice check_same_invoice
same_invoice_self body v = ground (
  arith,
  hex_eq_self (body ! "payment_hash_hex"),
  text_eq_self (body ! "bolt11"),
  text_eq_self (body ! "amount_msat"),
  num_eq_self (body ! "expires_at_unix"),
)

pub valid-of_kind :
    (envelope : Value) (k : Kind)
    → validate_swap_envelope envelope default_opts ≡ ok tt
    → kind_of (envelope ! "kind") ≡ some k
    → validate_body_of_kind k (envelope ! "body") default_opts ≡ ok tt
unfolding validate_swap_envelope validate_swap_body
valid-of_kind envelope k v q = ground arith

-- The step of an envelope whose kind is known, with the body that validation let through.
pub StepOf-kind :
    (crypto : Crypto) (t : Trade) (envelope : Value) (u : Trade) (k : Kind)
    → apply_swap_envelope crypto t envelope ≡ ok u
    → kind_of (envelope ! "kind") ≡ some k
    → (validate_body_of_kind k (envelope ! "body") default_opts ≡ ok tt)
      × StepOf crypto k (marked t envelope) envelope u
StepOf-kind crypto t envelope u k h q =
    let a = apply-Accepted crypto t envelope u h in
    let same : a.kind ≡ k = cc (a.of_kind, q) in
    (
      valid-of_kind envelope k a.valid q,
      subst (λ j. StepOf crypto j (marked t envelope) envelope u) same a.step,
    )

StepOf-last :
    (crypto : Crypto) (k : Kind) (t : Trade) (envelope : Value) (u : Trade)
    → StepOf crypto k (marked t envelope) envelope u
    → u.last ≡ last_of envelope
StepOf-last crypto Kind.terms t e u h = ground arith
StepOf-last crypto _ t e u h = ground arith

marked_self : (u : Trade) (envelope : Value) → u.last ≡ last_of envelope → marked u envelope ≡ u
marked_self u envelope h = λ i. record u { last = sym h i }

StepOf-again :
    (crypto : Crypto) (k : Kind) (t : Trade) (envelope : Value) (u : Trade)
    → truthy (envelope ! "body") ≡ true
    → validate_body_of_kind k (envelope ! "body") default_opts ≡ ok tt
    → StepOf crypto k t envelope u
    → StepOf crypto k u envelope u
unfolding validate_body_of_kind check_tao_lock check_sol_escrow same_tx
StepOf-again crypto Kind.terms t e u b v h = ground arith
StepOf-again crypto Kind.accept t e u b v h = ground arith
StepOf-again crypto Kind.ln_invoice t e u b v h = ground (arith, same_invoice_self (e ! "body") v)
StepOf-again crypto Kind.sol_escrow_created t e u b v h = ground (
  arith,
  text_eq_self (e ! "body" ! "escrow_pda"),
  text_eq_self (e ! "body" ! "vault_ata"),
  text_eq_self (e ! "body" ! "tx_sig"),
)
StepOf-again crypto Kind.tao_htlc_locked t e u b v h =
    ground (arith, text_eq_self (e ! "body" ! "settlement_id"), text_eq_self (e ! "body" ! "tx_id"))
StepOf-again crypto Kind.ln_paid t e u b v h =
    ground (arith, hex_eq_self (e ! "body" ! "payment_hash_hex"))
StepOf-again crypto Kind.sol_claimed t e u b v h =
    ground (arith, text_eq_self (e ! "body" ! "tx_sig"))
StepOf-again crypto Kind.tao_claimed t e u b v h =
    ground (arith, text_eq_self (e ! "body" ! "tx_id"))
StepOf-again crypto Kind.sol_refunded t e u b v h =
    ground (arith, text_eq_self (e ! "body" ! "tx_sig"))
StepOf-again crypto Kind.tao_refunded t e u b v h =
    ground (arith, text_eq_self (e ! "body" ! "tx_id"))
StepOf-again crypto Kind.cancel t e u b v h = ground arith
StepOf-again crypto Kind.status t e u b v h = refl
StepOf-again crypto _ t e u b v h = absurd h

StepOf-trade_id :
    (crypto : Crypto) (k : Kind) (t : Trade) (envelope : Value) (u : Trade)
    → StepOf crypto k (marked t envelope) envelope u
    → u.trade_id ≡ t.trade_id
StepOf-trade_id crypto Kind.terms t e u h = ground arith
StepOf-trade_id crypto _ t e u h = ground arith

-- An envelope that a trade has taken is taken again by the trade that it led to, and changes
-- nothing the second time.
pub apply_again :
    (crypto : Crypto) (t : Trade) (envelope : Value) (u : Trade)
    → apply_swap_envelope crypto t envelope ≡ ok u
    → apply_swap_envelope crypto u envelope ≡ ok u
apply_again crypto t envelope u h =
    let a = apply-Accepted crypto t envelope u h in
    (apply_iff crypto u envelope u).1 (record {
      kind = a.kind;
      valid = a.valid;
      same_trade = rw (StepOf-trade_id crypto a.kind t envelope u a.step) a.same_trade;
      signed = a.signed;
      of_kind = a.of_kind;
      step = rw (marked_self u envelope (StepOf-last crypto a.kind t envelope u a.step)) (
          StepOf-again crypto a.kind (marked t envelope) envelope u
            (truthy_of_is_object _ (valid-body envelope a.valid))
            (valid-of_kind envelope a.kind a.valid a.of_kind) a.step);
    })
