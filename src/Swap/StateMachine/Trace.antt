-- ===== src/Swap/StateMachine/Trace.antt =====
-- The trades that envelopes lead to (src/swap/stateMachine.js), one after another, as
-- scripts/rfq-maker.mjs and scripts/rfq-taker.mjs keep them: a refused envelope changes nothing.
use intercom_swap.Prelude.{String, ◌≡◌, refl, ◌∙◌, ◌≢◌, Bool, true, false, ◌||◌, arith}
use intercom_swap.Js.Value.{Value, ◌!◌, is_object, truthy}
use intercom_swap.Js.Result.{ok}
use intercom_swap.Swap.Constants.{Kind, State, canceled}
use intercom_swap.Swap.Schema.Envelope.{validate_swap_envelope, validate_swap_body, default_opts}
use intercom_swap.Protocol.SignedMessage.{Crypto}
use intercom_swap.Swap.StateMachine.Trade.{Trade, create_initial_trade}
use intercom_swap.Swap.StateMachine.Agreement.{before_accept, is_canceled}
use intercom_swap.Swap.StateMachine.Closing.{is_closed}
use intercom_swap.Swap.StateMachine.Apply.{apply_swap_envelope}
use intercom_swap.Swap.StateMachine.Spec.{StepOf, marked, apply-Accepted}
use intercom_swap.Swap.StateMachine.Evidence.{
  HasEvidence, StepOf-HasEvidence, locked_states, truthy_of_is_object,
}

module _ (crypto : Crypto) where
  -- From one trade to another by envelopes that are taken.
  pub data Follows (s : Trade) : Trade → Type 0 where
    here : Follows s s
    take :
        {t u : Trade} (envelope : Value)
        → Follows s t
        → apply_swap_envelope crypto t envelope ≡ ok u
        → Follows s u

-- The trade that `createInitialTrade` makes.
pub data Initial : Trade → Type 0 where
  created : (trade_id : String) {t : Trade} → create_initial_trade trade_id ≡ ok t → Initial t

pub valid-body :
    (envelope : Value)
    → validate_swap_envelope envelope default_opts ≡ ok tt
    → is_object (envelope ! "body") ≡ true
unfolding validate_swap_envelope validate_swap_body
valid-body envelope h = ground arith

Initial-HasEvidence : {t : Trade} → Initial t → HasEvidence t
unfolding create_initial_trade truthy
Initial-HasEvidence (created trade_id h) = ground arith

marked-HasEvidence :
    (t : Trade) (envelope : Value) → HasEvidence t → HasEvidence (marked t envelope)
marked-HasEvidence t envelope i = record {
  agreed = i.agreed;
  invoiced = i.invoiced;
  locked = i.locked;
  paid = i.paid;
  was_paid = i.was_paid;
  was_claimed = i.was_claimed;
  was_refunded = i.was_refunded;
  hash_locked = i.hash_locked;
  hash_paid = i.hash_paid;
  hash_claimed = i.hash_claimed;
  hash_refunded = i.hash_refunded;
}

pub apply-HasEvidence :
    (crypto : Crypto) (t : Trade) (envelope : Value) (u : Trade)
    → HasEvidence t
    → apply_swap_envelope crypto t envelope ≡ ok u
    → HasEvidence u
apply-HasEvidence crypto t envelope u i h =
    let a = apply-Accepted crypto t envelope u h in
    StepOf-HasEvidence crypto a.kind (marked t envelope) envelope u
      (truthy_of_is_object _ (valid-body envelope a.valid)) (marked-HasEvidence t envelope i) a.step

Follows-HasEvidence :
    (crypto : Crypto) {s t : Trade} → HasEvidence s → Follows crypto s t → HasEvidence t
Follows-HasEvidence crypto i here = i
Follows-HasEvidence crypto i (take {t} {u} e f h) =
    apply-HasEvidence crypto t e u (Follows-HasEvidence crypto i f) h

-- In every trade that envelopes lead to from createInitialTrade, the evidence is there as its
-- state asks: terms from `terms` on, an invoice from `invoice` on, an escrow exactly from `escrow`
-- on, a payment in `ln_paid` and only there or after a claim, a claim exactly in `claimed` and a
-- refund exactly in `refunded`; and the payment hashes of the escrow, the payment, the claim and
-- the refund are the invoice's.
pub reachable-HasEvidence :
    (crypto : Crypto) (s t : Trade) → Initial s → Follows crypto s t → HasEvidence t
reachable-HasEvidence crypto s t i f = Follows-HasEvidence crypto (Initial-HasEvidence i) f

-- What of a trade never changes once the terms are accepted: the terms, and any evidence that has
-- been recorded.
pub record Keeps (t u : Trade) : Type 0 where
  pub past_terms : before_accept u.state ≡ false
  pub trade_id : u.trade_id ≡ t.trade_id
  pub terms : u.terms ≡ t.terms
  pub terms_hash : u.terms_hash ≡ t.terms_hash
  pub accepted_at : u.accepted_at ≡ t.accepted_at
  pub invoice : truthy t.invoice ≡ true → u.invoice ≡ t.invoice
  pub escrow : truthy t.escrow ≡ true → u.escrow ≡ t.escrow
  pub ln_paid : truthy t.ln_paid ≡ true → u.ln_paid ≡ t.ln_paid
  pub claimed : truthy t.claimed ≡ true → u.claimed ≡ t.claimed
  pub refunded : truthy t.refunded ≡ true → u.refunded ≡ t.refunded

StepOf-Keeps :
    (crypto : Crypto) (k : Kind) (t : Trade) (envelope : Value) (u : Trade)
    → before_accept t.state ≡ false
    → StepOf crypto k (marked t envelope) envelope u
    → Keeps t u
StepOf-Keeps crypto Kind.terms t e u p h = ground arith
StepOf-Keeps crypto Kind.svc_announce t e u p h = absurd h
StepOf-Keeps crypto Kind.rfq t e u p h = absurd h
StepOf-Keeps crypto Kind.quote t e u p h = absurd h
StepOf-Keeps crypto Kind.quote_accept t e u p h = absurd h
StepOf-Keeps crypto Kind.swap_invite t e u p h = absurd h
StepOf-Keeps crypto _ t e u p h = ground arith

Keeps-trans : {s t u : Trade} → Keeps s t → Keeps t u → Keeps s u
Keeps-trans a b = ground arith

-- Once its terms are accepted, a trade keeps them, their hash and the time of the acceptance
-- through whatever envelopes follow, and keeps every piece of evidence that it has recorded.
pub Follows-Keeps :
    (crypto : Crypto) (t u : Trade) → before_accept t.state ≡ false → Follows crypto t u → Keeps t u
Follows-Keeps crypto t _ p here = ground arith
Follows-Keeps crypto t _ p (take {t = v} {u} e f h) =
    let before = Follows-Keeps crypto t v p f in
    let a = apply-Accepted crypto v e u h in
    Keeps-trans before (StepOf-Keeps crypto a.kind v e u before.past_terms a.step)

abbrev pub is_terminal : State → Bool
is_terminal s = is_closed s || is_canceled s

StepOf-terminal :
    (crypto : Crypto) (k : Kind) (t : Trade) (envelope : Value) (u : Trade)
    → is_terminal t.state ≡ true
    → StepOf crypto k (marked t envelope) envelope u
    → u.state ≡ t.state
StepOf-terminal crypto Kind.terms t e u p h = ground arith
StepOf-terminal crypto _ t e u p h = ground arith

-- A trade that is claimed, refunded or canceled stays so, whatever envelopes follow.
pub Follows-terminal :
    (crypto : Crypto) (t u : Trade)
    → is_terminal t.state ≡ true
    → Follows crypto t u
    → u.state ≡ t.state
Follows-terminal crypto t _ p here = refl
Follows-terminal crypto t _ p (take {t = v} {u} e f h) =
    let same = Follows-terminal crypto t v p f in
    let a = apply-Accepted crypto v e u h in
    StepOf-terminal crypto a.kind v e u (rw same p) a.step ∙ same

StepOf-locked :
    (crypto : Crypto) (k : Kind) (t : Trade) (envelope : Value) (u : Trade)
    → locked_states t.state ≡ true
    → StepOf crypto k (marked t envelope) envelope u
    → locked_states u.state ≡ true
StepOf-locked crypto Kind.terms t e u p h = ground arith
StepOf-locked crypto _ t e u p h = ground arith

Follows-locked :
    (crypto : Crypto) (t u : Trade)
    → locked_states t.state ≡ true
    → Follows crypto t u
    → locked_states u.state ≡ true
Follows-locked crypto t _ p here = p
Follows-locked crypto t _ p (take {t = v} {u} e f h) =
    let a = apply-Accepted crypto v e u h in
    StepOf-locked crypto a.kind v e u (Follows-locked crypto t v p f) a.step

-- Once the settlement side is locked, no envelopes lead to a canceled trade.
pub Follows-ne-canceled :
    (crypto : Crypto) (t u : Trade)
    → locked_states t.state ≡ true
    → Follows crypto t u
    → u.state ≢ canceled
Follows-ne-canceled crypto t u p f q = let l = Follows-locked crypto t u p f in ground arith
