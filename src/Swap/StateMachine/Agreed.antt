-- ===== src/Swap/StateMachine/Agreed.antt =====
-- The escrow of a trade against its terms (src/swap/stateMachine.js, src/swap/verify.js).
use intercom_swap.Prelude.{
  String, ◌≡◌, refl, Bool, true, false, inl, inr, arith, eq_iff, Bool-cases, some,
}
use intercom_swap.Js.Text.{is_empty, trim, length, every, decimal-nonempty}
use intercom_swap.Js.Number.{less}
use intercom_swap.Js.Value.{
  strict_eq, Value, null, str, ◌!◌, truthy, to_text, to_number, is_pos_int,
}
use intercom_swap.Js.Integers.{is_pos_int-nat}
use intercom_swap.Js.Result.{ok}
use intercom_swap.Swap.Constants.{Kind, sol_escrow_created, tao_htlc_locked}
use intercom_swap.Swap.Schema.Fields.{is_amount_string, is_base58}
use intercom_swap.Swap.Schema.Trading.{
  validate_terms, validate_sol_escrow_created, validate_tao_htlc_locked,
}
use intercom_swap.Swap.Schema.Envelope.{kind_of, validate_body_of_kind, default_opts}
use intercom_swap.Protocol.SignedMessage.{Crypto}
use intercom_swap.Swap.StateMachine.Trade.{Trade, create_initial_trade}
use intercom_swap.Swap.StateMachine.Settlement.{
  terms_amount, check_escrow_terms, check_tao_lock, check_sol_escrow,
}
use intercom_swap.Swap.StateMachine.Steps.{EscrowStep, TermsStep}
use intercom_swap.Swap.StateMachine.Spec.{StepOf, marked, apply-Accepted}
use intercom_swap.Swap.StateMachine.Trace.{Follows, here, take, Initial, created}
use intercom_swap.Swap.StateMachine.Replay.{valid-of_kind, StepOf-kind}
use intercom_swap.Swap.StateMachine.Apply.{apply_swap_envelope}

-- String(refund_after_unix) of a valid lock is not empty.
refund_after-nonempty : (v : Value) → is_pos_int v ≡ true → is_empty (to_text v) ≡ false
unfolding to_text
refund_after-nonempty v h = let (n, e, _) = is_pos_int-nat v h in rw e (decimal-nonempty n)

amount-nonempty : (v : Value) → is_amount_string v ≡ true → is_empty (to_text v) ≡ false
unfolding is_amount_string to_text trim length every
amount-nonempty (str String.[]) h = cc
amount-nonempty (str (String.◌∷◌ c s)) h = refl
amount-nonempty _ h = cc

-- The settlement that is locked is the one of the terms; `amount` and `mint` are the fields of a
-- Solana escrow, `amount_atomic` that of a TAO lock.
pub record EscrowAgrees (is_tao : Bool) (terms escrow : Value) : Type 0 where
  pub recipient : to_text (escrow ! "recipient") ≡ to_text (terms ! "sol_recipient")
  pub refund : to_text (escrow ! "refund") ≡ to_text (terms ! "sol_refund")
  pub later :
      less (to_number (escrow ! "refund_after_unix")) (to_number (terms ! "sol_refund_after_unix"))
      ≡ false
  pub tao_amount : is_tao ≡ true → to_text (escrow ! "amount_atomic") ≡ terms_amount terms
  pub sol_amount : is_tao ≡ false → to_text (escrow ! "amount") ≡ terms_amount terms
  pub sol_mint : is_tao ≡ false → to_text (escrow ! "mint") ≡ to_text (terms ! "sol_mint")

-- `===` of a base58 text
mint_text : (a b : Value) → is_base58 a ≡ true → strict_eq a b ≡ true → to_text a ≡ to_text b
unfolding is_base58 strict_eq to_text
mint_text (str s) (str t) h e = (eq_iff s t).0 e
mint_text (str s) _ h e = cc
mint_text _ b h e = cc

-- What validation says of the body of a lock.
record IsLockBody (is_tao : Bool) (body : Value) : Type 0 where
  some_time : is_empty (to_text (body ! "refund_after_unix")) ≡ false
  mint : is_tao ≡ false → is_base58 (body ! "mint") ≡ true

sol-IsLockBody : (body : Value) → validate_sol_escrow_created body ≡ ok tt → IsLockBody false body
unfolding validate_sol_escrow_created
sol-IsLockBody body v = ground (arith, refund_after-nonempty (body ! "refund_after_unix"))

tao-IsLockBody : (body : Value) → validate_tao_htlc_locked body ≡ ok tt → IsLockBody true body
unfolding validate_tao_htlc_locked
tao-IsLockBody body v = ground (
  arith,
  refund_after-nonempty (body ! "refund_after_unix"),
  amount-nonempty (body ! "refund_after_unix"),
)

EscrowStep-EscrowAgrees :
    (is_tao : Bool) (next : Trade) (envelope : Value) (t : Trade)
    → truthy next.escrow ≡ false
    → IsLockBody is_tao (envelope ! "body")
    → EscrowStep next envelope t is_tao
    → EscrowAgrees is_tao t.terms t.escrow
unfolding check_escrow_terms check_tao_lock check_sol_escrow
EscrowStep-EscrowAgrees true next e t f n h = ground (
  arith,
  eq_iff (to_text (e ! "body" ! "recipient")) (to_text (next.terms ! "sol_recipient")),
  eq_iff (to_text (e ! "body" ! "refund")) (to_text (next.terms ! "sol_refund")),
  eq_iff (to_text (e ! "body" ! "amount_atomic")) (terms_amount next.terms),
)
EscrowStep-EscrowAgrees false next e t f n h = ground (
  arith,
  eq_iff (to_text (e ! "body" ! "recipient")) (to_text (next.terms ! "sol_recipient")),
  eq_iff (to_text (e ! "body" ! "refund")) (to_text (next.terms ! "sol_refund")),
  eq_iff (to_text (e ! "body" ! "amount")) (terms_amount next.terms),
  mint_text (e ! "body" ! "mint") (next.terms ! "sol_mint"),
)

-- The kind that announces a lock.
abbrev pub lock_kind : Bool → Kind
lock_kind true = tao_htlc_locked
lock_kind false = sol_escrow_created

module _ (crypto : Crypto) (t : Trade) (envelope : Value) (u : Trade) where
  sol_lock-EscrowAgrees :
      truthy t.escrow ≡ false
      → apply_swap_envelope crypto t envelope ≡ ok u
      → kind_of (envelope ! "kind") ≡ some sol_escrow_created
      → EscrowAgrees false u.terms u.escrow
  unfolding validate_body_of_kind
  sol_lock-EscrowAgrees new h q =
      let (v, step) = StepOf-kind crypto t envelope u sol_escrow_created h q in
      EscrowStep-EscrowAgrees false (marked t envelope) envelope u new (sol-IsLockBody _ v) step

  tao_lock-EscrowAgrees :
      truthy t.escrow ≡ false
      → apply_swap_envelope crypto t envelope ≡ ok u
      → kind_of (envelope ! "kind") ≡ some tao_htlc_locked
      → EscrowAgrees true u.terms u.escrow
  unfolding validate_body_of_kind
  tao_lock-EscrowAgrees new h q =
      let (v, step) = StepOf-kind crypto t envelope u tao_htlc_locked h q in
      EscrowStep-EscrowAgrees true (marked t envelope) envelope u new (tao-IsLockBody _ v) step

-- The first lock that a trade takes is one of its terms: the recipient, the refund address and the
-- amount are those of the terms, the mint too on Solana, and the refund time is not before theirs.
pub lock-EscrowAgrees :
    (crypto : Crypto) (t : Trade) (envelope : Value) (u : Trade) (is_tao : Bool)
    → truthy t.escrow ≡ false
    → apply_swap_envelope crypto t envelope ≡ ok u
    → kind_of (envelope ! "kind") ≡ some (lock_kind is_tao)
    → EscrowAgrees is_tao u.terms u.escrow
lock-EscrowAgrees crypto t envelope u true = tao_lock-EscrowAgrees crypto t envelope u
lock-EscrowAgrees crypto t envelope u false = sol_lock-EscrowAgrees crypto t envelope u

-- The terms of a trade passed validation, and its escrow, once there, agrees with them.
pub record IsAgreed (t : Trade) : Type 0 where
  pub valid_terms : truthy t.terms ≡ true → validate_terms t.terms ≡ ok tt
  pub settled : truthy t.escrow ≡ true → (b : Bool) × EscrowAgrees b t.terms t.escrow

EscrowStep-IsAgreed :
    (b : Bool) (next : Trade) (envelope : Value) (t : Trade)
    → IsLockBody b (envelope ! "body")
    → IsAgreed next
    → EscrowStep next envelope t b
    → IsAgreed t
EscrowStep-IsAgreed b next e t n i h = elim (Bool-cases (truthy next.escrow)) [
  | inl old ↦
      let (c, agrees) = i.settled old in
      rw h.outcome (rw old (record { valid_terms = i.valid_terms; settled = λ _. (c, agrees) }))
  | inr new ↦ record {
    valid_terms = rw h.outcome i.valid_terms;
    settled = λ _. (b, EscrowStep-EscrowAgrees b next e t new n h);
  }
]

-- The other steps leave the escrow and the terms alone, or start both anew.
pub record LeavesEscrow (next t : Trade) : Type 0 where
  pub terms : t.terms ≡ next.terms
  pub escrow : t.escrow ≡ next.escrow

LeavesEscrow-IsAgreed : (next t : Trade) → LeavesEscrow next t → IsAgreed next → IsAgreed t
LeavesEscrow-IsAgreed next t h i = record {
  valid_terms = rw h.terms i.valid_terms;
  settled = rw (h.terms, h.escrow) i.settled;
}

truthy_null : truthy null ≡ false
unfolding truthy
truthy_null = refl

TermsStep-IsAgreed :
    (crypto : Crypto) (next : Trade) (envelope : Value) (t : Trade)
    → validate_terms (envelope ! "body") ≡ ok tt
    → IsAgreed next
    → TermsStep next envelope t crypto
    → IsAgreed t
TermsStep-IsAgreed crypto next e t v i h = elim h.outcome [
  | inl fresh ↦
      rw fresh.1
        (record { valid_terms = λ _. v; settled = λ some_escrow. cc (truthy_null, some_escrow) })
  | inr again ↦ rw again.2 i
]

StepOf-IsAgreed :
    (crypto : Crypto) (k : Kind) (t : Trade) (envelope : Value) (u : Trade)
    → validate_body_of_kind k (envelope ! "body") default_opts ≡ ok tt
    → IsAgreed t
    → StepOf crypto k t envelope u
    → IsAgreed u
unfolding validate_body_of_kind
StepOf-IsAgreed crypto Kind.terms t e u v i h = TermsStep-IsAgreed crypto t e u v i h
StepOf-IsAgreed crypto sol_escrow_created t e u v i h =
    EscrowStep-IsAgreed false t e u (sol-IsLockBody (e ! "body") v) i h
StepOf-IsAgreed crypto tao_htlc_locked t e u v i h =
    EscrowStep-IsAgreed true t e u (tao-IsLockBody (e ! "body") v) i h
StepOf-IsAgreed crypto Kind.svc_announce t e u v i h = absurd h
StepOf-IsAgreed crypto Kind.rfq t e u v i h = absurd h
StepOf-IsAgreed crypto Kind.quote t e u v i h = absurd h
StepOf-IsAgreed crypto Kind.quote_accept t e u v i h = absurd h
StepOf-IsAgreed crypto Kind.swap_invite t e u v i h = absurd h
StepOf-IsAgreed crypto _ t e u v i h = LeavesEscrow-IsAgreed t u (ground arith) i

Initial-IsAgreed : {t : Trade} → Initial t → IsAgreed t
unfolding create_initial_trade truthy
Initial-IsAgreed (created trade_id h) = ground arith

Follows-IsAgreed : (crypto : Crypto) {s t : Trade} → IsAgreed s → Follows crypto s t → IsAgreed t
Follows-IsAgreed crypto i here = i
Follows-IsAgreed crypto i (take {t} {u} e f h) =
    let a = apply-Accepted crypto t e u h in
    let before = Follows-IsAgreed crypto i f in
    StepOf-IsAgreed crypto a.kind (marked t e) e u (valid-of_kind e a.kind a.valid a.of_kind)
      (record { valid_terms = before.valid_terms; settled = before.settled }) a.step

-- In every trade that envelopes lead to from createInitialTrade, terms that are there passed
-- validation, and an escrow that is there agrees with them as a lock of one of the two kinds: in
-- the recipient, the refund address and the amount, in the mint on Solana, and with a refund time
-- that is not before theirs.
pub reachable-IsAgreed :
    (crypto : Crypto) (s t : Trade) → Initial s → Follows crypto s t → IsAgreed t
reachable-IsAgreed crypto s t i f = Follows-IsAgreed crypto (Initial-IsAgreed i) f
