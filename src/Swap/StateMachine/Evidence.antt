-- ===== src/Swap/StateMachine/Evidence.antt =====
-- What a trade of src/swap/stateMachine.js holds in each state, and that every envelope keeps it.
use intercom_swap.Prelude.{String, ◌≡◌, refl, Bool, true, false, arith, eq_iff}
use intercom_swap.Js.Value.{Value, null, obj, ◌!◌, is_object, truthy, normalize_hex}
use intercom_swap.Swap.Constants.{
  Kind, State, init, invoice, escrow, ln_paid, claimed, refunded, canceled,
}
use intercom_swap.Protocol.SignedMessage.{Crypto}
use intercom_swap.Swap.StateMachine.Trade.{Trade}
use intercom_swap.Swap.StateMachine.Spec.{StepOf}

abbrev pub agreed_states : State → Bool
agreed_states init = false
agreed_states canceled = false
agreed_states _ = true

abbrev pub invoiced_states : State → Bool
invoiced_states invoice = true
invoiced_states escrow = true
invoiced_states ln_paid = true
invoiced_states claimed = true
invoiced_states refunded = true
invoiced_states _ = false

abbrev pub locked_states : State → Bool
locked_states escrow = true
locked_states ln_paid = true
locked_states claimed = true
locked_states refunded = true
locked_states _ = false

abbrev pub closed_by_claim : State → Bool
closed_by_claim claimed = true
closed_by_claim _ = false

abbrev pub closed_by_refund : State → Bool
closed_by_refund refunded = true
closed_by_refund _ = false

abbrev pub paid_states : State → Bool
paid_states ln_paid = true
paid_states claimed = true
paid_states _ = false

abbrev pub hash_of : Value → String
hash_of body = normalize_hex (body ! "payment_hash_hex")

-- Each piece of evidence is there in the states that need it, and not before; the payment hash of
-- the lock is the invoice's, and those of the payment, the claim and the refund are the lock's.
pub record HasEvidence (t : Trade) : Type 0 where
  pub agreed : agreed_states t.state ≡ true → truthy t.terms ≡ true
  pub invoiced : invoiced_states t.state ≡ true → truthy t.invoice ≡ true
  pub locked : truthy t.escrow ≡ locked_states t.state
  pub paid : truthy t.ln_paid ≡ true → paid_states t.state ≡ true
  pub was_paid : t.state ≡ ln_paid → truthy t.ln_paid ≡ true
  pub was_claimed : truthy t.claimed ≡ closed_by_claim t.state
  pub was_refunded : truthy t.refunded ≡ closed_by_refund t.state
  pub hash_locked : truthy t.escrow ≡ true → hash_of t.escrow ≡ hash_of t.invoice
  pub hash_paid : truthy t.ln_paid ≡ true → hash_of t.ln_paid ≡ hash_of t.invoice
  pub hash_claimed : truthy t.claimed ≡ true → hash_of t.claimed ≡ hash_of t.invoice
  pub hash_refunded : truthy t.refunded ≡ true → hash_of t.refunded ≡ hash_of t.invoice

pub truthy_of_is_object : (v : Value) → is_object v ≡ true → truthy v ≡ true
unfolding is_object truthy
truthy_of_is_object (obj fs) h = refl
truthy_of_is_object v h = cc

truthy_null : truthy null ≡ false
unfolding truthy
truthy_null = refl

pub StepOf-HasEvidence :
    (crypto : Crypto) (k : Kind) (next : Trade) (envelope : Value) (t : Trade)
    → truthy (envelope ! "body") ≡ true
    → HasEvidence next
    → StepOf crypto k next envelope t
    → HasEvidence t
StepOf-HasEvidence crypto Kind.terms next e t b i h = ground (arith, truthy_null)
StepOf-HasEvidence crypto Kind.accept next e t b i h = ground arith
StepOf-HasEvidence crypto Kind.ln_invoice next e t b i h = ground arith
StepOf-HasEvidence crypto Kind.sol_escrow_created next e t b i h =
    ground (arith, eq_iff (hash_of (e ! "body")) (hash_of next.invoice))
StepOf-HasEvidence crypto Kind.tao_htlc_locked next e t b i h =
    ground (arith, eq_iff (hash_of (e ! "body")) (hash_of next.invoice))
StepOf-HasEvidence crypto Kind.ln_paid next e t b i h =
    ground (arith, eq_iff (hash_of (e ! "body")) (hash_of next.invoice))
StepOf-HasEvidence crypto Kind.sol_claimed next e t b i h =
    ground (arith, eq_iff (hash_of (e ! "body")) (hash_of next.escrow))
StepOf-HasEvidence crypto Kind.tao_claimed next e t b i h =
    ground (arith, eq_iff (hash_of (e ! "body")) (hash_of next.escrow))
StepOf-HasEvidence crypto Kind.sol_refunded next e t b i h =
    ground (arith, eq_iff (hash_of (e ! "body")) (hash_of next.escrow))
StepOf-HasEvidence crypto Kind.tao_refunded next e t b i h =
    ground (arith, eq_iff (hash_of (e ! "body")) (hash_of next.escrow))
StepOf-HasEvidence crypto Kind.cancel next e t b i h = ground arith
StepOf-HasEvidence crypto Kind.status next e t b i h = ground arith
StepOf-HasEvidence crypto _ next e t b i h = absurd h
