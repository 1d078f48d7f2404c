-- ===== src/Swap/StateMachine/Deadlines.antt =====
-- The times that applySwapEnvelope (src/swap/stateMachine.js) enforces; `ts` is in milliseconds
-- and the deadlines are in seconds.
use intercom_swap.Prelude.{ℕ, ◌*◌, ◌≤◌, String, ◌≡◌, true, arith, some, inl, inr}
use intercom_swap.Js.Number.{nat, less, times, truncate}
use intercom_swap.Js.Value.{Value, num, ◌!◌, is_present}
use intercom_swap.Js.Integers.{to_number-nat}
use intercom_swap.Js.Result.{ok}
use intercom_swap.Swap.Constants.{Kind, State, accept, ln_paid, sol_refunded, tao_refunded}
use intercom_swap.Swap.Schema.Envelope.{kind_of}
use intercom_swap.Protocol.SignedMessage.{Crypto}
use intercom_swap.Swap.StateMachine.Trade.{Trade, unix_sec_to_ms, not_after, not_before}
use intercom_swap.Swap.StateMachine.Apply.{apply_swap_envelope}
use intercom_swap.Swap.StateMachine.Graph.{refunds}
use intercom_swap.Swap.StateMachine.Spec.{StepOf, marked}
use intercom_swap.Swap.StateMachine.Replay.{StepOf-kind}

unix_sec_to_ms-nat : (s : ℕ) → unix_sec_to_ms (num (nat s)) ≡ nat (s * 1000)
unfolding unix_sec_to_ms times truncate
unix_sec_to_ms-nat s = rw (to_number-nat s)

not_after-le :
    (envelope limit : Value) (invalid late : String) (ms s : ℕ)
    → not_after envelope limit invalid late ≡ ok tt
    → envelope ! "ts" ≡ num (nat ms)
    → limit ≡ num (nat s)
    → ms ≤ s * 1000
unfolding not_after is_present less
not_after-le envelope limit invalid late ms s h e l =
    ground (arith, unix_sec_to_ms-nat s, to_number-nat ms)

not_before-le :
    (envelope limit : Value) (invalid early : String) (ms s : ℕ)
    → not_before envelope limit invalid early ≡ ok tt
    → envelope ! "ts" ≡ num (nat ms)
    → limit ≡ num (nat s)
    → s * 1000 ≤ ms
unfolding not_before is_present less
not_before-le envelope limit invalid early ms s h e l =
    ground (arith, unix_sec_to_ms-nat s, to_number-nat ms)

-- An ACCEPT that a trade takes in the state `terms` has a `ts` that is not after the expiry of the
-- terms, where both are whole numbers.
pub accept_in_time :
    (crypto : Crypto) (t : Trade) (envelope : Value) (u : Trade) (ms s : ℕ)
    → t.state ≡ State.terms
    → apply_swap_envelope crypto t envelope ≡ ok u
    → kind_of (envelope ! "kind") ≡ some accept
    → envelope ! "ts" ≡ num (nat ms)
    → t.terms ! "terms_valid_until_unix" ≡ num (nat s)
    → ms ≤ s * 1000
accept_in_time crypto t envelope u ms s q h k e l =
    let step = (StepOf-kind crypto t envelope u accept h k).1 in
    elim step.outcome [
      | inl first ↦ not_after-le envelope (t.terms ! "terms_valid_until_unix") _ _ ms s first.1 e l
      | inr other ↦ ground arith
    ]

-- An LN_PAID that a trade takes has a `ts` that is not after the expiry of the invoice, where both
-- are whole numbers.
pub paid_in_time :
    (crypto : Crypto) (t : Trade) (envelope : Value) (u : Trade) (ms s : ℕ)
    → apply_swap_envelope crypto t envelope ≡ ok u
    → kind_of (envelope ! "kind") ≡ some ln_paid
    → envelope ! "ts" ≡ num (nat ms)
    → t.invoice ! "expires_at_unix" ≡ num (nat s)
    → ms ≤ s * 1000
paid_in_time crypto t envelope u ms s h k e l =
    not_after-le envelope (t.invoice ! "expires_at_unix") _ _ ms s
      (StepOf-kind crypto t envelope u ln_paid h k).1.in_time e l

refund_due :
    (crypto : Crypto) (k : Kind) (t : Trade) (envelope : Value) (u : Trade) (ms s : ℕ)
    → refunds k ≡ true
    → StepOf crypto k (marked t envelope) envelope u
    → envelope ! "ts" ≡ num (nat ms)
    → t.escrow ! "refund_after_unix" ≡ num (nat s)
    → s * 1000 ≤ ms
refund_due crypto sol_refunded t envelope u ms s r step e l =
    not_before-le envelope (t.escrow ! "refund_after_unix") _ _ ms s step.due e l
refund_due crypto tao_refunded t envelope u ms s r step e l =
    not_before-le envelope (t.escrow ! "refund_after_unix") _ _ ms s step.due e l
refund_due crypto _ t envelope u ms s r step e l = cc

-- A refund that a trade takes, of either kind, has a `ts` that is not before the escrow's refund
-- time, where both are whole numbers.
pub refund_in_time :
    (crypto : Crypto) (t : Trade) (envelope : Value) (u : Trade) (k : Kind) (ms s : ℕ)
    → apply_swap_envelope crypto t envelope ≡ ok u
    → kind_of (envelope ! "kind") ≡ some k
    → refunds k ≡ true
    → envelope ! "ts" ≡ num (nat ms)
    → t.escrow ! "refund_after_unix" ≡ num (nat s)
    → s * 1000 ≤ ms
refund_in_time crypto t envelope u k ms s h q r e l =
    refund_due crypto k t envelope u ms s r (StepOf-kind crypto t envelope u k h q).1 e l
