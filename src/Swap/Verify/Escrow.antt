-- ===== src/Swap/Verify/Escrow.antt =====
-- verifyEscrowAgainstTerms (src/swap/verify.js) accepts exactly the escrows that agree with the
-- terms, and so every lock that the state machine records for the pair of the trade.
use intercom_swap.Prelude.{◌≡◌, Bool, true, false, ◌↔◌, arith, eq_iff, some}
use intercom_swap.Js.Value.{Value, ◌!◌, is_reference, truthy, to_text}
use intercom_swap.Js.Result.{ok}
use intercom_swap.Swap.Pairs.{normalize_pair, is_tao_pair}
use intercom_swap.Protocol.SignedMessage.{Crypto}
use intercom_swap.Swap.Schema.Envelope.{kind_of}
use intercom_swap.Swap.StateMachine.Trade.{Trade}
use intercom_swap.Swap.StateMachine.Settlement.{terms_amount}
use intercom_swap.Swap.StateMachine.Apply.{apply_swap_envelope}
use intercom_swap.Swap.StateMachine.Agreed.{EscrowAgrees, lock_kind, lock-EscrowAgrees}
use intercom_swap.Swap.Verify.{verify_escrow_against_terms}

-- Whether the terms trade TAO.
abbrev pub tao_terms : Value → Bool
tao_terms terms = is_tao_pair (normalize_pair (terms ! "pair"))

module _ (terms escrow : Value) (r : is_reference terms ≡ true)
    (s : is_reference escrow ≡ true) where
  verified-EscrowAgrees :
      verify_escrow_against_terms terms escrow ≡ ok tt → EscrowAgrees (tao_terms terms) terms escrow
  unfolding verify_escrow_against_terms
  verified-EscrowAgrees h = ground (
    arith,
    eq_iff (to_text (escrow ! "recipient")) (to_text (terms ! "sol_recipient")),
    eq_iff (to_text (escrow ! "refund")) (to_text (terms ! "sol_refund")),
    eq_iff (to_text (escrow ! "mint")) (to_text (terms ! "sol_mint")),
    eq_iff (to_text (escrow ! "amount")) (terms_amount terms),
    eq_iff (to_text (escrow ! "amount_atomic")) (terms_amount terms),
  )

  EscrowAgrees-verified :
      EscrowAgrees (tao_terms terms) terms escrow → verify_escrow_against_terms terms escrow ≡ ok tt
  unfolding verify_escrow_against_terms
  EscrowAgrees-verified h = ground (
    arith,
    eq_iff (to_text (escrow ! "recipient")) (to_text (terms ! "sol_recipient")),
    eq_iff (to_text (escrow ! "refund")) (to_text (terms ! "sol_refund")),
    eq_iff (to_text (escrow ! "mint")) (to_text (terms ! "sol_mint")),
    eq_iff (to_text (escrow ! "amount")) (terms_amount terms),
    eq_iff (to_text (escrow ! "amount_atomic")) (terms_amount terms),
  )

  -- Of two objects, the payer's check accepts an escrow exactly when its recipient, its refund
  -- address and the amount of the pair are those of the terms, the mint too for the Solana pair,
  -- and its refund time is not before theirs.
  pub verify_escrow_iff :
      (verify_escrow_against_terms terms escrow ≡ ok tt)
      ↔ EscrowAgrees (tao_terms terms) terms escrow
  verify_escrow_iff = (verified-EscrowAgrees, EscrowAgrees-verified)

-- The first lock that a trade takes, of the kind of its pair, passes the payer's check of the
-- escrow against the terms, where both are objects.
pub lock_verified :
    (crypto : Crypto) (t : Trade) (envelope : Value) (u : Trade)
    → truthy t.escrow ≡ false
    → apply_swap_envelope crypto t envelope ≡ ok u
    → kind_of (envelope ! "kind") ≡ some (lock_kind (tao_terms u.terms))
    → (is_reference u.terms ≡ true) × (is_reference u.escrow ≡ true)
    → verify_escrow_against_terms u.terms u.escrow ≡ ok tt
lock_verified crypto t envelope u new h k (r, s) =
    EscrowAgrees-verified u.terms u.escrow r s
      (lock-EscrowAgrees crypto t envelope u (tao_terms u.terms) new h k)
