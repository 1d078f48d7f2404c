-- ===== src/Swap/StateMachine/Agreement.antt =====
-- src/swap/stateMachine.js, applySwapEnvelope: the cases TERMS and ACCEPT.
use intercom_swap.Prelude.{Bool, true, false, ◌&&◌, if◌then◌else◌}
use intercom_swap.Js.Text.{concat}
use intercom_swap.Js.Value.{Value, null, str, ◌!◌, truthy}
use intercom_swap.Js.Result.{Result, ok, require, refuse, when, ◌>>◌}
use intercom_swap.Swap.Constants.{State, init, terms, accepted, canceled, state_text}
use intercom_swap.Swap.StateMachine.Trade.{Trade, require_signer, hex_eq, not_after}
use intercom_swap.Protocol.SignedMessage.{Crypto, strip_signature, hash_unsigned_envelope}

-- [STATE.INIT, STATE.TERMS].includes(state)
abbrev pub before_accept : State → Bool
before_accept init = true
before_accept terms = true
before_accept _ = false

-- New terms reset the evidence of a trade.
abbrev pub set_terms : Trade → Value → Value → Trade
set_terms next body hash = record next {
  terms = body;
  terms_hash = hash;
  state = terms;
  accepted_at = null;
  invoice = null;
  escrow = null;
  ln_paid = null;
  claimed = null;
  refunded = null;
}

unfoldable pub apply_terms : Crypto → Trade → Value → Result Trade
apply_terms crypto next envelope =
    let hash = str (hash_unsigned_envelope crypto (strip_signature envelope)) in
    do
      require_signer envelope (envelope ! "body" ! "ln_receiver_peer") "terms"
      when (truthy next.terms) (require_signer envelope (next.terms ! "ln_receiver_peer") "terms")
      if before_accept next.state then ok (set_terms next (envelope ! "body") hash) else (do
        require (hex_eq next.terms_hash hash)
            (concat "TERMS not allowed in state=" (state_text next.state))
        ok next)

abbrev pub is_canceled : State → Bool
is_canceled canceled = true
is_canceled _ = false

abbrev pub is_terms : State → Bool
is_terms terms = true
is_terms _ = false

-- ACCEPT that arrives again, in any state but TERMS.
unfoldable pub replay_accept : Trade → Value → Result Trade
replay_accept next envelope = do
  refuse (is_canceled next.state) (concat "ACCEPT not allowed in state=" (state_text next.state))
  require_signer envelope (next.terms ! "ln_payer_peer") "accept"
  require (hex_eq (envelope ! "body" ! "terms_hash") next.terms_hash) "ACCEPT terms_hash mismatch"
  ok next

unfoldable pub first_accept : Trade → Value → Result Trade
first_accept next envelope = do
  not_after envelope (next.terms ! "terms_valid_until_unix") "ACCEPT invalid terms_valid_until_unix"
      "ACCEPT arrived after terms expiry"
  require_signer envelope (next.terms ! "ln_payer_peer") "accept"
  require (hex_eq (envelope ! "body" ! "terms_hash") next.terms_hash) "ACCEPT terms_hash mismatch"
  ok (record next { state = accepted; accepted_at = envelope ! "ts" })

unfoldable pub apply_accept : Trade → Value → Result Trade
unfolding replay_accept first_accept
apply_accept next envelope = do
  require (truthy next.terms && truthy next.terms_hash) "ACCEPT requires active terms"
  if is_terms next.state then first_accept next envelope else replay_accept next envelope
