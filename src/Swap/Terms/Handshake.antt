-- ===== src/Swap/Terms/Handshake.antt =====
-- TERMS and the ACCEPT that answers it (src/swap/terms.js, src/swap/stateMachine.js).
use intercom_swap.Prelude.{◌≡◌, refl, true, some, arith, eq_iff, inl}
use intercom_swap.Js.Value.{Value, obj, field, end, ◌!◌, lookup, is_text, truthy, normalize_hex}
use intercom_swap.Js.Result.{ok, ok-injective}
use intercom_swap.Swap.Constants.{State, terms, accept, accepted}
use intercom_swap.Swap.Schema.Envelope.{kind_of, validate_swap_envelope, default_opts}
use intercom_swap.Protocol.SignedMessage.{Crypto, verify_signed_envelope}
use intercom_swap.Swap.StateMachine.Trade.{Trade, is_signer, hex_eq, not_after}
use intercom_swap.Swap.StateMachine.Agreement.{before_accept}
use intercom_swap.Swap.StateMachine.Apply.{apply_swap_envelope}
use intercom_swap.Swap.StateMachine.Steps.{TermsStep}
use intercom_swap.Swap.StateMachine.Spec.{marked, apply_iff}
use intercom_swap.Swap.StateMachine.Replay.{StepOf-kind}
use intercom_swap.Swap.StateMachine.Evidence.{truthy_of_is_object}
use intercom_swap.Swap.StateMachine.Trace.{valid-body}
use intercom_swap.Swap.StateMachine.Spec.{apply-Accepted}
use intercom_swap.Swap.Terms.{accept_body_for_terms, accept_body_for_terms-terms_hash}

TermsStep-fresh :
    (crypto : Crypto) (next : Trade) (e : Value) (u : Trade)
    → before_accept next.state ≡ true
    → TermsStep next e u crypto
    → (u.state ≡ State.terms) × (u.terms ≡ e ! "body")
TermsStep-fresh crypto next e u b h = ground arith

hex_eq-named :
    (body hash : Value)
    → body ≡ obj (field "terms_hash" hash end)
    → hex_eq (body ! "terms_hash") hash ≡ true
unfolding ◌!◌ lookup
hex_eq-named body hash e = rw e ((eq_iff (normalize_hex hash) (normalize_hex hash)).1 refl)

-- A trade that is not accepted yet and takes a TERMS envelope then takes the ACCEPT whose body
-- acceptBodyForTerms makes of it, and is accepted, where that ACCEPT is well formed, names the
-- trade, has a valid signature of the payer that the terms name, and comes in time, and the hash of
-- the terms is no empty text.
pub accept_taken :
    (crypto : Crypto) (t : Trade) (e : Value) (u : Trade) (answer : Value)
    → before_accept t.state ≡ true
    → apply_swap_envelope crypto t e ≡ ok u
    → kind_of (e ! "kind") ≡ some terms
    → accept_body_for_terms crypto e ≡ ok (answer ! "body")
    → kind_of (answer ! "kind") ≡ some accept
    → validate_swap_envelope answer default_opts ≡ ok tt
    → is_text (answer ! "trade_id") u.trade_id ≡ true
    → verify_signed_envelope crypto answer ≡ ok tt
    → is_signer answer (u.terms ! "ln_payer_peer") ≡ true
    → not_after answer
        (u.terms ! "terms_valid_until_unix")
        "ACCEPT invalid terms_valid_until_unix"
        "ACCEPT arrived after terms expiry"
      ≡ ok tt
    → truthy u.terms_hash ≡ true
    → apply_swap_envelope crypto u answer
      ≡ ok (record (marked u answer) { state = accepted; accepted_at = answer ! "ts" })
accept_taken crypto t e u answer b h k made ka valid same signed by_payer in_time some_hash =
    let a = apply-Accepted crypto t e u h in
    let (state, agreed) =
      TermsStep-fresh crypto (marked t e) e u b (StepOf-kind crypto t e u terms h k).1 in
    let some_terms = truthy_of_is_object (e ! "body") (valid-body e a.valid) in
    let hash = accept_body_for_terms-terms_hash crypto t e u b h k in
    (apply_iff crypto u answer
        (record (marked u answer) { state = accepted; accepted_at = answer ! "ts" })).1
      (record {
        kind = accept;
        valid = valid;
        same_trade = same;
        signed = signed;
        of_kind = ka;
        step = record {
          active = (rw agreed some_terms, some_hash);
          by_payer = by_payer;
          same_hash = hex_eq-named (answer ! "body") u.terms_hash (ok-injective (cc (made, hash)));
          outcome = inl (rw state refl, in_time, refl);
        };
      })
