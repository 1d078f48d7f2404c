-- ===== src/Swap/Terms.antt =====
-- src/swap/terms.js: the hash of a TERMS envelope, and the ACCEPT that names it.
pub mod Handshake
use intercom_swap.Prelude.{
  String, ◌≡◌, ◌≢◌, ◌∙◌, refl, Bool, true, false, Option, some, none, if◌then◌else◌, arith, eq_iff,
  str_eq,
}
use intercom_swap.Js.Value.{Value, Fields, lookup, str, obj, field, end, ◌!◌, is_reference, is_text}
use intercom_swap.Js.Result.{Result, ok, require, ◌>>=◌, ◌>>◌}
use intercom_swap.Swap.Constants.{Kind, terms, kind_of_text}
use intercom_swap.Swap.Schema.Envelope.{kind_of}
use intercom_swap.Protocol.SignedMessage.{
  Crypto, without, strip_signature, hash_unsigned_envelope, verify_signed_envelope,
}
use intercom_swap.Swap.StateMachine.Trade.{Trade}
use intercom_swap.Swap.StateMachine.Agreement.{before_accept}
use intercom_swap.Swap.StateMachine.Apply.{apply_swap_envelope}
use intercom_swap.Swap.StateMachine.Steps.{TermsStep}
use intercom_swap.Swap.StateMachine.Spec.{marked, apply-Accepted}
use intercom_swap.Swap.StateMachine.Replay.{StepOf-kind}

-- hashTermsEnvelope
unfoldable pub hash_terms_envelope : Crypto → Value → Result String
hash_terms_envelope crypto envelope =
    let unsigned = strip_signature envelope in
    do
      require (is_reference envelope) "termsEnvelope is required"
      require (is_text (unsigned ! "kind") "swap.terms") "Expected kind=swap.terms"
      ok (hash_unsigned_envelope crypto unsigned)

-- acceptBodyForTerms
unfoldable pub accept_body_for_terms : Crypto → Value → Result Value
unfolding hash_terms_envelope
accept_body_for_terms crypto envelope = do
  hash ← hash_terms_envelope crypto envelope
  ok (obj (field "terms_hash" (str hash) end))

lookup-without :
    (fs : Fields) (removed key : String)
    → str_eq removed key ≡ false
    → lookup (without removed fs) key ≡ lookup fs key
unfolding lookup without
lookup-without end removed key h = refl
lookup-without (field k v fs) removed key h =
    ground (arith, lookup-without fs removed key h, eq_iff k removed, eq_iff k key)

kind-strip_signature : (e : Value) → strip_signature e ! "kind" ≡ e ! "kind"
unfolding strip_signature ◌!◌
kind-strip_signature (obj fs) =
    lookup-without (without "signer" fs) "sig" "kind" refl ∙ lookup-without fs "signer" "kind" refl
kind-strip_signature _ = refl

is_terms_kind : Kind → Bool
is_terms_kind terms = true
is_terms_kind _ = false

-- A case of the switch over `kind` that is not the one of TERMS.
skip :
    (b : Bool) (j : Kind) {r : Option Kind}
    → is_terms_kind j ≡ false
    → (if b then some j else r) ≡ some terms
    → r ≡ some terms
unfolding is_terms_kind
skip true terms n h = cc
skip true _ n h = cc
skip false j n h = h

not_terms :
    (s : String)
    → (if str_eq s "swap.accept"
        then some Kind.accept
        else if str_eq s "swap.cancel"
        then some Kind.cancel
        else if str_eq s "swap.status"
        then some Kind.status
        else if str_eq s "swap.ln_invoice"
        then some Kind.ln_invoice
        else if str_eq s "swap.sol_escrow_created"
        then some Kind.sol_escrow_created
        else if str_eq s "swap.tao_htlc_locked"
        then some Kind.tao_htlc_locked
        else if str_eq s "swap.ln_paid"
        then some Kind.ln_paid
        else if str_eq s "swap.sol_claimed"
        then some Kind.sol_claimed
        else if str_eq s "swap.tao_claimed"
        then some Kind.tao_claimed
        else if str_eq s "swap.sol_refunded"
        then some Kind.sol_refunded
        else if str_eq s "swap.tao_refunded"
        then some Kind.tao_refunded
        else none)
      ≢ some terms
unfolding is_terms_kind
not_terms s h =
    let h1 = skip (str_eq s "swap.accept") Kind.accept refl h in
    let h2 = skip (str_eq s "swap.cancel") Kind.cancel refl h1 in
    let h3 = skip (str_eq s "swap.status") Kind.status refl h2 in
    let h4 = skip (str_eq s "swap.ln_invoice") Kind.ln_invoice refl h3 in
    let h5 = skip (str_eq s "swap.sol_escrow_created") Kind.sol_escrow_created refl h4 in
    let h6 = skip (str_eq s "swap.tao_htlc_locked") Kind.tao_htlc_locked refl h5 in
    let h7 = skip (str_eq s "swap.ln_paid") Kind.ln_paid refl h6 in
    let h8 = skip (str_eq s "swap.sol_claimed") Kind.sol_claimed refl h7 in
    let h9 = skip (str_eq s "swap.tao_claimed") Kind.tao_claimed refl h8 in
    let h10 = skip (str_eq s "swap.sol_refunded") Kind.sol_refunded refl h9 in
    let h11 = skip (str_eq s "swap.tao_refunded") Kind.tao_refunded refl h10 in cc

pick :
    (b : Bool) {r : Option Kind}
    → r ≢ some terms
    → (if b then some terms else r) ≡ some terms
    → b ≡ true
pick true n h = refl
pick false n h = absurd (n h)

kind_of_text-terms : (s : String) → kind_of_text s ≡ some terms → str_eq s "swap.terms" ≡ true
unfolding kind_of_text is_terms_kind
kind_of_text-terms s h =
    let h1 = skip (str_eq s "swap.svc_announce") Kind.svc_announce refl h in
    let h2 = skip (str_eq s "swap.rfq") Kind.rfq refl h1 in
    let h3 = skip (str_eq s "swap.quote") Kind.quote refl h2 in
    let h4 = skip (str_eq s "swap.quote_accept") Kind.quote_accept refl h3 in
    let h5 = skip (str_eq s "swap.swap_invite") Kind.swap_invite refl h4 in
    pick (str_eq s "swap.terms") (λ rest. not_terms s rest) h5

kind_of-text : (v : Value) → kind_of v ≡ some terms → is_text v "swap.terms" ≡ true
unfolding kind_of is_text
kind_of-text (str s) h = kind_of_text-terms s h
kind_of-text _ h = cc

signed-is_reference :
    (crypto : Crypto) (e : Value) → verify_signed_envelope crypto e ≡ ok tt → is_reference e ≡ true
unfolding verify_signed_envelope
signed-is_reference crypto e h = ground arith

TermsStep-hash :
    (crypto : Crypto) (next : Trade) (e : Value) (u : Trade)
    → before_accept next.state ≡ true
    → TermsStep next e u crypto
    → u.terms_hash ≡ str (hash_unsigned_envelope crypto (strip_signature e))
TermsStep-hash crypto next e u b h = ground arith

-- The ACCEPT body that a peer makes from a TERMS envelope names the hash that a trade, before it
-- is accepted, keeps of that envelope.
pub accept_body_for_terms-terms_hash :
    (crypto : Crypto) (t : Trade) (e : Value) (u : Trade)
    → before_accept t.state ≡ true
    → apply_swap_envelope crypto t e ≡ ok u
    → kind_of (e ! "kind") ≡ some terms
    → accept_body_for_terms crypto e ≡ ok (obj (field "terms_hash" u.terms_hash end))
unfolding accept_body_for_terms
accept_body_for_terms-terms_hash crypto t e u b h k =
    let a = apply-Accepted crypto t e u h in
    let step = (StepOf-kind crypto t e u terms h k).1 in
    ground (
      arith,
      kind-strip_signature e,
      kind_of-text (e ! "kind") k,
      signed-is_reference crypto e a.signed,
      TermsStep-hash crypto (marked t e) e u b step,
    )
