-- ===== src/Protocol/SignedMessage/Signed.antt =====
-- An envelope that is signed and sent (src/protocol/signedMessage.js) passes verification.
use intercom_swap.Prelude.{
  String, ◌≡◌, refl, ◌∙◌, ap, true, false, Option, some, str_eq, eq_iff, arith,
}
use intercom_swap.Js.Text.{is_empty}
use intercom_swap.Js.Value.{
  Value, Fields, str, obj, field, end, has, lookup, ◌!◌, is_reference, normalize_hex,
}
use intercom_swap.Js.Result.{ok}
use intercom_swap.Swap.Schema.Fields.{is_nonempty}
use intercom_swap.Protocol.Stringify.{stable_stringify}
use intercom_swap.Protocol.SignedMessage.{
  Crypto, without, strip_signature, text_of, verdict, verify_signed_envelope, with_field,
  attach_signature, sign_unsigned_envelope_hex,
}

pub str_eq_self : (s : String) → str_eq s s ≡ true
str_eq_self s = (eq_iff s s).1 refl

without-with_field :
    (key : String) (v : Value) (fs : Fields)
    → has fs key ≡ false
    → without key (with_field key v fs) ≡ fs
unfolding without with_field has
without-with_field key v end h = ground (arith, str_eq_self key)
without-with_field key v (field k w fs) h = ground (arith, without-with_field key v fs)

without-other :
    (key other : String) (v : Value) (fs : Fields)
    → str_eq other key ≡ false
    → without key (with_field other v fs) ≡ with_field other v (without key fs)
unfolding without with_field
without-other key other v end n = ground arith
without-other key other v (field k w fs) n =
    ground (arith, without-other key other v fs n, eq_iff k other, eq_iff k key)

pub lookup-with_field :
    (key : String) (v : Value) (fs : Fields) → lookup (with_field key v fs) key ≡ v
unfolding lookup with_field
lookup-with_field key v end = ground (arith, str_eq_self key)
lookup-with_field key v (field k w fs) = ground (arith, lookup-with_field key v fs)

pub lookup-other :
    (key other : String) (v : Value) (fs : Fields)
    → str_eq other key ≡ false
    → lookup (with_field other v fs) key ≡ lookup fs key
unfolding lookup with_field
lookup-other key other v end n = ground arith
lookup-other key other v (field k w fs) n =
    ground (arith, lookup-other key other v fs n, eq_iff k other, eq_iff k key)

-- What attachSignature makes of an object.
unfoldable pub signed : Fields → String → String → Fields
signed fs signer sig = with_field "sig" (str sig) (with_field "signer" (str signer) fs)

strip-signed :
    (fs : Fields) (signer sig : String)
    → has fs "sig" ≡ false
    → has fs "signer" ≡ false
    → strip_signature (obj (signed fs signer sig)) ≡ obj fs
unfolding strip_signature signed
strip-signed fs signer sig h g = ap obj (
    ap (λ x. without "sig" x)
      (without-other "signer" "sig" (str sig) (with_field "signer" (str signer) fs) refl
        ∙ ap (λ x. with_field "sig" (str sig) x) (without-with_field "signer" (str signer) fs g))
    ∙ without-with_field "sig" (str sig) fs h)

-- A text that verification takes as it is: in lower case, with no blanks round it, not empty.
pub record IsPlain (s : String) : Type 0 where
  pub same : text_of (str s) ≡ s
  pub filled : is_empty s ≡ false

attach_signature-signed :
    (fs : Fields) (signer sig : String)
    → IsPlain signer
    → IsPlain sig
    → attach_signature (obj fs) (str signer) (str sig) ≡ ok (obj (signed fs signer sig))
unfolding attach_signature is_nonempty signed
attach_signature-signed fs signer sig p q = rw (p.same, q.same, p.filled, q.filled) refl

verify-signed :
    (crypto : Crypto) (fs : Fields) (signer sig : String)
    → IsPlain signer
    → IsPlain sig
    → strip_signature (obj (signed fs signer sig)) ≡ obj fs
    → crypto.verify sig (stable_stringify (obj fs)) signer ≡ some true
    → verify_signed_envelope crypto (obj (signed fs signer sig)) ≡ ok tt
unfolding verify_signed_envelope signed ◌!◌ is_reference is_nonempty verdict
verify-signed crypto fs signer sig p q e h =
    rw
      (
        lookup-with_field "sig" (str sig) (with_field "signer" (str signer) fs),
        lookup-other "signer" "sig" (str sig) (with_field "signer" (str signer) fs) refl,
        lookup-with_field "signer" (str signer) fs,
        p.same,
        q.same,
        p.filled,
        q.filled,
        e,
        h,
      )
      refl

-- An envelope without `sig` and `signer`, signed and then given its signature, passes the check of
-- signatures, where the two texts are plain and the wallet's `verify` takes what its `sign` makes.
pub sign-attach-verify :
    (crypto : Crypto) (sign : String → String → Option String) (fs : Fields) (secret : Value)
    (signer sig : String)
    → has fs "sig" ≡ false
    → has fs "signer" ≡ false
    → IsPlain signer
    → IsPlain sig
    → sign_unsigned_envelope_hex sign (obj fs) secret ≡ ok sig
    → ((message made : String)
        → sign message (normalize_hex secret) ≡ some made
        → crypto.verify made message signer ≡ some true)
    → (e : Value) × (attach_signature (obj fs) (str signer) (str sig) ≡ ok e)
      × (strip_signature e ≡ obj fs)
      × (verify_signed_envelope crypto e ≡ ok tt)
unfolding sign_unsigned_envelope_hex
sign-attach-verify crypto sign fs secret signer sig h g p q s accepts =
    let stripped = strip-signed fs signer sig h g in
    (
      obj (signed fs signer sig),
      attach_signature-signed fs signer sig p q,
      stripped,
      verify-signed crypto fs signer sig p q stripped
          (accepts (stable_stringify (obj fs)) sig (ground arith)),
    )
