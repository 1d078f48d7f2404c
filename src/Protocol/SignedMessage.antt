-- ===== src/Protocol/SignedMessage.antt =====
-- src/protocol/signedMessage.js and src/swap/hash.js. What these call of other packages is the
-- record `Crypto`.
pub mod Signed
use intercom_swap.Prelude.{
  ℕ, String, Bool, true, false, not, Option, none, some, if◌then◌else◌, str_eq,
}
use intercom_swap.Js.Text.{trim, to_lower, is_empty}
use intercom_swap.Js.Number.{nat}
use intercom_swap.Js.Value.{
  Value, num, str, obj, Fields, end, field, ◌!◌, is_reference, is_defined, truthy, normalize_hex,
  to_text,
}
use intercom_swap.Js.Result.{Result, ok, error, require, ◌>>=◌, ◌>>◌}
use intercom_swap.Swap.Schema.Fields.{is_nonempty}
use intercom_swap.Protocol.Stringify.{stable_stringify}

-- Node's crypto, and b4a with trac-wallet: a signature, a message and a public key, the first and
-- the last in hex. `none` is an encoding that b4a does not take.
pub record Crypto : Type 0 where
  pub sha256_hex : String → String
  pub verify : String → String → String → Option Bool

unfoldable pub without : String → Fields → Fields
without key end = end
without key (field k v fs) =
    let rest = without key fs in if str_eq k key then rest else field k v rest

-- `const { sig, signer, ...unsigned } = envelope`
unfoldable pub strip_signature : Value → Value
unfolding without
strip_signature (obj fs) = obj (without "sig" (without "signer" fs))
strip_signature v = v

-- hashUnsignedEnvelope
unfoldable pub hash_unsigned_envelope : Crypto → Value → String
unfolding stable_stringify
hash_unsigned_envelope crypto unsigned = crypto.sha256_hex (stable_stringify unsigned)

unfoldable pub text_of : Value → String
text_of v = to_lower (trim (to_text v))

unfoldable pub verdict : Option Bool → Result (Unit {0})
verdict none = error "Invalid signature encoding"
verdict (some valid) = require valid "Invalid signature"

unfoldable pub verify_signed_envelope : Crypto → Value → Result (Unit {0})
unfolding text_of verdict stable_stringify
verify_signed_envelope crypto envelope = do
  require (is_reference envelope) "Invalid envelope"
  require (is_nonempty (envelope ! "sig")) "Missing sig"
  require (is_nonempty (envelope ! "signer")) "Missing signer"
  verdict (
      crypto.verify (text_of (envelope ! "sig")) (stable_stringify (strip_signature envelope))
        (text_of (envelope ! "signer")))

-- createUnsignedEnvelope; `now` is Date.now(), and `random` the text that Math.random makes.
unfoldable pub create_unsigned_envelope :
    ℕ → String → Value → Value → Value → Value → Value → Value → Result Value
create_unsigned_envelope now random kind trade_id body ts nonce v = do
  require (is_nonempty kind) "kind is required"
  require (is_nonempty trade_id) "tradeId is required"
  require (is_defined body) "body is required"
  ok (
      obj (
        field "v" (if is_defined v then v else num (nat 1)) (
          field "kind" kind (
            field "trade_id" trade_id (
              field "ts" (if is_defined ts then ts else num (nat now)) (
                field "nonce" (if truthy nonce then nonce else str random)
                  (field "body" body end)))))))

-- signUnsignedEnvelopeHex, for a secret key in hex; `sign` is PeerWallet.sign with the encodings
-- of b4a, of which it is `none` that one raises.
unfoldable pub sign_unsigned_envelope_hex :
    (String → String → Option String) → Value → Value → Result String
sign_unsigned_envelope_hex sign unsigned secret =
    elim (sign (stable_stringify unsigned) (normalize_hex secret)) [
      | none ↦ error "Invalid signing material"
      | some sig ↦ ok sig
    ]

-- An object with one property set: in its place, or at the end.
unfoldable pub with_field : String → Value → Fields → Fields
with_field key v end = field key v end
with_field key v (field k w fs) =
    let rest = with_field key v fs in if str_eq k key then field k v fs else field k w rest

spread : Value → Fields
spread (obj fs) = fs
spread _ = end

-- attachSignature
unfoldable pub attach_signature : Value → Value → Value → Result Value
unfolding spread
attach_signature unsigned signer sig = do
  require (is_nonempty signer) "signerPubKeyHex is required"
  require (is_nonempty sig) "sigHex is required"
  ok (
      obj (
        with_field "sig" (str (text_of sig))
          (with_field "signer" (str (text_of signer)) (spread unsigned))))
