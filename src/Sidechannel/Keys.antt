-- ===== src/Sidechannel/Keys.antt =====
-- features/sidechannel/index.js: keys and names of channels, and the base of the signatures. What
-- the code calls of b4a and of the wallet is the record `Platform`.
use intercom_swap.Prelude.{ℕ, String, Bool, false, ◌&&◌, Option, some, none, if◌then◌else◌}
use intercom_swap.Js.Text.{trim, to_lower}
use intercom_swap.Js.Number.{Num, nat, is_finite}
use intercom_swap.Js.Value.{Value, Items, num, arr, ◌!◌, truthy, to_text, is_text, is_reference}
use intercom_swap.Swap.Schema.Fields.{is_nonempty}
use intercom_swap.Protocol.Stringify.{stable_stringify}
use intercom_swap.Protocol.SignedMessage.{Crypto}

-- `buffer_hex` is b4a.toString(b4a.from(data), 'hex'), where b4a.from may raise. `byte_size` is
-- the number of bytes of JSON.stringify(payload).
pub record Platform : Type 0 where
  pub crypto : Crypto
  pub buffer_hex : Items → Option String
  pub byte_size : Value → ℕ

bytes_of : Value → Option Items
bytes_of (arr xs) = some xs
bytes_of _ = none

-- normalizeKeyHex of an object: the JSON of a Buffer, or its text
key_of_object : Platform → Value → Option String
unfolding bytes_of
key_of_object platform v =
    if is_text (v ! "type") "Buffer"
    then elim (bytes_of (v ! "data")) [
      | some xs ↦ platform.buffer_hex xs
      | none ↦ some (to_lower (trim (to_text v)))
    ]
    else some (to_lower (trim (to_text v)))

-- normalizeKeyHex
unfoldable pub normalize_key_hex : Platform → Value → Option String
unfolding key_of_object
normalize_key_hex platform v = if truthy v then key_of_object platform v else none

-- normalizeKeyHex(value) || ''
abbrev pub key_text : Platform → Value → String
key_text platform v = elim (normalize_key_hex platform v) [ some key ↦ key | none ↦ "" ]

-- a || b
abbrev pub or_else : Value → Value → Value
or_else a b = if truthy a then a else b

-- value.payload && typeof value.payload === 'object' ? value.payload : value
abbrev pub payload_of : Value → Value
payload_of v = if is_reference (v ! "payload") then v ! "payload" else v

-- value.sig || value.signature
abbrev pub signature_of : Value → Value
signature_of v = or_else (v ! "sig") (v ! "signature")

-- Number.isFinite(value) ? Number(value) : 1
abbrev pub version_of : Value → Num
version_of (num n) = if is_finite n then n else nat 1
version_of _ = nat 1

-- A signature in hex that the wallet takes; what b4a does not decode is none.
unfoldable pub is_verified : Platform → Value → Value → String → Bool
unfolding is_nonempty to_text stable_stringify
is_verified platform sig message key =
    is_nonempty sig && elim (platform.crypto.verify (to_text sig) (stable_stringify message) key) [
      | some valid ↦ valid
      | none ↦ false
    ]
