-- ===== src/Sidechannel/Send/Accepted.antt =====
-- A message that _buildPayload of features/sidechannel/index.js makes, at a peer that receives it.
use intercom_swap.Prelude.{
  ◌≤◌, String, ◌≡◌, refl, sym, ap, ◌∙◌, true, false, some, Bool-cases, Option-cases, inl, inr,
  arith,
}
use intercom_swap.Js.Text.{trim, to_lower, is_empty}
use intercom_swap.Js.Value.{Value, Fields, str, obj, ◌!◌, lookup, truthy, to_text, is_text}
use intercom_swap.Js.Json.{json_data}
use intercom_swap.Swap.Schema.Fields.{is_nonempty}
use intercom_swap.Protocol.Stringify.{stable_stringify}
use intercom_swap.Protocol.SignedMessage.{with_field}
use intercom_swap.Protocol.SignedMessage.Signed.{lookup-with_field, lookup-other, str_eq_self}
use intercom_swap.Sidechannel.Settings.{Settings}
use intercom_swap.Sidechannel.Keys.{Platform, normalize_key_hex, signature_of, is_verified}
use intercom_swap.Sidechannel.Rules.{pow_required, get_owner_key}
use intercom_swap.Sidechannel.Pow.{check_pow}
use intercom_swap.Sidechannel.Sign.{sig_payload, verify_sig}
use intercom_swap.Sidechannel.Receive.{may_write, by_owner}
use intercom_swap.Sidechannel.Send.{Sender, attach_pow, attach_sig, new_payload, build_payload}
use intercom_swap.Sidechannel.Send.Work.{
  sig_payload-other, attach_pow-other, attach_pow-check_pow, attach_sig-check_pow,
}

-- A wallet with a key in the form that the code compares, that signs every message so that the
-- signature is verified.
pub record IsWalletOf (platform : Platform) (sender : Sender) (key : String) : Type 0 where
  pub is_some : is_empty key ≡ false
  pub is_normal : to_lower (trim key) ≡ key
  pub sign : String → String
  pub signs : (text : String) → sender.sign text ≡ some (sign text)
  pub sign_some : (text : String) → is_empty (sign text) ≡ false
  pub sign_normal : (text : String) → to_lower (trim (sign text)) ≡ sign text
  pub verified : (text : String) → platform.crypto.verify (sign text) text key ≡ some true

is_empty-to_lower : (s : String) → is_empty s ≡ true → is_empty (to_lower s) ≡ true
unfolding to_lower
is_empty-to_lower String.[] h = refl
is_empty-to_lower (String.◌∷◌ c s) h = cc

attach_sig-signed :
    (platform : Platform) (sender : Sender) (fs : Fields) (key : String)
    (w : IsWalletOf platform sender key)
    → attach_sig platform sender fs
      ≡ with_field "sig" (str (w.sign (stable_stringify (sig_payload platform (obj fs))))) fs
unfolding attach_sig
attach_sig-signed platform sender fs key w =
    let text = stable_stringify (sig_payload platform (obj fs)) in
    elim (Bool-cases (is_empty (trim (w.sign text)))) [
      | inl gone ↦
          ground (
            arith,
            is_empty-to_lower (trim (w.sign text)) gone,
            w.sign_some text,
            w.sign_normal text,
          )
      | inr some_sig ↦ ground (arith, w.signs text, some_sig, w.sign_normal text)
    ]

pub is_verified-str :
    (platform : Platform) (sig : String) (message : Value) (key : String)
    → is_empty sig ≡ false
    → platform.crypto.verify sig (stable_stringify message) key ≡ some true
    → is_verified platform (str sig) message key ≡ true
unfolding is_verified is_nonempty to_text
is_verified-str platform sig message key e h = ground (arith, e, h)

signature_of-signed :
    (fs : Fields) (sig : String)
    → is_empty sig ≡ false
    → signature_of (obj (with_field "sig" (str sig) fs)) ≡ str sig
unfolding ◌!◌ truthy
signature_of-signed fs sig e = ground (arith, lookup-with_field "sig" (str sig) fs)

-- The signature that is attached is verified.
attach_sig-verify_sig :
    (platform : Platform) (sender : Sender) (fs : Fields) (key : String)
    → IsWalletOf platform sender key
    → verify_sig platform (obj (attach_sig platform sender fs)) key ≡ true
unfolding verify_sig
attach_sig-verify_sig platform sender fs key w =
    let unsigned = sig_payload platform (obj fs) in
    let text = stable_stringify unsigned in
    let same =
      sig_payload-other platform "sig" (str (w.sign text)) fs refl refl refl refl refl refl in
    let verified =
      is_verified-str platform (w.sign text) unsigned key (w.sign_some text) (w.verified text) in
    rw
      (
        attach_sig-signed platform sender fs key w,
        w.is_some,
        same,
        signature_of-signed fs (w.sign text) (w.sign_some text),
        w.is_normal,
      )
      verified

from-attach_sig :
    (platform : Platform) (sender : Sender) (fs : Fields) (key : String)
    → IsWalletOf platform sender key
    → obj (attach_sig platform sender fs) ! "from" ≡ lookup fs "from"
unfolding ◌!◌
from-attach_sig platform sender fs key w =
    let text = stable_stringify (sig_payload platform (obj fs)) in
    rw (attach_sig-signed platform sender fs key w)
      (lookup-other "from" "sig" (str (w.sign text)) fs refl)

from-new_payload :
    (settings : Settings) (sender : Sender) (channel : String) (message invite : Value)
    {key : String}
    → settings.self_key ≡ some key
    → lookup (new_payload settings sender channel message invite) "from" ≡ str key
unfolding new_payload lookup
from-new_payload settings sender channel message invite self = rw self refl

by_owner-may_write :
    (peer : Settings) (platform : Platform) (payload : Value) (channel key : String)
    → is_empty key ≡ false
    → to_lower (trim key) ≡ key
    → get_owner_key peer channel ≡ some key
    → payload ! "from" ≡ str key
    → verify_sig platform payload key ≡ true
    → may_write peer platform payload channel ≡ true
unfolding may_write by_owner normalize_key_hex truthy to_text ◌!◌ is_text
by_owner-may_write peer platform payload channel key e n owner from signed =
    let author : normalize_key_hex platform (str key) ≡ some key = ground (arith, e, n) in
    let same = str_eq_self key in
    ground (arith, e, owner, author, same, ap (normalize_key_hex platform) from)

-- What the owner of a channel builds to be sent there, of data that JSON carries unchanged, passes
-- the proof of work and the test of who writes when it arrives at a peer that has the owner's key
-- and asks for no more bits than the owner's node, where that node works for the channel and
-- finds a nonce.
pub build_payload-accepted :
    (settings peer : Settings) (platform : Platform) (sender : Sender) (key channel : String)
    (message invite payload : Value)
    → IsWalletOf platform sender key
    → settings.self_key ≡ some key
    → get_owner_key peer channel ≡ some key
    → pow_required settings channel ≡ true
    → peer.pow_difficulty ≤ settings.pow_difficulty
    → build_payload settings platform sender channel message invite ≡ some payload
    → json_data payload ≡ payload
    → (check_pow peer platform (json_data payload) channel ≡ true)
      × (may_write peer platform (json_data payload) channel ≡ true)
unfolding build_payload
build_payload-accepted settings peer platform sender key channel message invite payload w self owner
      needed le h carried =
    let unsigned = new_payload settings sender channel message invite in
    elim (Option-cases (attach_pow settings platform sender.fuel channel unsigned)) [
      | inl e ↦ ground (arith, e)
      | inr (worked, e) ↦
          let is_payload : obj (attach_sig platform sender worked) ≡ payload = ground (arith, e) in
          let pow =
            attach_pow-check_pow settings peer platform sender.fuel channel unsigned needed le e in
          let from =
            from-attach_sig platform sender worked key w
            ∙ attach_pow-other settings platform sender.fuel channel unsigned "from" e refl
            ∙ from-new_payload settings sender channel message invite self in
          (
            rw (carried, sym is_payload)
                (attach_sig-check_pow peer platform sender channel worked ∙ pow),
            rw (carried, sym is_payload)
                (by_owner-may_write peer platform (obj (attach_sig platform sender worked)) channel
                  key w.is_some w.is_normal owner from
                  (attach_sig-verify_sig platform sender worked key w)),
          )
    ]
