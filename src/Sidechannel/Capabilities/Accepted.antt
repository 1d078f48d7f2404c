-- ===== src/Sidechannel/Capabilities/Accepted.antt =====
-- An invite that src/sidechannel/capabilities.js makes, where features/sidechannel/index.js checks it.
use intercom_swap.Prelude.{ℕ, String, ◌≡◌, refl, ap, ◌∙◌, true, false, some, arith}
use intercom_swap.Js.Text.{trim, to_lower, is_empty}
use intercom_swap.Js.Number.{Num, is_finite}
use intercom_swap.Js.Parse.{coalesce}
use intercom_swap.Js.Value.{
  Value, null, str, num, ◌!◌, lookup, truthy, to_text, to_number, is_reference, is_present, is_text,
  trimmed, or_empty, normalize_hex,
}
use intercom_swap.Protocol.Stringify.{stable_stringify}
use intercom_swap.Protocol.SignedMessage.Signed.{str_eq_self}
use intercom_swap.Sidechannel.Keys.{
  Platform, key_text, normalize_key_hex, version_of, payload_of, signature_of, or_else,
}
use intercom_swap.Sidechannel.Node.{Node, is_live, remember_invite}
use intercom_swap.Sidechannel.Invite.{
  Invite, invite_value, normalize_invite_payload, is_trusted, is_valid_invite,
  verify_invite_for_key, verify_invite,
}
use intercom_swap.Sidechannel.Send.Accepted.{is_verified-str}
use intercom_swap.Sidechannel.Capabilities.{
  InviteOptions, invite_payload, expiry_of, create_signed_invite,
}

-- A key in the form in which keys are compared
pub record IsKey (key : String) : Type 0 where
  pub is_some : is_empty key ≡ false
  pub is_normal : to_lower (trim key) ≡ key

-- Signatures by the owner of the key, which the wallet verifies
pub record IsSigner (platform : Platform) (sign : Value → String) (key : String) : Type 0 where
  pub some_sig : (v : Value) → is_empty (sign v) ≡ false
  pub verified : (v : Value) → platform.crypto.verify (sign v) (stable_stringify v) key ≡ some true

pub key_text-IsKey :
    (platform : Platform) {key : String} → IsKey key → key_text platform (str key) ≡ key
unfolding normalize_key_hex truthy to_text ◌!◌ is_text
key_text-IsKey platform k = ground (arith, k.is_some, k.is_normal)

pub version_of-again : (v : Value) → version_of (num (version_of v)) ≡ version_of v
version_of-again (num n) = ground arith
version_of-again _ = refl

coalesce-again : (v : Value) → coalesce (coalesce v null) null ≡ coalesce v null
unfolding coalesce is_present
coalesce-again v = ground arith

-- What is signed of the options
abbrev pub invite_of : InviteOptions → Invite
invite_of o = record {
  channel = trim o.channel;
  invitee_pub_key = o.invitee_pub_key;
  inviter_pub_key = o.inviter_pub_key;
  inviter_address = coalesce o.inviter_address null;
  issued_at = o.issued_at;
  expires_at = expiry_of o;
  nonce = to_text (coalesce (or_else o.nonce (str o.random)) (str ""));
  version = version_of o.version;
}

normalize-invite_of :
    (platform : Platform) (o : InviteOptions)
    → IsKey o.invitee_pub_key
    → IsKey o.inviter_pub_key
    → normalize_invite_payload platform (invite_value (invite_of o)) ≡ invite_of o
unfolding normalize_invite_payload ◌!◌ lookup coalesce is_present to_text to_number
normalize-invite_of platform o invitee inviter =
    rw
      (
        key_text-IsKey platform invitee,
        key_text-IsKey platform inviter,
        version_of-again o.version,
        coalesce-again o.inviter_address,
      )
      refl

pub normal_text : {key : String} → IsKey key → normalize_hex (str key) ≡ key
unfolding normalize_hex trimmed or_empty truthy to_text
normal_text k = ground (arith, k.is_some, k.is_normal)

pub trimmed_text : (s : String) → trimmed (str s) ≡ trim s
unfolding trimmed or_empty truthy to_text trim
trimmed_text String.[] = refl
trimmed_text (String.◌∷◌ c s) = refl

create_signed_invite-invite_of :
    (sign : Value → String) (o : InviteOptions)
    → IsKey o.invitee_pub_key
    → IsKey o.inviter_pub_key
    → payload_of (create_signed_invite sign o) ≡ invite_value (invite_of o)
unfolding create_signed_invite invite_payload ◌!◌ lookup to_number is_reference
create_signed_invite-invite_of sign o invitee inviter =
    rw (trimmed_text o.channel, normal_text invitee, normal_text inviter) refl

signature_of-created :
    (sign : Value → String) (o : InviteOptions)
    → IsKey o.invitee_pub_key
    → IsKey o.inviter_pub_key
    → is_empty (sign (invite_value (invite_of o))) ≡ false
    → signature_of (create_signed_invite sign o) ≡ str (sign (invite_value (invite_of o)))
unfolding create_signed_invite invite_payload ◌!◌ lookup to_number truthy
signature_of-created sign o invitee inviter e =
    rw (trimmed_text o.channel, normal_text invitee, normal_text inviter, e) refl

is_reference-created :
    (sign : Value → String) (o : InviteOptions) → is_reference (create_signed_invite sign o) ≡ true
unfolding create_signed_invite is_reference
is_reference-created sign o = refl

verify-invite_of :
    (platform : Platform) (node : Node) (now : ℕ) (sign : Value → String) (o : InviteOptions)
    → IsKey o.invitee_pub_key
    → IsKey o.inviter_pub_key
    → IsSigner platform sign o.inviter_pub_key
    → is_trusted node o.inviter_pub_key ≡ true
    → is_finite o.issued_at ≡ true
    → is_live now (some (expiry_of o)) ≡ true
    → verify_invite_for_key platform node now
        (create_signed_invite sign o)
        (trim o.channel)
        o.invitee_pub_key
        true
      ≡ some (invite_of o)
unfolding verify_invite_for_key is_valid_invite is_live
verify-invite_of platform node now sign o invitee inviter signer trusted issued live =
    let v = invite_value (invite_of o) in
    let is_payload =
      ap (normalize_invite_payload platform) (create_signed_invite-invite_of sign o invitee inviter)
      ∙ normalize-invite_of platform o invitee inviter in
    let sig = signature_of-created sign o invitee inviter (signer.some_sig v) in
    let verified =
      is_verified-str platform (sign v) v o.inviter_pub_key (signer.some_sig v)
        (signer.verified v) in
    let is_object : is_reference (create_signed_invite sign o) ≡ true =
      is_reference-created sign o in
    rw
      (
        is_payload,
        sig,
        verified,
        is_object,
        str_eq_self (trim o.channel),
        str_eq_self o.invitee_pub_key,
        inviter.is_some,
      )
      (ground arith)

verify_invite-some :
    (platform : Platform) (node : Node) (now : ℕ) (invite : Value) (channel key : String)
    {i : Invite}
    → verify_invite_for_key platform node now invite channel key true ≡ some i
    → verify_invite platform node now invite channel key
      ≡ (remember_invite node channel key i.expires_at, true)
unfolding verify_invite
verify_invite-some platform node now invite channel key e = ground (arith, e)

remember_invite-live :
    (node : Node) (now : ℕ) (channel key : String) (expires_at : Num)
    → is_live now (some expires_at) ≡ true
    → is_live now ((remember_invite node channel key expires_at).invited channel key) ≡ true
unfolding remember_invite is_live
remember_invite-live node now channel key expires_at live =
    ground (arith, str_eq_self channel, str_eq_self key)

-- An invite that a trusted inviter signs, and that runs out later, is taken at the peer that it is
-- made out to, on a channel that is named without spaces round it; the peer is then one of those
-- that are invited.
pub create_signed_invite-accepted :
    (platform : Platform) (node : Node) (now : ℕ) (sign : Value → String) (o : InviteOptions)
    → IsKey o.invitee_pub_key
    → IsKey o.inviter_pub_key
    → IsSigner platform sign o.inviter_pub_key
    → is_trusted node o.inviter_pub_key ≡ true
    → is_finite o.issued_at ≡ true
    → is_live now (some (expiry_of o)) ≡ true
    → ((verify_invite platform node now
          (create_signed_invite sign o)
          (trim o.channel)
          o.invitee_pub_key).1
        ≡ true)
      × (is_live now (
            (verify_invite platform node now
                (create_signed_invite sign o)
                (trim o.channel)
                o.invitee_pub_key).0.invited
              (trim o.channel)
              o.invitee_pub_key)
          ≡ true)
create_signed_invite-accepted platform node now sign o invitee inviter signer trusted issued live =
    let e = verify-invite_of platform node now sign o invitee inviter signer trusted issued live in
    let taken =
      verify_invite-some platform node now (create_signed_invite sign o) (trim o.channel)
        o.invitee_pub_key e in
    rw taken
      (refl, remember_invite-live node now (trim o.channel) o.invitee_pub_key (expiry_of o) live)
