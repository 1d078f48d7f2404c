-- ===== src/Sidechannel/Capabilities.antt =====
-- src/sidechannel/capabilities.js: the welcomes and the invites that are signed for a channel.
-- Keys are texts; `sign` is what the caller passes as signHex.
mod Tests
pub mod Accepted
pub mod Welcomed
use intercom_swap.Prelude.{ℕ, String, Bool, true, false, Option, none, some, if◌then◌else◌}
use intercom_swap.Js.Text.{trim, to_lower}
use intercom_swap.Js.Number.{Num, nat, nan, plus, is_finite}
use intercom_swap.Js.Parse.{coalesce, num_max}
use intercom_swap.Js.Value.{
  Value, Fields, null, undefined, num, str, obj, field, end, ◌!◌, truthy, to_text, to_number,
  trimmed, normalize_hex,
}
use intercom_swap.Sidechannel.Keys.{version_of, or_else}
use intercom_swap.Sidechannel.Welcome.{Welcome, welcome_value}
use intercom_swap.Sidechannel.Invite.{Invite, invite_value}

-- normalizeWelcomePayload; normalizeKeyHex is normalizeHex for what is not a buffer.
unfoldable pub welcome_payload : Value → Welcome
welcome_payload payload = record {
  channel = trimmed (payload ! "channel");
  owner_pub_key = normalize_hex (payload ! "ownerPubKey");
  text = to_text (coalesce (payload ! "text") (str ""));
  issued_at = to_number (payload ! "issuedAt");
  version = version_of (payload ! "version");
}

-- normalizeInvitePayload
unfoldable pub invite_payload : Value → Invite
invite_payload payload = record {
  channel = trimmed (payload ! "channel");
  invitee_pub_key = normalize_hex (payload ! "inviteePubKey");
  inviter_pub_key = normalize_hex (payload ! "inviterPubKey");
  inviter_address = coalesce (payload ! "inviterAddress") null;
  issued_at = to_number (payload ! "issuedAt");
  expires_at = to_number (payload ! "expiresAt");
  nonce = to_text (coalesce (payload ! "nonce") (str ""));
  version = version_of (payload ! "version");
}

-- createSignedWelcome
unfoldable pub create_signed_welcome :
    (Value → String) → String → String → Value → Num → Value → Value
unfolding welcome_payload
create_signed_welcome sign channel owner_pub_key text issued_at version =
    let payload = welcome_value (
      welcome_payload (
        obj (
          field "channel" (str channel) (
            field "ownerPubKey" (str owner_pub_key) (
              field "text" text
                (field "issuedAt" (num issued_at) (field "version" version end))))))) in
    obj (field "payload" payload (field "sig" (str (sign payload)) end))

-- What createSignedInvite is given; `random` is the text that Math.random makes.
pub record InviteOptions : Type 0 where
  pub channel : String
  pub invitee_pub_key : String
  pub inviter_pub_key : String
  pub inviter_address : Value
  pub issued_at : Num
  pub expires_at : Value
  pub ttl_ms : Value
  pub nonce : Value
  pub version : Value
  pub random : String
  pub welcome : Value

finite_of : Value → Option Num
finite_of (num n) = if is_finite n then some n else none
finite_of _ = none

-- The time at which the invite runs out: the one that is given, or else the end of its time to live
unfoldable pub expiry_of : InviteOptions → Num
unfolding finite_of
expiry_of o = elim (finite_of o.expires_at) [
  | some at ↦ at
  | none ↦ elim (finite_of o.ttl_ms) [
    | some ttl ↦ plus o.issued_at (num_max ttl (nat 0))
    | none ↦ nan
  ]
]

-- createSignedInvite
unfoldable pub create_signed_invite : (Value → String) → InviteOptions → Value
unfolding invite_payload expiry_of
create_signed_invite sign o =
    let payload = invite_value (
      invite_payload (
        obj (
          field "channel" (str o.channel) (
            field "inviteePubKey" (str o.invitee_pub_key) (
              field "inviterPubKey" (str o.inviter_pub_key) (
                field "inviterAddress" o.inviter_address (
                  field "issuedAt" (num o.issued_at) (
                    field "expiresAt" (num (expiry_of o)) (
                      field "nonce" (or_else o.nonce (str o.random))
                        (field "version" o.version end)))))))))) in
    obj (
      field "payload" payload
        (field "sig" (str (sign payload)) (field "welcome" (or_else o.welcome undefined) end)))
