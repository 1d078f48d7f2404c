-- ===== src/Sidechannel/Invite.antt =====
-- features/sidechannel/index.js: the invites to a channel.
use intercom_swap.Prelude.{
  ℕ, String, Bool, true, false, not, ◌&&◌, ◌||◌, Option, some, none, elem, update, if◌then◌else◌,
  str_eq,
}
use intercom_swap.Js.Text.{trim, is_empty}
use intercom_swap.Js.Number.{Num, nat, is_finite, less_eq}
use intercom_swap.Js.Parse.{coalesce}
use intercom_swap.Js.Value.{
  Value, null, num, str, obj, field, end, ◌!◌, is_reference, to_text, to_number, truthy,
}
use intercom_swap.Sidechannel.Settings.{Settings}
use intercom_swap.Sidechannel.Keys.{
  Platform, key_text, payload_of, signature_of, or_else, version_of, is_verified,
}
use intercom_swap.Sidechannel.Rules.{invite_required}
use intercom_swap.Sidechannel.Node.{
  Node, is_inviter, is_invited, remember_invite, remember_local_invite, may_join,
}
use intercom_swap.Sidechannel.Welcome.{verify_welcome}

pub record Invite : Type 0 where
  pub channel : String
  pub invitee_pub_key : String
  pub inviter_pub_key : String
  pub inviter_address : Value
  pub issued_at : Num
  pub expires_at : Num
  pub nonce : String
  pub version : Num

-- The object that is signed.
abbrev pub invite_value : Invite → Value
invite_value i = obj (
    field "channel" (str i.channel) (
      field "inviteePubKey" (str i.invitee_pub_key) (
        field "inviterPubKey" (str i.inviter_pub_key) (
          field "inviterAddress" i.inviter_address (
            field "issuedAt" (num i.issued_at) (
              field "expiresAt" (num i.expires_at)
                (field "nonce" (str i.nonce) (field "version" (num i.version) end))))))))

-- _normalizeInvitePayload
unfoldable pub normalize_invite_payload : Platform → Value → Invite
normalize_invite_payload platform payload = record {
  channel = to_text (coalesce (payload ! "channel") (str ""));
  invitee_pub_key = key_text platform (payload ! "inviteePubKey");
  inviter_pub_key = key_text platform (payload ! "inviterPubKey");
  inviter_address = coalesce (payload ! "inviterAddress") null;
  issued_at = to_number (payload ! "issuedAt");
  expires_at = to_number (payload ! "expiresAt");
  nonce = to_text (coalesce (payload ! "nonce") (str ""));
  version = version_of (payload ! "version");
}

-- !this.inviterKeys || this.inviterKeys.has(key)
abbrev pub is_trusted : Node → String → Bool
is_trusted node key = elim node.inviter_keys [ none ↦ true | some keys ↦ elem key keys ]

-- The tests of _verifyInviteForKey, on the normalized payload
unfoldable pub is_valid_invite :
    Platform → Node → ℕ → Value → Invite → String → String → Bool → Bool
is_valid_invite platform node now invite i channel invitee trusted =
    is_reference invite
    && str_eq i.channel channel
    && str_eq i.invitee_pub_key invitee
    && not (is_empty i.inviter_pub_key)
    && (not trusted || is_trusted node i.inviter_pub_key)
    && is_finite i.issued_at
    && is_finite i.expires_at
    && not (less_eq i.expires_at (nat now))
    && is_verified platform (signature_of invite) (invite_value i) i.inviter_pub_key

-- _verifyInviteForKey; `trusted` is requireTrustedInviter.
unfoldable pub verify_invite_for_key :
    Platform → Node → ℕ → Value → String → String → Bool → Option Invite
unfolding is_valid_invite
verify_invite_for_key platform node now invite channel invitee trusted =
    let i = normalize_invite_payload platform (payload_of invite) in
    if is_valid_invite platform node now invite i channel invitee trusted then some i else none

-- _verifyInvite, for a remote key
unfoldable pub verify_invite : Platform → Node → ℕ → Value → String → String → Node × Bool
unfolding verify_invite_for_key
verify_invite platform node now invite channel remote_key =
    elim (verify_invite_for_key platform node now invite channel remote_key true) [
      | none ↦ (node, false)
      | some i ↦ (remember_invite node channel remote_key i.expires_at, true)
    ]

-- The rest of _acceptLocalInvite, with a valid invite
unfoldable pub keep_local_invite : Settings → Platform → Node → Value → Invite → String → Node
unfolding trim
keep_local_invite settings platform node invite i channel =
    let node' =
      remember_invite (remember_local_invite node channel i.expires_at) channel i.inviter_pub_key
        i.expires_at in
    let kept = record node' {
      local_invite_objects = update node'.local_invite_objects (trim channel) (some invite);
    } in
    if truthy (invite ! "welcome")
    then (verify_welcome settings platform kept (invite ! "welcome") channel).0
    else kept

-- _acceptLocalInvite: any inviter will do for an invite to this node.
unfoldable pub accept_local_invite : Settings → Platform → Node → ℕ → Value → String → Node × Bool
accept_local_invite settings platform node now invite channel = elim settings.self_key [
  | none ↦ (node, false)
  | some self ↦ elim (verify_invite_for_key platform node now invite channel self false) [
    | none ↦ (node, false)
    | some i ↦ (keep_local_invite settings platform node invite i channel, true)
  ]
]

-- The part of _checkInvite about the remote peer
unfoldable pub check_remote_invite : Platform → Node → ℕ → Value → String → String → Node × Bool
check_remote_invite platform node now payload channel remote_key =
    let (node', invited) = is_invited node channel remote_key now in
    let invite = or_else (payload ! "invite") (payload ! "message" ! "invite") in
    if is_inviter node remote_key
    then (node, true)
    else if invited
    then (node', true)
    else if truthy invite
    then verify_invite platform node' now invite channel remote_key
    else (node', false)

-- _checkInvite
unfoldable pub check_invite : Settings → Platform → Node → ℕ → Value → String → String → Node × Bool
check_invite settings platform node now payload channel remote_key =
    let (node', allowed) = may_join settings node channel now in
    if not (invite_required settings channel)
    then (node, true)
    else if allowed
    then check_remote_invite platform node' now payload channel remote_key
    else (node', false)
