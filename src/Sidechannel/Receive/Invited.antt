-- ===== src/Sidechannel/Receive/Invited.antt =====
-- What it takes to be heard on a channel of features/sidechannel/index.js that asks for invites.
use intercom_swap.Prelude.{
  ℕ, String, ◌≡◌, ◌≢◌, ◌∙◌, true, false, some, [], Bool-cases, Option-cases, inl, inr, arith,
  str_eq, eq_iff,
}
use intercom_swap.Js.Text.{trim}
use intercom_swap.Js.Value.{Value, ◌!◌, to_text}
use intercom_swap.Protocol.Stringify.{stable_stringify}
use intercom_swap.Sidechannel.Settings.{Settings}
use intercom_swap.Sidechannel.Keys.{Platform, or_else, payload_of, signature_of, is_verified}
use intercom_swap.Sidechannel.Rules.{invite_required}
use intercom_swap.Sidechannel.Node.{
  Node, Connection, is_live, is_inviter, self_is_inviter, is_invited, is_locally_invited, may_join,
}
use intercom_swap.Sidechannel.Invite.{
  invite_value, normalize_invite_payload, is_trusted, is_valid_invite, verify_invite_for_key,
  verify_invite, check_remote_invite, check_invite,
}
use intercom_swap.Sidechannel.Receive.{receive}
use intercom_swap.Sidechannel.Receive.OwnerOnly.{is_verified-true}
use intercom_swap.Sidechannel.Receive.Passed.{receive-IsPassed}

-- This node is an inviter, or has an invite of its own that has not run out.
pub data IsEntitled (settings : Settings) (node : Node) (channel : String) (now : ℕ) : Type 0 where
  inviter :
      {key : String}
      → settings.self_key ≡ some key
      → is_inviter node key ≡ true
      → IsEntitled settings node channel now
  local_invite :
      is_live now (node.local_invites (trim channel)) ≡ true → IsEntitled settings node channel now

-- The invite is for the channel and for the invitee, it has not run out, and the wallet has
-- verified the signature of an inviter that the node trusts.
pub record IsGoodInvite (platform : Platform) (node : Node) (now : ℕ) (invite : Value)
    (channel invitee : String) : Type 0 where
  pub for_channel : (normalize_invite_payload platform (payload_of invite)).channel ≡ channel
  pub for_invitee :
      (normalize_invite_payload platform (payload_of invite)).invitee_pub_key ≡ invitee
  pub trusted :
      is_trusted node (normalize_invite_payload platform (payload_of invite)).inviter_pub_key ≡ true
  pub live :
      is_live now (some (normalize_invite_payload platform (payload_of invite)).expires_at) ≡ true
  pub signed :
      platform.crypto.verify
        (to_text (signature_of invite))
        (stable_stringify (invite_value (normalize_invite_payload platform (payload_of invite))))
        (normalize_invite_payload platform (payload_of invite)).inviter_pub_key
      ≡ some true

-- The peer is an inviter, or has an invite that has not run out, or brings one.
pub data IsInvited (platform : Platform) (node : Node) (now : ℕ) (payload : Value)
    (channel remote_key : String) : Type 0 where
  inviter :
      is_inviter node remote_key ≡ true → IsInvited platform node now payload channel remote_key
  remembered :
      is_live now (node.invited channel remote_key) ≡ true
      → IsInvited platform node now payload channel remote_key
  brought :
      IsGoodInvite platform node now
        (or_else (payload ! "invite") (payload ! "message" ! "invite"))
        channel
        remote_key
      → IsInvited platform node now payload channel remote_key

pub may_join-IsEntitled :
    (settings : Settings) (node : Node) (channel : String) (now : ℕ)
    → (may_join settings node channel now).1 ≡ true
    → IsEntitled settings node channel now
unfolding may_join is_locally_invited self_is_inviter
may_join-IsEntitled settings node channel now h =
    elim (Bool-cases (self_is_inviter settings node)) [
      | inl self ↦ elim (Option-cases settings.self_key) [
        | inl e ↦ let f : false ≡ true = ground (arith, e) in cc
        | inr (key, e) ↦ inviter e (ground (arith, e))
      ]
      | inr other ↦ local_invite (ground arith)
    ]

verify_invite-IsGoodInvite :
    (platform : Platform) (node : Node) (now : ℕ) (invite : Value) (channel key : String)
    → (verify_invite platform node now invite channel key).1 ≡ true
    → IsGoodInvite platform node now invite channel key
unfolding verify_invite verify_invite_for_key is_valid_invite is_live
verify_invite-IsGoodInvite platform node now invite channel key h =
    let i = normalize_invite_payload platform (payload_of invite) in
    let (same, invitee, verified) : (str_eq i.channel channel ≡ true)
        × (str_eq i.invitee_pub_key key ≡ true)
        × (is_verified platform (signature_of invite) (invite_value i) i.inviter_pub_key ≡ true) =
      ground arith in
    record {
      for_channel = (eq_iff i.channel channel).0 same;
      for_invitee = (eq_iff i.invitee_pub_key key).0 invitee;
      trusted = ground arith;
      live = ground arith;
      signed = is_verified-true platform _ _ _ verified;
    }

may_join-kept :
    (settings : Settings) (node : Node) (channel : String) (now : ℕ)
    → ((may_join settings node channel now).0.inviter_keys ≡ node.inviter_keys)
      × ((may_join settings node channel now).0.invited ≡ node.invited)
unfolding may_join is_locally_invited
may_join-kept settings node channel now = ground arith

is_invited-kept :
    (node : Node) (channel key : String) (now : ℕ)
    → (is_invited node channel key now).0.inviter_keys ≡ node.inviter_keys
unfolding is_invited
is_invited-kept node channel key now = ground arith

IsGoodInvite-same :
    {platform : Platform} {node other : Node} {now : ℕ} {invite : Value} {channel key : String}
    → other.inviter_keys ≡ node.inviter_keys
    → IsGoodInvite platform other now invite channel key
    → IsGoodInvite platform node now invite channel key
IsGoodInvite-same e g = record {
  for_channel = g.for_channel;
  for_invitee = g.for_invitee;
  trusted = ground (arith, e, g.trusted);
  live = g.live;
  signed = g.signed;
}

check_invite-IsInvited :
    (settings : Settings) (platform : Platform) (node : Node) (now : ℕ) (payload : Value)
    (channel key : String)
    → invite_required settings channel ≡ true
    → (check_invite settings platform node now payload channel key).1 ≡ true
    → IsEntitled settings node channel now × IsInvited platform node now payload channel key
unfolding check_invite check_remote_invite is_invited
check_invite-IsInvited settings platform node now payload channel key needed h =
    let joined = (may_join settings node channel now).0 in
    let forgot = (is_invited joined channel key now).0 in
    let invite = or_else (payload ! "invite") (payload ! "message" ! "invite") in
    let (same_inviters, same_invited) = may_join-kept settings node channel now in
    let inviters = is_invited-kept joined channel key now ∙ same_inviters in
    let allowed : (may_join settings node channel now).1 ≡ true = ground arith in
    (
      may_join-IsEntitled settings node channel now allowed,
      elim (Bool-cases (is_inviter joined key)) [
        | inl i ↦ inviter (ground (arith, same_inviters))
        | inr other ↦ elim (Bool-cases (is_live now (joined.invited channel key))) [
          | inl live ↦ remembered (rw same_invited at live)
          | inr old ↦ brought (
              IsGoodInvite-same inviters
                (verify_invite-IsGoodInvite platform forgot now invite channel key (ground arith)))
        ]
      ],
    )

-- On a channel that asks for invites, a message sets off something only where this node is an
-- inviter or has an invite of its own that has not run out, and where the peer it comes from is an inviter, or has an
-- invite that is remembered and has not run out, or sends with it one made out to the peer for this channel, which
-- has not run out and which an inviter that the node trusts has signed.
pub receive-IsInvited :
    (settings : Settings) (platform : Platform) (node : Node) (now : ℕ) (payload : Value)
    (channel : String) (c : Connection)
    → invite_required settings channel ≡ true
    → (receive settings platform node now payload channel c).1 ≢ []
    → IsEntitled settings node channel now
      × IsInvited platform node now payload channel c.remote_key
receive-IsInvited settings platform node now payload channel c needed h =
    let (unblocked, invited, worked, rated, write, accepted) =
      receive-IsPassed settings platform node now payload channel c h in
    check_invite-IsInvited settings platform node now payload channel c.remote_key needed invited
