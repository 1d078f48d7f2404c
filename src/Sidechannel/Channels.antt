-- ===== src/Sidechannel/Channels.antt =====
-- features/sidechannel/index.js: addChannel, removeChannel, acceptInvite, addInviterKey and
-- requestOpen. What removeChannel closes on the connections is their sessions for the channel.
pub mod Removed
use intercom_swap.Prelude.{
  ℕ, String, Bool, true, false, ◌&&◌, Option, some, none, List, [], ◌∷◌, elem, update,
  if◌then◌else◌, str_eq, ◌==◌, ltb, leb, list_length, not,
}
use intercom_swap.Js.Text.{trim, is_empty, every, codes}
use intercom_swap.Js.Value.{Value, undefined, null, str, obj, field, end, ◌!◌, truthy}
use intercom_swap.Sidechannel.Settings.{Settings}
use intercom_swap.Sidechannel.Keys.{Platform, normalize_key_hex, or_else}
use intercom_swap.Sidechannel.Rules.{is_entry}
use intercom_swap.Sidechannel.Node.{Node, Connection, register_channel}
use intercom_swap.Sidechannel.Welcome.{verify_welcome}
use intercom_swap.Sidechannel.Invite.{accept_local_invite}
use intercom_swap.Sidechannel.Receive.{Effect, join}
use intercom_swap.Sidechannel.Send.{Sender, broadcast, take_invite}

-- addChannel, on a node that is started
unfoldable pub add_channel : Settings → Node → String → ℕ → Node × List Effect × Bool
add_channel settings node name now =
    let (node', registered) = register_channel settings node name now in
    if registered then (node', join (trim name) ∷ [], true) else (node', [], false)

unfoldable pub remove : String → List String → List String
remove channel [] = []
remove channel (other ∷ others) =
    let rest = remove channel others in if str_eq other channel then rest else other ∷ rest

abbrev pub close_session : String → Connection → Connection
unfolding remove
close_session channel c = record c { open_channels = remove channel c.open_channels }

unfoldable pub close_sessions : String → List Connection → List Connection
unfolding close_session
close_sessions channel [] = []
close_sessions channel (c ∷ cs) = close_session channel c ∷ close_sessions channel cs

-- The state that removeChannel drops
unfoldable pub forget_channel : Node → String → Node
unfolding remove close_sessions trim
forget_channel node channel = record node {
  channels = remove channel node.channels;
  invited = λ other. if str_eq channel other then (λ key. none) else node.invited other;
  local_invites = update node.local_invites (trim channel) none;
  local_invite_objects = update node.local_invite_objects (trim channel) none;
  welcome_by_channel = update node.welcome_by_channel (trim channel) none;
  welcomed_channels = remove (trim channel) node.welcomed_channels;
  connections = close_sessions channel node.connections;
}

-- removeChannel
unfoldable pub remove_channel : Settings → Node → String → Node × Bool
unfolding trim is_entry forget_channel
remove_channel settings node name =
    let channel = trim name in
    if is_empty channel
    then (node, false)
    else if is_entry settings channel
    then (node, false)
    else if elem channel node.channels
    then (forget_channel node channel, true)
    else (node, false)

-- acceptInvite
unfoldable pub accept_invite : Settings → Platform → Node → ℕ → String → Value → Value → Node × Bool
accept_invite settings platform node now name invite welcome =
    let channel = trim name in
    let node' = take_invite settings platform node now invite channel in
    if is_empty channel
    then (node, false)
    else if truthy welcome
    then ((verify_welcome settings platform node' welcome channel).0, true)
    else (node', true)

-- /^[0-9a-f]{64}$/
is_lower_hex : ℕ → Bool
is_lower_hex c = if ltb c b'0' then false else if leb c b'9' then true else leb b'a' c && leb c b'f'

-- addInviterKey, with the key and whether it is new; none is the error.
unfoldable pub add_inviter_key : Platform → Node → Value → Node × Option (String × Bool)
unfolding is_lower_hex
add_inviter_key platform node value = elim (normalize_key_hex platform value) [
  | none ↦ (node, none)
  | some key ↦
      if list_length (codes key) == 64 && every is_lower_hex (codes key)
      then (
        record node {
          inviter_keys = some (elim node.inviter_keys [
            | none ↦ key ∷ []
            | some keys ↦ if elem key keys then keys else key ∷ keys
          ]);
        },
        some (key, elim node.inviter_keys [ none ↦ true | some keys ↦ not (elem key keys) ]),
      )
      else (node, none)
]

abbrev or_undefined : Value → Value
or_undefined v = if truthy v then v else undefined

open_request : String → Value → Value → Value
open_request target invite welcome = obj (
    field "control" (str "open_channel") (
      field "channel" (str target)
        (field "invite" (or_undefined invite) (field "welcome" (or_undefined welcome) end))))

-- requestOpen, by the channel `via`; an empty one stands for the entry channel.
unfoldable pub request_open :
    Settings
    → Platform
    → Sender
    → Node
    → String
    → String
    → Value
    → Value
    → Option (Node × List Effect × Bool)
unfolding open_request
request_open settings platform sender node name via invite welcome =
    let target = trim name in
    let channel = trim (
      if is_empty via
      then elim settings.entry_channel [ none ↦ "" | some entry ↦ entry ]
      else via) in
    let desired = or_else welcome (invite ! "welcome") in
    let accepted =
      if truthy invite
      then (accept_local_invite settings platform node sender.now invite target).0
      else node in
    let welcomed =
      if truthy desired
      then (verify_welcome settings platform accepted desired target).0
      else accepted in
    if is_empty target
    then some (node, [], false)
    else if is_empty channel
    then some (node, [], false)
    else broadcast settings platform sender welcomed channel (open_request target invite desired)
        null
