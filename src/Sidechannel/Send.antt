-- ===== src/Sidechannel/Send.antt =====
-- features/sidechannel/index.js: _attachPow, _attachSig, _buildPayload, broadcast, _sendWelcome and
-- _sendAuth. The sessions of a connection are those that it has when the message is sent.
pub mod Work
pub mod Accepted
use intercom_swap.Prelude.{
  ℕ, String, Bool, true, false, not, ◌&&◌, ◌||◌, Option, some, none, List, [], ◌∷◌, elem, ltb,
  if◌then◌else◌, str_eq,
}
use mathlib.Core.Option.{map}
use intercom_swap.Js.Text.{concat, trim, to_lower, is_empty}
use intercom_swap.Js.Number.{nat, num_text}
use intercom_swap.Js.Value.{
  Value, Fields, null, str, num, obj, field, end, ◌!◌, truthy, to_text, is_reference,
}
use intercom_swap.Protocol.Stringify.{stable_stringify}
use intercom_swap.Protocol.SignedMessage.{with_field}
use intercom_swap.Sidechannel.Settings.{Settings}
use intercom_swap.Sidechannel.Seen.{remember_seen}
use intercom_swap.Sidechannel.Keys.{Platform, or_else}
use intercom_swap.Sidechannel.Rules.{pow_required, owner_write_only, get_owner_key, invite_required}
use intercom_swap.Sidechannel.Pow.{find_nonce}
use intercom_swap.Sidechannel.Sign.{sig_payload}
use intercom_swap.Sidechannel.Node.{
  Node, Connection, register_channel, remote_authorized, self_is_inviter, is_locally_invited,
}
use intercom_swap.Sidechannel.Welcome.{verify_welcome}
use intercom_swap.Sidechannel.Invite.{accept_local_invite}
use intercom_swap.Sidechannel.Receive.{Effect, send, key_or_null}

-- What the code calls of the wallet, of the clock and of Math.random: `sign` gives the hex of a
-- signature, or none where the wallet does not sign. `fuel` is the number of nonces that are tried.
pub record Sender : Type 0 where
  pub sign : String → Option String
  pub random : String
  pub now : ℕ
  pub fuel : ℕ

-- _attachPow
unfoldable pub attach_pow : Settings → Platform → ℕ → String → Fields → Option Fields
attach_pow settings platform fuel channel payload =
    if pow_required settings channel
    then elim (find_nonce settings platform (obj payload) 0 fuel) [
      | none ↦ none
      | some nonce ↦ some (
          with_field "pow"
            (obj (
              field "nonce" (num (nat nonce))
                (field "difficulty" (num (nat settings.pow_difficulty)) end)))
            payload)
    ]
    else some payload

-- _attachSig
unfoldable pub attach_sig : Platform → Sender → Fields → Fields
attach_sig platform sender payload =
    elim (sender.sign (stable_stringify (sig_payload platform (obj payload)))) [
      | none ↦ payload
      | some sig ↦
          if is_empty (trim sig)
          then payload
          else with_field "sig" (str (to_lower (trim sig))) payload
    ]

abbrev self_name : Option String → String
self_name none = "anon"
self_name (some key) = key

abbrev pub new_id : Settings → Sender → String
new_id settings sender =
    concat (self_name settings.self_key)
      (concat ":" (concat (num_text (nat sender.now)) (concat ":" sender.random)))

-- The message before the proof of work and the signature.
unfoldable pub new_payload : Settings → Sender → String → Value → Value → Fields
new_payload settings sender channel message invite =
    let last = if truthy invite then field "invite" invite end else end in
    field "type" (str "sidechannel") (
      field "id" (str (new_id settings sender)) (
        field "channel" (str channel) (
          field "from" (key_or_null settings.self_key) (
            field "origin" (key_or_null settings.self_key) (
              field "message" message (
                field "ts" (num (nat sender.now))
                  (field "ttl" (num (nat settings.relay_ttl)) last)))))))

-- _buildPayload
unfoldable pub build_payload : Settings → Platform → Sender → String → Value → Value → Option Value
unfolding new_payload attach_sig
build_payload settings platform sender channel message invite =
    elim (attach_pow settings platform sender.fuel channel
      (new_payload settings sender channel message invite)) [
        | none ↦ none
        | some payload ↦ some (obj (attach_sig platform sender payload))
      ]

-- Whether the message is the handshake, which goes to peers that are not yet authorized.
abbrev pub is_auth : Value → Bool
is_auth message =
    is_reference message && str_eq (to_text (or_else (message ! "control") (str ""))) "auth"

-- ownerKey && selfKey && ownerKey === selfKey
unfoldable pub self_is_owner : Settings → String → Bool
self_is_owner settings channel = elim (get_owner_key settings channel) [
  | none ↦ false
  | some owner ↦ elim settings.self_key [
    | none ↦ false
    | some self ↦ not (is_empty owner) && not (is_empty self) && str_eq owner self
  ]
]

-- The loop of broadcast over the connections.
unfoldable pub send_to :
    Settings → ℕ → String → Bool → Value → List Connection → Node → Node × List Effect
send_to settings now channel to_all payload [] node = (node, [])
send_to settings now channel to_all payload (c ∷ cs) node =
    let (node', authorized) =
      if to_all then (node, true) else remote_authorized settings node channel c.remote_key now in
    let (node'', sent) = send_to settings now channel to_all payload cs node' in
    if authorized && elem channel c.open_channels
    then (node'', send c.id channel payload ∷ sent)
    else (node'', sent)

-- The invite that goes with a message is one for this node too.
unfoldable pub take_invite : Settings → Platform → Node → ℕ → Value → String → Node
take_invite settings platform node now invite channel =
    let accepted = (accept_local_invite settings platform node now invite channel).0 in
    if not (truthy invite)
    then node
    else if truthy (invite ! "welcome")
    then (verify_welcome settings platform accepted (invite ! "welcome") channel).0
    else accepted

-- The end of broadcast, with the message that was built
unfoldable pub send_payload :
    Settings → Platform → Node → ℕ → String → Bool → Value → Node × List Effect × Bool
send_payload settings platform node now channel to_all payload =
    let seen = (remember_seen settings (payload ! "id") now node.seen).0 in
    let (node', sent) =
      send_to settings now channel to_all payload node.connections (record node { seen = seen }) in
    if ltb settings.max_message_bytes (platform.byte_size payload)
    then (node, [], false)
    else (node', sent, true)

-- broadcast; none where no nonce was found.
unfoldable pub broadcast :
    Settings
    → Platform
    → Sender
    → Node
    → String
    → Value
    → Value
    → Option (Node × List Effect × Bool)
broadcast settings platform sender node name message invite =
    let channel = trim name in
    let (node', registered) =
      register_channel settings (take_invite settings platform node sender.now invite channel)
        channel sender.now in
    if is_empty channel
    then some (node, [], false)
    else if owner_write_only settings channel
        && not (is_auth message)
        && not (self_is_owner settings channel)
    then some (node, [], false)
    else if not registered
    then some (node', [], false)
    else map (send_payload settings platform node' sender.now channel (is_auth message))
        (build_payload settings platform sender channel message invite)

-- A control message is remembered and sent on one connection.
unfoldable pub send_control : Settings → Node → ℕ → Connection → String → Value → Node × List Effect
send_control settings node now c channel payload = (
  record node { seen = (remember_seen settings (payload ! "id") now node.seen).0 },
  send c.id channel payload ∷ [],
)

-- _sendWelcome, on the session of a connection for the channel; none where no nonce was found.
unfoldable pub send_welcome :
    Settings → Platform → Sender → Node → Connection → String → Option (Node × List Effect)
send_welcome settings platform sender node c channel =
    elim (node.welcome_by_channel (trim channel)) [
      | none ↦ some (node, [])
      | some welcome ↦
          let (node', authorized) =
            remote_authorized settings node channel c.remote_key sender.now in
          if not (self_is_owner settings channel)
          then some (node, [])
          else if not authorized
          then some (node', [])
          else map (send_control settings node' sender.now c channel) (
              build_payload settings platform sender channel
                (obj (field "control" (str "welcome") (field "welcome" welcome end))) null)
    ]

-- _sendAuth, on a session on which it was not sent before
unfoldable pub send_auth :
    Settings → Platform → Sender → Node → Connection → String → Option (Node × List Effect)
send_auth settings platform sender node c channel =
    let (node', invited) = is_locally_invited node channel sender.now in
    if not (invite_required settings channel)
    then some (node, [])
    else if self_is_inviter settings node
    then some (node, [])
    else if not invited
    then some (node', [])
    else elim (node'.local_invite_objects (trim channel)) [
      | none ↦ some (node', [])
      | some invite ↦ map (send_control settings node' sender.now c channel) (
          build_payload settings platform sender channel
            (obj (field "control" (str "auth") (field "invite" invite end))) null)
    ]
