-- ===== src/Sidechannel/Node.antt =====
-- features/sidechannel/index.js: the state of a node, and its memory of invites.
use intercom_swap.Prelude.{
  ℕ, String, Bool, true, false, not, ◌&&◌, Option, some, none, List, ◌∷◌, elem, update,
  if◌then◌else◌, str_eq,
}
use intercom_swap.Js.Text.{trim, is_empty}
use intercom_swap.Js.Number.{Num, nat, is_finite, less_eq}
use intercom_swap.Js.Value.{Value}
use intercom_swap.Sidechannel.Settings.{Settings}
use intercom_swap.Sidechannel.Seen.{Seen}
use intercom_swap.Sidechannel.Rate.{Limiter}
use intercom_swap.Sidechannel.Rules.{invite_required}

-- A connection: _getRemoteKey of it, and the channels that have a message session there.
pub record Connection : Type 0 where
  pub id : ℕ
  pub remote_key : String
  pub open_channels : List String

pub record Node : Type 0 where
  pub seen : Seen
  pub limiters : ℕ → Option Limiter
  pub inviter_keys : Option (List String)
  pub invited : String → String → Option Num
  pub local_invites : String → Option Num
  pub local_invite_objects : String → Option Value
  pub welcomed_channels : List String
  pub welcome_by_channel : String → Option Value
  pub channels : List String
  pub connections : List Connection

-- this.inviterKeys && this.inviterKeys.has(key)
abbrev pub is_inviter : Node → String → Bool
is_inviter node key = elim node.inviter_keys [ none ↦ false | some keys ↦ elem key keys ]

-- selfKey && this.inviterKeys.has(selfKey)
unfoldable pub self_is_inviter : Settings → Node → Bool
self_is_inviter settings node = elim settings.self_key [
  | none ↦ false
  | some key ↦ not (is_empty key) && is_inviter node key
]

-- An expiry that is a finite number and not reached.
unfoldable pub is_live : ℕ → Option Num → Bool
is_live now none = false
is_live now (some expires_at) = is_finite expires_at && not (less_eq expires_at (nat now))

abbrev pub set_invited : Node → String → String → Option Num → Node
set_invited node channel key expires_at = record node {
  invited = λ other.
      if str_eq channel other
      then update (node.invited channel) key expires_at
      else node.invited other;
}

-- _isInvited: an invite that has run out is forgotten.
unfoldable pub is_invited : Node → String → String → ℕ → Node × Bool
unfolding is_live
is_invited node channel key now =
    if is_live now (node.invited channel key)
    then (node, true)
    else (set_invited node channel key none, false)

-- _rememberInvite
unfoldable pub remember_invite : Node → String → String → Num → Node
remember_invite node channel key expires_at =
    if is_finite expires_at then set_invited node channel key (some expires_at) else node

-- _rememberLocalInvite
unfoldable pub remember_local_invite : Node → String → Num → Node
unfolding trim
remember_local_invite node channel expires_at =
    if is_finite expires_at
    then record node { local_invites = update node.local_invites (trim channel) (some expires_at) }
    else node

-- _isLocallyInvited
unfoldable pub is_locally_invited : Node → String → ℕ → Node × Bool
unfolding is_live trim
is_locally_invited node channel now =
    if is_live now (node.local_invites (trim channel))
    then (node, true)
    else (record node { local_invites = update node.local_invites (trim channel) none }, false)

-- selfIsInviter || this._isLocallyInvited(channel)
unfoldable pub may_join : Settings → Node → String → ℕ → Node × Bool
unfolding self_is_inviter is_locally_invited
may_join settings node channel now =
    if self_is_inviter settings node then (node, true) else is_locally_invited node channel now

-- _isWelcomed
unfoldable pub is_welcomed : Node → String → Bool
unfolding trim
is_welcomed node channel = elem (trim channel) node.welcomed_channels

-- _rememberWelcome
unfoldable pub remember_welcome : Node → String → Node
unfolding trim
remember_welcome node channel =
    if elem (trim channel) node.welcomed_channels
    then node
    else record node { welcomed_channels = trim channel ∷ node.welcomed_channels }

-- _registerChannel; whether there is an entry for the channel afterwards.
unfoldable pub register_channel : Settings → Node → String → ℕ → Node × Bool
unfolding may_join trim invite_required
register_channel settings node name now =
    let channel = trim name in
    if is_empty channel
    then (node, false)
    else if elem channel node.channels
    then (node, true)
    else if invite_required settings channel
    then (let (node', allowed) = may_join settings node channel now in
        if allowed
        then (record node' { channels = channel ∷ node'.channels }, true)
        else (node', false))
    else (record node { channels = channel ∷ node.channels }, true)

-- _remoteAuthorized
unfoldable pub remote_authorized : Settings → Node → String → String → ℕ → Node × Bool
unfolding is_invited invite_required
remote_authorized settings node channel remote_key now =
    if not (invite_required settings channel)
    then (node, true)
    else if is_inviter node remote_key
    then (node, true)
    else is_invited node channel remote_key now
