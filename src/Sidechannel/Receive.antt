-- ===== src/Sidechannel/Receive.antt =====
-- features/sidechannel/index.js: the onmessage handler of _openChannelForConnection, and _relay.
-- The clock `now` stands still while one message is handled.
pub mod Passed
pub mod OwnerOnly
pub mod Kept
pub mod Replay
pub mod Invited
pub mod Relays
use intercom_swap.Prelude.{
  ℕ, suc, zero, ◌-◌, ◌==◌, String, Bool, true, false, not, ◌&&◌, ◌||◌, Option, some, none, List, [],
  ◌∷◌, ◌++◌, elem, ltb, if◌then◌else◌, str_eq,
}
use intercom_swap.Js.Text.{concat, trim, is_empty}
use intercom_swap.Js.Number.{Num, nat, less_eq, plus, neg, is_finite}
use intercom_swap.Js.Parse.{coalesce}
use intercom_swap.Js.Value.{
  Value, Fields, null, num, str, obj, end, ◌!◌, truthy, to_text, is_text, is_present,
}
use intercom_swap.Protocol.SignedMessage.{with_field}
use intercom_swap.Sidechannel.Settings.{Settings}
use intercom_swap.Sidechannel.Seen.{remember_seen}
use intercom_swap.Sidechannel.Rate.{Limiter, get_limiter, check_rate}
use intercom_swap.Sidechannel.Keys.{Platform, normalize_key_hex, signature_of, or_else, is_verified}
use intercom_swap.Sidechannel.Rules.{
  invite_required, owner_write_only, get_owner_key, welcome_required,
}
use intercom_swap.Sidechannel.Pow.{check_pow}
use intercom_swap.Sidechannel.Node.{
  Node, Connection, is_welcomed, register_channel, remote_authorized,
}
use intercom_swap.Sidechannel.Welcome.{verify_welcome}
use intercom_swap.Sidechannel.Invite.{check_invite, verify_invite}
use intercom_swap.Sidechannel.Sign.{verify_sig}

-- What a message sets off: a call of onMessage, a line of the log for a requested channel, a join
-- of the swarm, and a message on another connection.
pub data Effect : Type 0 where
  deliver : String → Value → Effect
  request join : String → Effect
  send : ℕ → String → Value → Effect

-- payload?.message?.control
abbrev pub control : Value → Value
control payload = payload ! "message" ! "control"

-- _isBlocked
unfoldable pub is_blocked : Node → ℕ → ℕ → Bool
is_blocked node now connection = elim (node.limiters connection) [
  | none ↦ false
  | some limiter ↦ ltb now limiter.blocked_until
]

-- _checkRate, with the limiter of the connection in the node
unfoldable pub check_rate_of : Settings → Platform → Node → ℕ → Value → ℕ → Node × Bool
check_rate_of settings platform node now payload connection =
    let (limiter, ok) =
      check_rate settings now (platform.byte_size payload)
        (get_limiter settings now (node.limiters connection)) in
    (
      record node {
        limiters = λ other. if connection == other then some limiter else node.limiters other;
      },
      ok,
    )

-- The test of a message on a channel where only the owner writes.
unfoldable pub by_owner : Settings → Platform → Value → String → Bool
by_owner settings platform payload channel = elim (get_owner_key settings channel) [
  | none ↦ false
  | some owner ↦ not (is_empty owner) && elim (normalize_key_hex platform (payload ! "from")) [
    | none ↦ false
    | some author ↦ str_eq author owner && verify_sig platform payload owner
  ]
]

unfoldable pub may_write : Settings → Platform → Value → String → Bool
unfolding by_owner
may_write settings platform payload channel =
    not (owner_write_only settings channel)
    || is_text (control payload) "auth"
    || is_text (control payload) "welcome"
    || by_owner settings platform payload channel

abbrev or_text : Value → String → String
or_text v text = if is_present v then to_text v else text

-- The id by which a message is remembered.
unfoldable pub payload_id : Value → String → Value
payload_id payload channel = coalesce (payload ! "id") (
    str (
      concat (or_text (payload ! "from") "unknown") (
        concat ":" (
          concat (or_text (payload ! "ts") "0")
            (concat ":" (or_text (payload ! "channel") channel))))))

-- _extractWelcome, with `null` for none
abbrev pub extract_welcome : Value → Value
extract_welcome payload = or_else (payload ! "message" ! "welcome") (
    or_else (payload ! "welcome") (
      or_else (payload ! "invite" ! "welcome")
        (or_else (payload ! "message" ! "invite" ! "welcome") null)))

-- The welcome that a message brings, and whether the channel is welcomed now or needs no welcome.
unfoldable pub check_welcome : Settings → Platform → Node → Value → String → Node × Bool
check_welcome settings platform node payload channel =
    let is_welcome = is_text (control payload) "welcome" in
    if truthy (extract_welcome payload)
    then (let (node', ok) =
          verify_welcome settings platform node (extract_welcome payload) channel in
        (
          node',
          ok
              || not is_welcome
                && (not (welcome_required settings channel) || is_welcomed node' channel),
        ))
    else (
      node,
      not is_welcome && (not (welcome_required settings channel) || is_welcomed node channel),
    )

-- _relay: whether a message is relayed, and the copy that is sent
abbrev pub ttl_of : Value → Num
ttl_of (num n) = if is_finite n then n else nat 0
ttl_of _ = nat 0

unfoldable pub is_relayed : Settings → Value → Bool
is_relayed settings payload =
    settings.relay_enabled
    && not (is_text (control payload) "auth" || is_text (control payload) "welcome")
    && not (less_eq (ttl_of (payload ! "ttl")) (nat 0))

unfoldable pub fields_of : Value → Fields
fields_of (obj fs) = fs
fields_of _ = end

abbrev pub key_or_null : Option String → Value
key_or_null none = null
key_or_null (some key) = str key

unfoldable pub relayed : Settings → Value → Value
unfolding fields_of
relayed settings payload = obj (
    with_field "relayedBy" (key_or_null settings.self_key)
      (with_field "ttl" (num (plus (ttl_of (payload ! "ttl")) (neg 0))) (fields_of payload)))

-- The loop of _relay over the connections.
unfoldable pub relay_to :
    Settings → ℕ → String → Value → ℕ → List Connection → Node → Node × List Effect
relay_to settings now channel copy origin [] node = (node, [])
relay_to settings now channel copy origin (c ∷ cs) node =
    let (node', authorized) =
      if c.id == origin
      then (node, false)
      else remote_authorized settings node channel c.remote_key now in
    let (node'', sent) = relay_to settings now channel copy origin cs node' in
    if authorized && elem channel c.open_channels
    then (node'', send c.id channel copy ∷ sent)
    else (node'', sent)

unfoldable pub relay : Settings → Node → ℕ → Value → String → ℕ → Node × List Effect
relay settings node now payload channel origin =
    if is_relayed settings payload
    then relay_to settings now channel (relayed settings payload) origin node.connections node
    else (node, [])

-- What is done, then the relay.
abbrev then_relay : Settings → Node → ℕ → Value → String → ℕ → List Effect → Node × List Effect
then_relay settings node now payload channel origin effects =
    let (node', sent) = relay settings node now payload channel origin in (node', effects ++ sent)

-- The welcome and the invite that a request to open a channel brings; both have to be valid where
-- they are needed.
unfoldable pub check_open : Settings → Platform → Node → ℕ → Value → String → String → Node × Bool
check_open settings platform node now payload target remote_key =
    let message = payload ! "message" in
    let welcome = or_else (message ! "welcome") (message ! "invite" ! "welcome") in
    let (node', welcome_ok) =
      if truthy welcome
      then verify_welcome settings platform node welcome target
      else (node, not (welcome_required settings target)) in
    if not welcome_ok
    then (node', false)
    else if not (invite_required settings target)
    then (node', true)
    else if truthy (message ! "invite")
    then verify_invite platform node' now (message ! "invite") target remote_key
    else (node', false)

open_target : Value → Option String
open_target (str s) = some (trim s)
open_target _ = none

-- A request to open a channel that is allowed, on a node that is started.
unfoldable pub opened : Settings → Node → ℕ → String → Node × List Effect
opened settings node now target =
    if settings.auto_join_on_open
    then (let (node', joined) = register_channel settings node target now in
        (node', if joined then join target ∷ [] else []))
    else (node, request target ∷ [])

unfoldable pub handle_open :
    Settings → Platform → Node → ℕ → Value → String → Connection → String → Node × List Effect
handle_open settings platform node now payload channel c target =
    let (node', ok) = check_open settings platform node now payload target c.remote_key in
    let (node'', effects) = opened settings node' now target in
    if is_empty target
    then then_relay settings node now payload channel c.id []
    else if ok
    then then_relay settings node'' now payload channel c.id effects
    else (node', [])

-- The messages that pass all checks: a request to open a channel, or one for onMessage.
unfoldable pub handle_accepted :
    Settings → Platform → Node → ℕ → Value → String → Connection → Node × List Effect
unfolding open_target
handle_accepted settings platform node now payload channel c =
    let plain =
      if is_text (control payload) "auth"
      then (node, [])
      else then_relay settings node now payload channel c.id (deliver channel payload ∷ []) in
    if is_text (control payload) "open_channel" && settings.allow_remote_open
    then elim (open_target (payload ! "message" ! "channel")) [
      | some target ↦ handle_open settings platform node now payload channel c target
      | none ↦ plain
    ]
    else plain

-- From the check of the id on.
unfoldable pub accept_new :
    Settings → Platform → Node → ℕ → Value → String → Connection → Node × List Effect
accept_new settings platform node now payload channel c =
    let (seen, duplicate) = remember_seen settings (payload_id payload channel) now node.seen in
    let (node', welcomed) =
      check_welcome settings platform (record node { seen = seen }) payload channel in
    if duplicate
    then (record node { seen = seen }, [])
    else if welcomed
    then handle_accepted settings platform node' now payload channel c
    else (node', [])

-- onmessage
unfoldable pub receive :
    Settings → Platform → Node → ℕ → Value → String → Connection → Node × List Effect
receive settings platform node now payload channel c =
    let (invited_node, invited) =
      check_invite settings platform node now payload channel c.remote_key in
    let (rated_node, in_rate) = check_rate_of settings platform invited_node now payload c.id in
    if is_blocked node now c.id
    then (node, [])
    else if not invited
    then (invited_node, [])
    else if not (check_pow settings platform payload channel)
    then (invited_node, [])
    else if not in_rate
    then (rated_node, [])
    else if not (may_write settings platform payload channel)
    then (rated_node, [])
    else accept_new settings platform rated_node now payload channel c
