-- ===== src/Sidechannel/Receive/Replay.antt =====
-- A message that comes again, in the onmessage handler of features/sidechannel/index.js.
use intercom_swap.Prelude.{ℕ, String, ◌≡◌, ◌∙◌, List, [], ◌∷◌, ◌≤◌}
use intercom_swap.Js.Value.{Value}
use intercom_swap.Sidechannel.Settings.{Settings}
use intercom_swap.Sidechannel.Keys.{Platform}
use intercom_swap.Sidechannel.Node.{Node, Connection}
use intercom_swap.Sidechannel.Receive.{receive}
use intercom_swap.Sidechannel.Receive.Passed.{rated_node}
use intercom_swap.Sidechannel.Receive.Kept.{check_invite-seen, check_rate_of-seen}

-- A message on a channel, by a connection, at a time.
pub record Arrival : Type 0 where
  pub at : ℕ
  pub payload : Value
  pub channel : String
  pub connection : Connection

abbrev pub arrive : Settings → Platform → Arrival → Node → Node
arrive settings platform a node =
    (receive settings platform node a.at a.payload a.channel a.connection).0

-- The messages that come one after another.
abbrev pub receive_all : Settings → Platform → List Arrival → Node → Node
receive_all settings platform [] node = node
receive_all settings platform (a ∷ arrivals) node =
    receive_all settings platform arrivals (arrive settings platform a node)

abbrev pub ArriveBy : ℕ → List Arrival → Type 0
ArriveBy limit [] = Unit
ArriveBy limit (a ∷ arrivals) = (a.at ≤ limit) × ArriveBy limit arrivals

-- The ids when a message is at the test of its id are those of before.
rated_node-seen :
    (settings : Settings) (platform : Platform) (node : Node) (now : ℕ) (payload : Value)
    (channel : String) (c : Connection)
    → (rated_node settings platform node now payload channel c).seen ≡ node.seen
rated_node-seen settings platform node now payload channel c =
    check_rate_of-seen settings platform now _ payload c.id
    ∙ check_invite-seen settings platform now node payload channel c.remote_key
