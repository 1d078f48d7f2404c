-- ===== src/Sidechannel/Channels/Removed.antt =====
-- What removeChannel of features/sidechannel/index.js leaves of a channel.
use intercom_swap.Prelude.{
  String, ◌≡◌, refl, Bool, true, false, Option, none, List, [], ◌∷◌, elem, ◌||◌, str_eq, eq_iff,
  arith,
}
use intercom_swap.Js.Text.{trim}
use intercom_swap.Js.Number.{Num}
use intercom_swap.Sidechannel.Settings.{Settings}
use intercom_swap.Sidechannel.Node.{Node, Connection, is_welcomed}
use intercom_swap.Sidechannel.Channels.{remove, close_sessions, forget_channel, remove_channel}
use intercom_swap.Js.Value.{Value}
use intercom_swap.Protocol.SignedMessage.Signed.{str_eq_self}

elem-remove : (s : String) (ts : List String) → elem s (remove s ts) ≡ false
unfolding remove
elem-remove s [] = refl
elem-remove s (t ∷ ts) = ground (arith, elem-remove s ts)

elem-remove_other :
    (s other : String) (ts : List String)
    → str_eq s other ≡ false
    → elem other (remove s ts) ≡ elem other ts
unfolding remove
elem-remove_other s other [] n = refl
elem-remove_other s other (t ∷ ts) n =
    ground (arith, elem-remove_other s other ts n, eq_iff t s, eq_iff t other)

-- Whether a session for the channel is open on any connection.
abbrev pub any_session : String → List Connection → Bool
any_session channel [] = false
any_session channel (c ∷ cs) = elem channel c.open_channels || any_session channel cs

any_session-close_sessions :
    (channel : String) (cs : List Connection)
    → any_session channel (close_sessions channel cs) ≡ false
unfolding close_sessions
any_session-close_sessions channel [] = refl
any_session-close_sessions channel (c ∷ cs) =
    ground (arith, elem-remove channel c.open_channels, any_session-close_sessions channel cs)

any_session-other :
    (channel other : String) (cs : List Connection)
    → str_eq channel other ≡ false
    → any_session other (close_sessions channel cs) ≡ any_session other cs
unfolding close_sessions
any_session-other channel other [] n = refl
any_session-other channel other (c ∷ cs) n =
    ground (
      arith,
      elem-remove_other channel other c.open_channels n,
      any_session-other channel other cs n,
    )

-- What a node knows of a channel: whether it is in it and welcomed there, whom it has invited, its
-- own invite, and whether a session is open.
pub record Knowledge : Type 0 where
  pub joined : Bool
  pub welcomed : Bool
  pub session : Bool
  pub peer_invite : Option Num
  pub own_invite : Option Num
  pub own_invite_object : Option Value
  pub welcome : Option Value

-- With the invite of the peer that has the key
abbrev pub knowledge : Node → String → String → Knowledge
knowledge node channel key = record {
  joined = elem channel node.channels;
  welcomed = is_welcomed node channel;
  session = any_session channel node.connections;
  peer_invite = node.invited channel key;
  own_invite = node.local_invites (trim channel);
  own_invite_object = node.local_invite_objects (trim channel);
  welcome = node.welcome_by_channel (trim channel);
}

abbrev pub nothing_known : Knowledge
nothing_known = record {
  joined = false;
  welcomed = false;
  session = false;
  peer_invite = none;
  own_invite = none;
  own_invite_object = none;
  welcome = none;
}

-- After a channel was removed the node knows nothing of it, whichever peer is asked for, and knows
-- of each other channel what it knew before, where the two are different names without the spaces round them.
pub remove_channel-forgets :
    (settings : Settings) (node : Node) (name other key : String)
    → (remove_channel settings node name).1 ≡ true
    → str_eq (trim name) other ≡ false
    → str_eq (trim (trim name)) (trim other) ≡ false
    → (knowledge (remove_channel settings node name).0 (trim name) key ≡ nothing_known)
      × (knowledge (remove_channel settings node name).0 other key ≡ knowledge node other key)
unfolding remove_channel forget_channel is_welcomed
remove_channel-forgets settings node name other key h n m =
    let channel = trim name in
    let gone : (remove_channel settings node name).0 ≡ forget_channel node channel = ground arith in
    (
      rw
          (
            gone,
            elem-remove channel node.channels,
            elem-remove (trim channel) node.welcomed_channels,
            any_session-close_sessions channel node.connections,
            str_eq_self channel,
            str_eq_self (trim channel),
          )
          refl,
      rw
          (
            gone,
            elem-remove_other channel other node.channels n,
            elem-remove_other (trim channel) (trim other) node.welcomed_channels m,
            any_session-other channel other node.connections n,
            n,
            m,
          )
          refl,
    )
