-- ===== src/Sidechannel/Receive/Relays.antt =====
-- Where _relay of features/sidechannel/index.js sends a message on, and for how long.
use intercom_swap.Prelude.{
  ℕ, zero, suc, ◌-◌, ◌≤◌, String, ◌≡◌, ◌≢◌, refl, ap, ◌∙◌, true, false, List, [], ◌∷◌, Bool-cases,
  inl, inr, arith, str_eq, eq_iff, elem, list_length, ◌*◌, ◌==◌,
}
use mathlib.Core.List.{Memᴰ}
use mathlib.Core.List.Memᴰ.{head, tail}
use intercom_swap.Js.Number.{nat, neg, plus, less_eq}
use intercom_swap.Js.Value.{Value, num, ◌!◌}
use intercom_swap.Protocol.SignedMessage.{with_field}
use intercom_swap.Protocol.SignedMessage.Signed.{lookup-with_field, lookup-other}
use intercom_swap.Js.Integers.{of_decimal-whole}
use intercom_swap.Sidechannel.Settings.{Settings}
use intercom_swap.Sidechannel.Rules.{invite_required}
use intercom_swap.Sidechannel.Node.{
  Node, Connection, is_live, is_inviter, is_invited, remote_authorized,
}
use intercom_swap.Sidechannel.Receive.{
  Effect, send, is_relayed, relayed, relay_to, relay, ttl_of, fields_of, key_or_null,
}

-- The channel needs no invite, or the peer is an inviter, or has an invite that has not run out.
pub data IsAuthorized (settings : Settings) (node : Node) (now : ℕ) (channel key : String)
    : Type 0 where
  open_to_all :
      invite_required settings channel ≡ false → IsAuthorized settings node now channel key
  inviter : is_inviter node key ≡ true → IsAuthorized settings node now channel key
  invited :
      is_live now (node.invited channel key) ≡ true → IsAuthorized settings node now channel key

-- A connection other than the origin, with a session for the channel, whose peer is authorized.
pub record IsTarget (settings : Settings) (node : Node) (now : ℕ) (channel : String) (origin id : ℕ)
    : Type 0 where
  pub target : Connection
  pub is_connected : Memᴰ target node.connections
  pub same_id : target.id ≡ id
  pub is_other : id ≢ origin
  pub has_session : elem channel target.open_channels ≡ true
  pub authorized : IsAuthorized settings node now channel target.remote_key

-- Each effect sends the copy on the channel to a target.
pub data EverySend (settings : Settings) (node : Node) (now : ℕ) (channel : String) (copy : Value)
    (origin : ℕ) : List Effect → Type 0 where
  done : EverySend settings node now channel copy origin []
  next :
      {id : ℕ} {sent : List Effect}
      → IsTarget settings node now channel origin id
      → EverySend settings node now channel copy origin sent
      → EverySend settings node now channel copy origin (send id channel copy ∷ sent)

-- The loop only forgets invites that have run out.
record IsPruned (now : ℕ) (node start : Node) : Type 0 where
  same_inviters : node.inviter_keys ≡ start.inviter_keys
  was_live :
      (channel key : String)
      → is_live now (node.invited channel key) ≡ true
      → is_live now (start.invited channel key) ≡ true

is_invited-live :
    (node : Node) (channel key : String) (now : ℕ) (other_channel other : String)
    → is_live now ((is_invited node channel key now).0.invited other_channel other) ≡ true
    → is_live now (node.invited other_channel other) ≡ true
unfolding is_invited is_live
is_invited-live node channel key now other_channel other h =
    elim (Bool-cases (is_live now (node.invited channel key))) [
      | inl live ↦ ground arith
      | inr old ↦ elim (Bool-cases (str_eq channel other_channel)) [
        | inr elsewhere ↦ ground arith
        | inl here ↦ elim (Bool-cases (str_eq key other)) [
          | inl same ↦ ground arith
          | inr different ↦ ground (arith, (eq_iff channel other_channel).0 here)
        ]
      ]
    ]

remote_authorized-live :
    (settings : Settings) (node : Node) (channel key : String) (now : ℕ)
    (other_channel other : String)
    → is_live now ((remote_authorized settings node channel key now).0.invited other_channel other)
      ≡ true
    → is_live now (node.invited other_channel other) ≡ true
unfolding remote_authorized
remote_authorized-live settings node channel key now other_channel other h =
    ground (arith, is_invited-live node channel key now other_channel other)

remote_authorized-IsPruned :
    (settings : Settings) (node : Node) (channel key : String) (now : ℕ) {start : Node}
    → IsPruned now node start
    → IsPruned now (remote_authorized settings node channel key now).0 start
unfolding remote_authorized is_invited is_live
remote_authorized-IsPruned settings node channel key now p = record {
  same_inviters = ground (arith, p.same_inviters);
  was_live = λ other_channel other. λ h.
      p.was_live other_channel other
        (remote_authorized-live settings node channel key now other_channel other h);
}

remote_authorized-IsAuthorized :
    (settings : Settings) (node : Node) (channel key : String) (now : ℕ) {start : Node}
    → IsPruned now node start
    → (remote_authorized settings node channel key now).1 ≡ true
    → IsAuthorized settings start now channel key
unfolding remote_authorized is_invited
remote_authorized-IsAuthorized settings node channel key now p h =
    elim (Bool-cases (invite_required settings channel)) [
      | inr free ↦ open_to_all free
      | inl needed ↦ elim (Bool-cases (is_inviter node key)) [
        | inl i ↦ inviter (ground (arith, p.same_inviters))
        | inr other ↦ invited (p.was_live channel key (ground arith))
      ]
    ]

relay_to-EverySend :
    (settings : Settings) (now : ℕ) (channel : String) (copy : Value) (origin : ℕ)
    (cs : List Connection) (node start : Node)
    → ((c : Connection) → Memᴰ c cs → Memᴰ c start.connections)
    → IsPruned now node start
    → EverySend settings start now channel copy origin
        (relay_to settings now channel copy origin cs node).1
unfolding relay_to
relay_to-EverySend settings now channel copy origin [] node start m p = done
relay_to-EverySend settings now channel copy origin (c ∷ cs) node start m p =
    let others = λ (d : Connection). λ (e : Memᴰ d cs). m d (tail e) in
    elim (Bool-cases (c.id == origin)) [
      | inl here ↦
          rw here (relay_to-EverySend settings now channel copy origin cs node start others p)
      | inr away ↦
          let (node', allowed) = remote_authorized settings node channel c.remote_key now in
          let rest =
            relay_to-EverySend settings now channel copy origin cs node' start others
              (remote_authorized-IsPruned settings node channel c.remote_key now p) in
          elim (Bool-cases allowed) [
            | inr denied ↦ rw (away, denied) rest
            | inl granted ↦ elim (Bool-cases (elem channel c.open_channels)) [
              | inr closed ↦ rw (away, granted, closed) rest
              | inl session ↦
                  rw (away, granted, session)
                    (next
                      (record {
                        target = c;
                        is_connected = m c (head refl);
                        same_id = refl;
                        is_other = λ e. ground arith;
                        has_session = session;
                        authorized =
                            remote_authorized-IsAuthorized settings node channel c.remote_key now p
                              granted;
                      })
                      rest)
            ]
          ]
    ]

-- Whatever _relay sends is the one copy, on the channel of the message, each time on a connection
-- other than the one it came by, that has a session for the channel and whose peer is authorized
-- at that time.
pub relay-EverySend :
    (settings : Settings) (node : Node) (now : ℕ) (payload : Value) (channel : String) (origin : ℕ)
    → EverySend settings node now channel
        (relayed settings payload)
        origin
        (relay settings node now payload channel origin).1
unfolding relay
relay-EverySend settings node now payload channel origin =
    elim (Bool-cases (is_relayed settings payload)) [
      | inl needed ↦ rw needed (
          relay_to-EverySend settings now channel _ origin node.connections node node (λ c. λ m. m)
            (record { same_inviters = refl; was_live = λ other key. λ h. h }))
      | inr free ↦ rw free done
    ]

-- One less of a whole time to live.
plus-neg : (n : ℕ) → plus (nat (suc n)) (neg 0) ≡ nat n
unfolding plus
plus-neg n = ground (arith, of_decimal-whole (suc n * 1 - 1 * 1))

-- A message that nodes with these settings have sent on, one after another.
abbrev pub relayed_by : List Settings → Value → Value
relayed_by [] payload = payload
relayed_by (settings ∷ others) payload = relayed_by others (relayed settings payload)

relayed-ttl :
    (settings : Settings) (payload : Value) (ttl : ℕ)
    → payload ! "ttl" ≡ num (nat (suc ttl))
    → relayed settings payload ! "ttl" ≡ num (nat ttl)
unfolding relayed ◌!◌
relayed-ttl settings payload ttl h =
    let by = key_or_null settings.self_key in
    let left = num (plus (ttl_of (payload ! "ttl")) (neg 0)) in
    lookup-other "ttl" "relayedBy" by (with_field "ttl" left (fields_of payload)) refl
    ∙ lookup-with_field "ttl" left (fields_of payload)
    ∙ (rw h (ap num (plus-neg ttl)))

relayed_by-ttl :
    (path : List Settings) (payload : Value) (ttl : ℕ)
    → list_length path ≤ ttl
    → payload ! "ttl" ≡ num (nat ttl)
    → relayed_by path payload ! "ttl" ≡ num (nat (ttl - list_length path))
relayed_by-ttl [] payload ttl le h = ground arith
relayed_by-ttl (settings ∷ path) payload zero le h = absurd (omega arith)
relayed_by-ttl (settings ∷ path) payload (suc ttl) le h =
    relayed_by-ttl path (relayed settings payload) ttl (omega arith)
      (relayed-ttl settings payload ttl h)
    ∙ ap (λ n. num (nat n)) (omega arith)

-- A message whose time to live is a whole number is sent on by at most that many nodes, one after
-- another: no node sends on what so many have sent on already, whatever the settings of each of them.
pub relayed_by-stops :
    (settings : Settings) (path : List Settings) (payload : Value) (ttl : ℕ)
    → payload ! "ttl" ≡ num (nat ttl)
    → list_length path ≡ ttl
    → is_relayed settings (relayed_by path payload) ≡ false
unfolding is_relayed less_eq
relayed_by-stops settings path payload ttl h e =
    let left = relayed_by-ttl path payload ttl (omega arith) h in
    let none_left : ttl - list_length path ≡ 0 = omega arith in rw (left, none_left) (ground arith)
