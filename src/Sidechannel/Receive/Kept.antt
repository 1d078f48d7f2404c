-- ===== src/Sidechannel/Receive/Kept.antt =====
-- What the calls of features/sidechannel/index.js leave of the ids that a node remembers.
use intercom_swap.Prelude.{ℕ, String, ◌≡◌, refl, List, [], ◌∷◌, ◌⊎◌, arith}
use intercom_swap.Js.Value.{Value}
use intercom_swap.Sidechannel.Settings.{Settings}
use intercom_swap.Sidechannel.Seen.{remember_seen}
use intercom_swap.Sidechannel.Keys.{Platform}
use intercom_swap.Sidechannel.Node.{
  Node, Connection, is_invited, is_locally_invited, may_join, remember_invite, remember_welcome,
  register_channel, remote_authorized,
}
use intercom_swap.Sidechannel.Welcome.{verify_welcome}
use intercom_swap.Sidechannel.Invite.{verify_invite, check_remote_invite, check_invite}
use intercom_swap.Sidechannel.Receive.{
  receive, accept_new, payload_id, check_welcome, handle_accepted, handle_open, check_open, opened,
  relay, relay_to, check_rate_of,
}

-- What does not touch the ids.
module _ (settings : Settings) (platform : Platform) (now : ℕ) where
  pub may_join-seen :
      (node : Node) (channel : String) → (may_join settings node channel now).0.seen ≡ node.seen
  unfolding may_join is_locally_invited
  may_join-seen node channel = ground arith

  pub is_invited-seen :
      (node : Node) (channel key : String) → (is_invited node channel key now).0.seen ≡ node.seen
  unfolding is_invited
  is_invited-seen node channel key = ground arith

  pub verify_invite-seen :
      (node : Node) (invite : Value) (channel key : String)
      → (verify_invite platform node now invite channel key).0.seen ≡ node.seen
  unfolding verify_invite remember_invite
  verify_invite-seen node invite channel key = ground arith

  pub check_invite-seen :
      (node : Node) (payload : Value) (channel key : String)
      → (check_invite settings platform node now payload channel key).0.seen ≡ node.seen
  unfolding check_invite check_remote_invite
  check_invite-seen node payload channel key =
      grind (arith, may_join-seen, is_invited-seen, verify_invite-seen)

  pub verify_welcome-seen :
      (node : Node) (welcome : Value) (channel : String)
      → (verify_welcome settings platform node welcome channel).0.seen ≡ node.seen
  unfolding verify_welcome remember_welcome
  verify_welcome-seen node welcome channel = ground arith

  pub check_welcome-seen :
      (node : Node) (payload : Value) (channel : String)
      → (check_welcome settings platform node payload channel).0.seen ≡ node.seen
  unfolding check_welcome
  check_welcome-seen node payload channel = grind (arith, verify_welcome-seen)

  pub check_rate_of-seen :
      (node : Node) (payload : Value) (id : ℕ)
      → (check_rate_of settings platform node now payload id).0.seen ≡ node.seen
  unfolding check_rate_of
  check_rate_of-seen node payload id = refl

  pub remote_authorized-seen :
      (node : Node) (channel key : String)
      → (remote_authorized settings node channel key now).0.seen ≡ node.seen
  unfolding remote_authorized
  remote_authorized-seen node channel key = grind (arith, is_invited-seen)

  pub relay_to-seen :
      (channel : String) (copy : Value) (origin : ℕ) (cs : List Connection) (node : Node)
      → (relay_to settings now channel copy origin cs node).0.seen ≡ node.seen
  unfolding relay_to
  relay_to-seen channel copy origin [] node = refl
  relay_to-seen channel copy origin (c ∷ cs) node =
      grind (arith, remote_authorized-seen, relay_to-seen channel copy origin cs)

  pub relay-seen :
      (node : Node) (payload : Value) (channel : String) (origin : ℕ)
      → (relay settings node now payload channel origin).0.seen ≡ node.seen
  unfolding relay
  relay-seen node payload channel origin = grind (arith, relay_to-seen)

  pub check_open-seen :
      (node : Node) (payload : Value) (target key : String)
      → (check_open settings platform node now payload target key).0.seen ≡ node.seen
  unfolding check_open
  check_open-seen node payload target key = grind (arith, verify_invite-seen, verify_welcome-seen)

  pub opened-seen :
      (node : Node) (target : String) → (opened settings node now target).0.seen ≡ node.seen
  unfolding opened register_channel
  opened-seen node target = grind (arith, may_join-seen)

  pub handle_open-seen :
      (node : Node) (payload : Value) (channel : String) (c : Connection) (target : String)
      → (handle_open settings platform node now payload channel c target).0.seen ≡ node.seen
  unfolding handle_open
  handle_open-seen node payload channel c target =
      grind (arith, check_open-seen, opened-seen, relay-seen)

  pub handle_accepted-seen :
      (node : Node) (payload : Value) (channel : String) (c : Connection)
      → (handle_accepted settings platform node now payload channel c).0.seen ≡ node.seen
  unfolding handle_accepted
  handle_accepted-seen node payload channel c = grind (arith, handle_open-seen, relay-seen)

  -- A message adds its id, or leaves the ids as they are.
  pub receive-seen :
      (node : Node) (payload : Value) (channel : String) (c : Connection)
      → ((receive settings platform node now payload channel c).0.seen ≡ node.seen)
        ⊎ ((receive settings platform node now payload channel c).0.seen
            ≡ (remember_seen settings (payload_id payload channel) now node.seen).0)
  unfolding receive accept_new
  receive-seen node payload channel c =
      grind (arith, check_invite-seen, check_rate_of-seen, check_welcome-seen, handle_accepted-seen)
