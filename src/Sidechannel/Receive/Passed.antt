-- ===== src/Sidechannel/Receive/Passed.antt =====
-- The checks that a message of features/sidechannel/index.js has passed when it sets off anything.
use intercom_swap.Prelude.{ℕ, String, ◌≡◌, ◌≢◌, refl, true, false, [], arith}
use intercom_swap.Js.Value.{Value, is_text, str, is_text-str}
use intercom_swap.Sidechannel.Settings.{Settings}
use intercom_swap.Sidechannel.Seen.{remember_seen}
use intercom_swap.Sidechannel.Keys.{Platform}
use intercom_swap.Sidechannel.Pow.{check_pow}
use intercom_swap.Sidechannel.Node.{Node, Connection}
use intercom_swap.Sidechannel.Invite.{check_invite}
use intercom_swap.Sidechannel.Receive.{
  is_blocked, check_rate_of, may_write, payload_id, check_welcome, handle_accepted, accept_new,
  receive, control,
}

module _ (settings : Settings) (platform : Platform) (node : Node) (now : ℕ) (payload : Value)
    (channel : String) (c : Connection) where
  abbrev pub invited_node : Node
  invited_node = (check_invite settings platform node now payload channel c.remote_key).0

  abbrev pub rated_node : Node
  rated_node = (check_rate_of settings platform invited_node now payload c.id).0

  abbrev pub IsPassed : Type 0
  IsPassed =
      (is_blocked node now c.id ≡ false)
      × ((check_invite settings platform node now payload channel c.remote_key).1 ≡ true)
      × (check_pow settings platform payload channel ≡ true)
      × ((check_rate_of settings platform invited_node now payload c.id).1 ≡ true)
      × (may_write settings platform payload channel ≡ true)
      × ((accept_new settings platform rated_node now payload channel c).1 ≢ [])

  pub receive-IsPassed : (receive settings platform node now payload channel c).1 ≢ [] → IsPassed
  unfolding receive
  receive-IsPassed h = ground arith

module _ (settings : Settings) (platform : Platform) (node : Node) (now : ℕ) (payload : Value)
    (channel : String) (c : Connection) where
  abbrev pub seen_node : Node
  seen_node = record node {
    seen = (remember_seen settings (payload_id payload channel) now node.seen).0;
  }

  abbrev pub IsAccepted : Type 0
  IsAccepted =
      ((remember_seen settings (payload_id payload channel) now node.seen).1 ≡ false)
      × ((check_welcome settings platform seen_node payload channel).1 ≡ true)
      × ((handle_accepted settings platform
            (check_welcome settings platform seen_node payload channel).0 now payload channel c).1
          ≢ [])

  pub accept_new-IsAccepted :
      (accept_new settings platform node now payload channel c).1 ≢ [] → IsAccepted
  unfolding accept_new
  accept_new-IsAccepted h = ground arith

  -- Only the handshake ends here: it sets off nothing.
  pub handle_accepted-auth :
      is_text (control payload) "auth" ≡ true
      → (handle_accepted settings platform node now payload channel c).1 ≡ []
  unfolding handle_accepted is_text
  handle_accepted-auth h =
      let same : control payload ≡ str "auth" = is_text-str (control payload) h in
      let other : is_text (control payload) "open_channel" ≡ false = rw same refl in
      rw (other, h) refl
