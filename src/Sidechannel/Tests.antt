-- ===== src/Sidechannel/Tests.antt =====
-- features/sidechannel/index.js on the messages and the channels of one node.
use intercom_swap.Prelude.{
  ◌≡◌, ◌≢◌, ◌≤◌, ◌*◌, ◌+◌, ◌-◌, refl, sym, ◌∙◌, true, false, some, [], ◌∷◌, arith, ◌⊎◌,
}
use intercom_swap.Js.Text.{trim, to_lower, decimal}
use intercom_swap.Js.Number.{nat, less_eq, num_text}
use intercom_swap.Js.Parse.{coalesce}
use intercom_swap.Js.Json.{json_data}
use intercom_swap.Js.Value.{
  Value, null, num, str, obj, field, end, is_text, ◌!◌, lookup, truthy, is_present, strict_eq,
  to_text,
}
use intercom_swap.Swap.Schema.Fields.{is_nonempty}
use intercom_swap.Protocol.SignedMessage.{with_field}
use intercom_swap.Sidechannel.Settings.{default_settings}
use intercom_swap.Sidechannel.Keys.{normalize_key_hex, is_verified}
use intercom_swap.Sidechannel.Node.{may_join, self_is_inviter, remote_authorized}
use intercom_swap.Sidechannel.Rate.{new_limiter, check_rate, spend, refill, reset_strikes}
use intercom_swap.Sidechannel.Seen.{remember_seen, has_id, purge_seen}
use intercom_swap.Sidechannel.Rules.{
  is_entry, pow_required, invite_required, owner_write_only, get_owner_key, welcome_required,
}
use intercom_swap.Sidechannel.Sign.{verify_sig}
use intercom_swap.Sidechannel.Invite.{check_invite, check_remote_invite}
use intercom_swap.Sidechannel.Rate.Throughput.{let_through, let_through-le}
use intercom_swap.Sidechannel.Pow.{check_pow, work, count_leading_zero_bits, find_nonce}
use intercom_swap.Sidechannel.Receive.{
  deliver, receive, control, extract_welcome, may_write, is_relayed, relay, relayed, is_blocked,
  check_rate_of, by_owner, accept_new, payload_id, check_welcome, handle_accepted, relay_to,
}
use intercom_swap.Sidechannel.Receive.OwnerOnly.{
  IsByOwner, IsOwnersWelcome, receive-owner_write_only,
}
use intercom_swap.Sidechannel.Receive.Invited.{IsEntitled, IsInvited, receive-IsInvited}
use intercom_swap.Sidechannel.Receive.Replay.{Arrival}
use intercom_swap.Sidechannel.Receive.Relays.{
  EverySend, relay-EverySend, relayed_by, relayed_by-stops,
}
use intercom_swap.Sidechannel.Send.{Sender, build_payload, new_payload, attach_pow, attach_sig}
use intercom_swap.Sidechannel.Send.Accepted.{IsWalletOf, build_payload-accepted}
use intercom_swap.Sidechannel.Channels.{remove_channel}
use intercom_swap.Sidechannel.Channels.Removed.{knowledge, nothing_known, remove_channel-forgets}
use intercom_swap.Sidechannel.Example.{
  test_platform, guarded, to_peer, to_owner, test_node, owner_message,
}

delivered :
    (receive guarded test_platform test_node 10 owner_message "0swap" to_owner).1
    ≡ deliver "0swap" owner_message ∷ []
unfolding receive is_blocked check_invite may_join self_is_inviter check_remote_invite check_pow
    work count_leading_zero_bits check_rate_of check_rate spend refill reset_strikes may_write
    by_owner normalize_key_hex verify_sig is_verified is_nonempty accept_new remember_seen has_id
    purge_seen payload_id check_welcome welcome_required handle_accepted relay is_relayed relay_to
    remote_authorized trim to_lower less_eq strict_eq is_entry pow_required invite_required
    owner_write_only get_owner_key lookup ◌!◌ truthy is_text coalesce is_present to_text
delivered = refl

effective : (receive guarded test_platform test_node 10 owner_message "0swap" to_owner).1 ≢ []
effective e = let f : deliver "0swap" owner_message ∷ [] ≡ [] = sym delivered ∙ e in cc

receive-owner_write_only_example :
    IsByOwner guarded test_platform owner_message "0swap"
    ⊎ ((is_text (control owner_message) "welcome" ≡ true)
        × IsOwnersWelcome guarded test_platform (extract_welcome owner_message) "0swap")
unfolding owner_write_only is_entry trim
receive-owner_write_only_example =
    receive-owner_write_only guarded test_platform test_node 10 owner_message "0swap" to_owner refl
      effective

receive-IsInvited_example :
    IsEntitled guarded test_node "0swap" 10
    × IsInvited test_platform test_node 10 owner_message "0swap" "owner"
unfolding invite_required is_entry trim
receive-IsInvited_example =
    receive-IsInvited guarded test_platform test_node 10 owner_message "0swap" to_owner refl
      effective

abbrev first_arrival : Arrival
first_arrival = record {
  at = 10;
  payload = owner_message;
  channel = "0swap";
  connection = to_owner;
}

-- The same id with another text, by another peer.
abbrev replayed : Arrival
replayed = record {
  at = 99;
  payload = obj (field "id" (str "m1") (field "message" (str "bye") end));
  channel = "0other";
  connection = to_peer;
}

abbrev other_arrival : Arrival
other_arrival = record replayed { at = 20; payload = obj (field "id" (str "m2") end) }

relay-EverySend_example :
    EverySend guarded test_node 10 "0swap"
      (relayed guarded owner_message)
      2
      (relay guarded test_node 10 owner_message "0swap" 2).1
relay-EverySend_example = relay-EverySend guarded test_node 10 owner_message "0swap" 2

relayed_by-stops_example :
    is_relayed guarded (relayed_by (guarded ∷ default_settings "peer" ∷ []) owner_message) ≡ false
unfolding ◌!◌ lookup
relayed_by-stops_example =
    relayed_by-stops guarded (guarded ∷ default_settings "peer" ∷ []) owner_message 2 refl refl

let_through-le_example :
    let_through guarded ((100, 200000) ∷ (600, 50000) ∷ (700, 90000) ∷ []) (new_limiter guarded 100)
      * 1000
    ≤ 256000 * 1000 + (1100 - 100) * 64000
let_through-le_example =
    let_through-le guarded 100 1100 ((100, 200000) ∷ (600, 50000) ∷ (700, 90000) ∷ []) (omega arith)
      (omega arith, (omega arith, (omega arith, tt)))

abbrev owner_sender : Sender
owner_sender = record { sign = λ text. some "aa"; random = "r"; now = 10; fuel = 1 }

owner_wallet : IsWalletOf test_platform owner_sender "owner"
unfolding to_lower trim
owner_wallet = record {
  is_some = refl;
  is_normal = refl;
  sign = λ text. "aa";
  signs = λ text. refl;
  sign_some = λ text. refl;
  sign_normal = λ text. refl;
  verified = λ text. refl;
}

abbrev built_message : Value
built_message = obj (
    field "type" (str "sidechannel") (
      field "id" (str "owner:10:r") (
        field "channel" (str "0swap") (
          field "from" (str "owner") (
            field "origin" (str "owner") (
              field "message" (str "hello") (
                field "ts" (num (nat 10)) (
                  field "ttl" (num (nat 3)) (
                    field "pow"
                      (obj (field "nonce" (num (nat 0)) (field "difficulty" (num (nat 8)) end)))
                      (field "sig" (str "aa") end))))))))))

built :
    build_payload guarded test_platform owner_sender "0swap" (str "hello") null ≡ some built_message
unfolding build_payload new_payload attach_pow attach_sig find_nonce work count_leading_zero_bits
    with_field pow_required num_text decimal truthy to_lower trim
built = refl

build_payload-accepted_example :
    (check_pow guarded test_platform (json_data built_message) "0swap" ≡ true)
    × (may_write guarded test_platform (json_data built_message) "0swap" ≡ true)
unfolding get_owner_key pow_required json_data trim
build_payload-accepted_example =
    build_payload-accepted guarded guarded test_platform owner_sender "owner" "0swap" (str "hello")
      null built_message owner_wallet refl refl refl (omega arith) built refl

remove_channel-forgets_example :
    (knowledge (remove_channel guarded test_node " 0swap").0 "0swap" "peer" ≡ nothing_known)
    × (knowledge (remove_channel guarded test_node " 0swap").0 "0other" "peer"
        ≡ knowledge test_node "0other" "peer")
unfolding remove_channel is_entry trim
remove_channel-forgets_example =
    remove_channel-forgets guarded test_node " 0swap" "0other" "peer" refl refl refl
