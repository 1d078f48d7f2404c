-- ===== src/Sidechannel/Receive/OwnerOnly.antt =====
-- Who may write on a channel of features/sidechannel/index.js that only its owner writes.
use intercom_swap.Prelude.{
  ℕ, String, ◌≡◌, ◌≢◌, true, false, some, [], Bool-cases, ◌⊎◌, inl, inr, arith, str_eq, eq_iff,
  Option-cases, ap, ◌∙◌,
}
use intercom_swap.Js.Text.{trim, to_lower}
use intercom_swap.Js.Value.{Value, is_text, ◌!◌, to_text}
use intercom_swap.Protocol.Stringify.{stable_stringify}
use intercom_swap.Sidechannel.Settings.{Settings}
use intercom_swap.Sidechannel.Keys.{
  Platform, payload_of, normalize_key_hex, signature_of, is_verified,
}
use intercom_swap.Sidechannel.Sign.{verify_sig, sig_payload}
use intercom_swap.Sidechannel.Rules.{owner_write_only, get_owner_key}
use intercom_swap.Sidechannel.Node.{Node, Connection}
use intercom_swap.Sidechannel.Welcome.{
  welcome_value, normalize_welcome_payload, is_valid_welcome, verify_welcome,
}
use intercom_swap.Sidechannel.Receive.{
  receive, control, may_write, by_owner, extract_welcome, check_welcome,
}
use intercom_swap.Sidechannel.Receive.Passed.{
  rated_node, receive-IsPassed, accept_new-IsAccepted, handle_accepted-auth,
}

-- The wallet has verified that the owner of the channel signed the message, which says it is from
-- the owner.
pub record IsByOwner (settings : Settings) (platform : Platform) (payload : Value)
    (channel : String) : Type 0 where
  pub owner : String
  pub is_owner : get_owner_key settings channel ≡ some owner
  pub from_owner : normalize_key_hex platform (payload ! "from") ≡ some owner
  pub signed :
      platform.crypto.verify
        (to_text (signature_of payload))
        (stable_stringify (sig_payload platform payload))
        (to_lower (trim owner))
      ≡ some true

pub is_verified-true :
    (platform : Platform) (sig message : Value) (key : String)
    → is_verified platform sig message key ≡ true
    → platform.crypto.verify (to_text sig) (stable_stringify message) key ≡ some true
unfolding is_verified
is_verified-true platform sig message key h = ground arith

by_owner-IsByOwner :
    (settings : Settings) (platform : Platform) (payload : Value) (channel : String)
    → by_owner settings platform payload channel ≡ true
    → IsByOwner settings platform payload channel
unfolding by_owner verify_sig
by_owner-IsByOwner settings platform payload channel h =
    elim (Option-cases (get_owner_key settings channel)) [
      | inl e ↦ let f : false ≡ true = ground (arith, e) in cc
      | inr (owner, e) ↦ elim (Option-cases (normalize_key_hex platform (payload ! "from"))) [
        | inl f ↦ let g : false ≡ true = ground (arith, e, f) in cc
        | inr (author, f) ↦
            let (same, signed) : (str_eq author owner ≡ true)
                × (is_verified platform (signature_of payload) (sig_payload platform payload)
                      (to_lower (trim owner))
                    ≡ true) =
              ground (arith, e, f) in
            record {
              owner = owner;
              is_owner = e;
              from_owner = f ∙ ap some ((eq_iff author owner).0 same);
              signed = is_verified-true platform _ _ _ signed;
            }
      ]
    ]

-- The welcome is for the channel, and the wallet has verified that the owner signed it.
pub record IsOwnersWelcome (settings : Settings) (platform : Platform) (welcome : Value)
    (channel : String) : Type 0 where
  pub owner : String
  pub is_owner : get_owner_key settings channel ≡ some owner
  pub for_channel : (normalize_welcome_payload platform (payload_of welcome)).channel ≡ trim channel
  pub signed :
      platform.crypto.verify
        (to_text (signature_of welcome))
        (stable_stringify (welcome_value (normalize_welcome_payload platform (payload_of welcome))))
        owner
      ≡ some true

pub is_valid_welcome-IsOwnersWelcome :
    (settings : Settings) (platform : Platform) (welcome : Value) (channel : String)
    → is_valid_welcome settings platform welcome channel ≡ true
    → IsOwnersWelcome settings platform welcome channel
unfolding is_valid_welcome
is_valid_welcome-IsOwnersWelcome settings platform welcome channel h =
    elim (Option-cases (get_owner_key settings channel)) [
      | inl e ↦ let f : false ≡ true = ground (arith, e) in cc
      | inr (owner, e) ↦
          let w = normalize_welcome_payload platform (payload_of welcome) in
          let (same, signed) : (str_eq w.channel (trim channel) ≡ true)
              × (is_verified platform (signature_of welcome) (welcome_value w) owner ≡ true) =
            ground (arith, e) in
          record {
            owner = owner;
            is_owner = e;
            for_channel = (eq_iff w.channel (trim channel)).0 same;
            signed = is_verified-true platform _ _ _ signed;
          }
    ]

-- A message that says it is a welcome passes only with a welcome that is valid.
check_welcome-valid :
    (settings : Settings) (platform : Platform) (node : Node) (payload : Value) (channel : String)
    → is_text (control payload) "welcome" ≡ true
    → (check_welcome settings platform node payload channel).1 ≡ true
    → is_valid_welcome settings platform (extract_welcome payload) channel ≡ true
unfolding check_welcome verify_welcome
check_welcome-valid settings platform node payload channel h k = ground arith

may_write-IsByOwner :
    (settings : Settings) (platform : Platform) (payload : Value) (channel : String)
    → owner_write_only settings channel ≡ true
    → is_text (control payload) "auth" ≡ false
    → is_text (control payload) "welcome" ≡ false
    → may_write settings platform payload channel ≡ true
    → IsByOwner settings platform payload channel
unfolding may_write
may_write-IsByOwner settings platform payload channel o a w h =
    by_owner-IsByOwner settings platform payload channel (ground arith)

-- On a channel where only the owner writes, a message that sets off anything, be it a call of
-- onMessage, a request, a join or a relay, is one that says it is from the owner and that the owner signed, or it says it
-- is a welcome and brings a welcome to this channel that the owner signed.
pub receive-owner_write_only :
    (settings : Settings) (platform : Platform) (node : Node) (now : ℕ) (payload : Value)
    (channel : String) (c : Connection)
    → owner_write_only settings channel ≡ true
    → (receive settings platform node now payload channel c).1 ≢ []
    → IsByOwner settings platform payload channel
      ⊎ ((is_text (control payload) "welcome" ≡ true)
          × IsOwnersWelcome settings platform (extract_welcome payload) channel)
receive-owner_write_only settings platform node now payload channel c o h =
    let (unblocked, invited, worked, rated, write, accepted) =
      receive-IsPassed settings platform node now payload channel c h in
    let rated = rated_node settings platform node now payload channel c in
    let (fresh, welcomed, dispatched) =
      accept_new-IsAccepted settings platform rated now payload channel c accepted in
    elim (Bool-cases (is_text (control payload) "welcome")) [
      | inl w ↦ inr (
        w,
        is_valid_welcome-IsOwnersWelcome settings platform _ channel
            (check_welcome-valid settings platform _ payload channel w welcomed),
      )
      | inr w ↦ elim (Bool-cases (is_text (control payload) "auth")) [
        | inl a ↦
            absurd (dispatched (handle_accepted-auth settings platform _ now payload channel c a))
        | inr a ↦ inl (may_write-IsByOwner settings platform payload channel o a w write)
      ]
    ]
