-- ===== src/Sidechannel/Capabilities/Tests.antt =====
-- src/sidechannel/capabilities.js: an invite and a welcome, and what a peer makes of them.
use intercom_swap.Prelude.{◌≡◌, refl, true}
use intercom_swap.Js.Text.{trim, to_lower}
use intercom_swap.Js.Number.{nat, less_eq}
use intercom_swap.Js.Value.{Value, null, num, str, obj, field, end, is_text, ◌!◌, lookup, truthy}
use intercom_swap.Sidechannel.Settings.{Settings}
use intercom_swap.Sidechannel.Rules.{get_owner_key}
use intercom_swap.Sidechannel.Receive.{check_welcome}
use intercom_swap.Js.Number.{plus, less}
use intercom_swap.Js.Parse.{num_max}
use intercom_swap.Sidechannel.Invite.{verify_invite}
use intercom_swap.Sidechannel.Node.{is_live}
use intercom_swap.Sidechannel.Capabilities.{
  InviteOptions, create_signed_welcome, create_signed_invite, expiry_of,
}
use intercom_swap.Sidechannel.Capabilities.Welcomed.{create_signed_welcome-lets_in}
use intercom_swap.Sidechannel.Capabilities.Accepted.{IsKey, create_signed_invite-accepted}
use intercom_swap.Sidechannel.Example.{test_platform, guarded, test_node, owner_message}

abbrev peer_invite : InviteOptions
peer_invite = record {
  channel = "0swap ";
  invitee_pub_key = "peer";
  inviter_pub_key = "owner";
  inviter_address = null;
  issued_at = nat 5;
  expires_at = null;
  ttl_ms = num (nat 100);
  nonce = str "n";
  version = null;
  random = "r";
  welcome = null;
}

peer_IsKey : IsKey "peer"
unfolding to_lower trim
peer_IsKey = record { is_some = refl; is_normal = refl }

owner_IsKey : IsKey "owner"
unfolding to_lower trim
owner_IsKey = record { is_some = refl; is_normal = refl }

create_signed_invite-accepted_example :
    ((verify_invite test_platform test_node 10
        (create_signed_invite (λ v. "aa") peer_invite)
        (trim "0swap ")
        "peer").1
      ≡ true)
    × (is_live 10 (
          (verify_invite test_platform test_node 10
              (create_signed_invite (λ v. "aa") peer_invite)
              (trim "0swap ")
              "peer").0.invited
            (trim "0swap ")
            "peer")
        ≡ true)
unfolding is_live expiry_of plus num_max less less_eq
create_signed_invite-accepted_example =
    create_signed_invite-accepted test_platform test_node 10 (λ v. "aa") peer_invite peer_IsKey
      owner_IsKey (record { some_sig = λ v. refl; verified = λ v. refl }) refl refl refl

abbrev owners_welcome : Value
owners_welcome = create_signed_welcome (λ v. "aa") "0swap" "owner" (str "hi") (nat 5) null

abbrev welcome_message : Value
welcome_message = obj (
    field "message" (obj (field "control" (str "welcome") (field "welcome" owners_welcome end)))
      end)

abbrev welcoming : Settings
welcoming = record guarded { welcome_required = true }

create_signed_welcome-lets_in_example :
    ((check_welcome welcoming test_platform test_node welcome_message "0swap").1 ≡ true)
    × ((check_welcome welcoming test_platform
          (check_welcome welcoming test_platform test_node welcome_message "0swap").0
          owner_message
          "0swap").1
        ≡ true)
unfolding create_signed_welcome get_owner_key trim ◌!◌ lookup truthy is_text
create_signed_welcome-lets_in_example =
    create_signed_welcome-lets_in test_platform (λ v. "aa") "0swap" "owner" (str "hi") (nat 5) null
      welcoming test_node welcome_message owner_message refl owner_IsKey
      (record { some_sig = λ v. refl; verified = λ v. refl }) refl refl refl refl refl
