-- ===== src/Sidechannel/Welcome.antt =====
-- features/sidechannel/index.js: the welcome that the owner of a channel signs.
use intercom_swap.Prelude.{
  String, Bool, true, false, not, ◌&&◌, some, none, update, if◌then◌else◌, str_eq,
}
use intercom_swap.Js.Text.{trim, is_empty}
use intercom_swap.Js.Number.{Num, is_finite}
use intercom_swap.Js.Parse.{coalesce}
use intercom_swap.Js.Value.{
  Value, num, str, obj, field, end, ◌!◌, is_reference, to_text, to_number, trimmed,
}
use intercom_swap.Sidechannel.Settings.{Settings}
use intercom_swap.Sidechannel.Keys.{
  Platform, key_text, payload_of, signature_of, version_of, is_verified,
}
use intercom_swap.Sidechannel.Rules.{get_owner_key}
use intercom_swap.Sidechannel.Node.{Node, remember_welcome}

pub record Welcome : Type 0 where
  pub channel : String
  pub owner_pub_key : String
  pub text : String
  pub issued_at : Num
  pub version : Num

-- The object that is signed.
abbrev pub welcome_value : Welcome → Value
welcome_value w = obj (
    field "channel" (str w.channel) (
      field "ownerPubKey" (str w.owner_pub_key) (
        field "text" (str w.text)
          (field "issuedAt" (num w.issued_at) (field "version" (num w.version) end)))))

-- _normalizeWelcomePayload
unfoldable pub normalize_welcome_payload : Platform → Value → Welcome
normalize_welcome_payload platform payload = record {
  channel = trimmed (payload ! "channel");
  owner_pub_key = key_text platform (payload ! "ownerPubKey");
  text = to_text (coalesce (payload ! "text") (str ""));
  issued_at = to_number (payload ! "issuedAt");
  version = version_of (payload ! "version");
}

-- The tests of _verifyWelcome
unfoldable pub is_valid_welcome : Settings → Platform → Value → String → Bool
is_valid_welcome settings platform welcome channel =
    let w = normalize_welcome_payload platform (payload_of welcome) in
    is_reference welcome && elim (get_owner_key settings channel) [
      | none ↦ false
      | some owner ↦
          str_eq w.channel (trim channel)
          && not (is_empty owner)
          && str_eq w.owner_pub_key owner
          && is_finite w.issued_at
          && is_verified platform (signature_of welcome) (welcome_value w) owner
    ]

-- _verifyWelcome; a valid welcome is remembered.
unfoldable pub verify_welcome : Settings → Platform → Node → Value → String → Node × Bool
unfolding is_valid_welcome remember_welcome
verify_welcome settings platform node welcome channel =
    if is_valid_welcome settings platform welcome channel
    then (
      record (remember_welcome node channel) {
        welcome_by_channel = update node.welcome_by_channel (trim channel) (some welcome);
      },
      true,
    )
    else (node, false)
