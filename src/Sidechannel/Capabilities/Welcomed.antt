-- ===== src/Sidechannel/Capabilities/Welcomed.antt =====
-- A welcome that src/sidechannel/capabilities.js makes, where features/sidechannel/index.js checks it.
use intercom_swap.Prelude.{String, ◌≡◌, refl, ap, ◌∙◌, true, false, some, arith}
use intercom_swap.Js.Text.{trim}
use intercom_swap.Js.Number.{Num, is_finite}
use intercom_swap.Js.Parse.{coalesce}
use intercom_swap.Js.Value.{
  Value, str, ◌!◌, lookup, truthy, to_text, to_number, is_reference, is_present, is_text,
}
use intercom_swap.Protocol.SignedMessage.Signed.{str_eq_self}
use intercom_swap.Sidechannel.Settings.{Settings}
use intercom_swap.Sidechannel.Keys.{Platform, version_of, payload_of, signature_of}
use intercom_swap.Sidechannel.Rules.{get_owner_key}
use intercom_swap.Sidechannel.Node.{Node, is_welcomed, remember_welcome}
use intercom_swap.Sidechannel.Welcome.{
  Welcome, welcome_value, normalize_welcome_payload, is_valid_welcome, verify_welcome,
}
use intercom_swap.Sidechannel.Receive.{check_welcome, control, extract_welcome}
use intercom_swap.Sidechannel.Send.Accepted.{is_verified-str}
use intercom_swap.Sidechannel.Capabilities.{create_signed_welcome, welcome_payload}
use intercom_swap.Sidechannel.Capabilities.Accepted.{
  IsKey, IsSigner, key_text-IsKey, version_of-again, normal_text, trimmed_text,
}

-- What is signed
abbrev pub welcome_of : String → String → Value → Num → Value → Welcome
welcome_of channel key text issued_at version = record {
  channel = channel;
  owner_pub_key = key;
  text = to_text (coalesce text (str ""));
  issued_at = issued_at;
  version = version_of version;
}

module _ (platform : Platform) (sign : Value → String) (channel key : String) (text : Value)
    (issued_at : Num) (version : Value) (is_trimmed : trim channel ≡ channel) (k : IsKey key)
    (signer : IsSigner platform sign key) where
  abbrev welcome : Value
  welcome = create_signed_welcome sign channel key text issued_at version

  abbrev w : Welcome
  w = welcome_of channel key text issued_at version

  payload_of-created : payload_of welcome ≡ welcome_value w
  unfolding create_signed_welcome welcome_payload ◌!◌ lookup to_number is_reference
  payload_of-created = rw (trimmed_text channel, is_trimmed, normal_text k) refl

  normalize-created : normalize_welcome_payload platform (welcome_value w) ≡ w
  unfolding normalize_welcome_payload ◌!◌ lookup coalesce is_present to_text to_number
  normalize-created =
      rw (trimmed_text channel, is_trimmed, key_text-IsKey platform k, version_of-again version)
        refl

  signature_of-created : signature_of welcome ≡ str (sign (welcome_value w))
  unfolding create_signed_welcome welcome_payload ◌!◌ lookup to_number truthy
  signature_of-created =
      rw (trimmed_text channel, is_trimmed, normal_text k, signer.some_sig (welcome_value w)) refl

  is_reference-created : is_reference welcome ≡ true
  unfolding create_signed_welcome is_reference
  is_reference-created = refl

  truthy-created : truthy welcome ≡ true
  unfolding create_signed_welcome truthy
  truthy-created = refl

  is_valid-created :
      (settings : Settings)
      → get_owner_key settings channel ≡ some key
      → is_finite issued_at ≡ true
      → is_valid_welcome settings platform welcome channel ≡ true
  unfolding is_valid_welcome
  is_valid-created settings owner issued =
      let v = welcome_value w in
      let payload =
        ap (normalize_welcome_payload platform) payload_of-created ∙ normalize-created in
      let verified =
        is_verified-str platform (sign v) v key (signer.some_sig v) (signer.verified v) in
      rw
        (
          owner,
          is_reference-created,
          payload,
          signature_of-created,
          verified,
          is_trimmed,
          str_eq_self channel,
          str_eq_self key,
          k.is_some,
        )
        (ground arith)

verify_welcome-is_welcomed :
    (settings : Settings) (platform : Platform) (node : Node) (welcome : Value) (channel : String)
    → is_valid_welcome settings platform welcome channel ≡ true
    → ((verify_welcome settings platform node welcome channel).1 ≡ true)
      × (is_welcomed (verify_welcome settings platform node welcome channel).0 channel ≡ true)
unfolding verify_welcome remember_welcome is_welcomed
verify_welcome-is_welcomed settings platform node welcome channel h =
    ground (arith, str_eq_self (trim channel))

-- A welcome that the owner of a channel signs lets a peer in, on a channel that is named without
-- spaces round it: the message that brings the welcome passes the test of welcomes, and so does
-- each later message that brings none and does not say it is one, whether the peer asks for welcomes or not.
pub create_signed_welcome-lets_in :
    (platform : Platform) (sign : Value → String) (channel key : String) (text : Value)
    (issued_at : Num) (version : Value) (settings : Settings) (node : Node) (payload later : Value)
    → trim channel ≡ channel
    → IsKey key
    → IsSigner platform sign key
    → get_owner_key settings channel ≡ some key
    → is_finite issued_at ≡ true
    → extract_welcome payload ≡ create_signed_welcome sign channel key text issued_at version
    → is_text (control later) "welcome" ≡ false
    → truthy (extract_welcome later) ≡ false
    → ((check_welcome settings platform node payload channel).1 ≡ true)
      × ((check_welcome settings platform
            (check_welcome settings platform node payload channel).0
            later
            channel).1
          ≡ true)
unfolding check_welcome
create_signed_welcome-lets_in platform sign channel key text issued_at version settings node payload
      later is_trimmed k signer owner issued brought plain none_later =
    let valid =
      is_valid-created platform sign channel key text issued_at version is_trimmed k signer settings
        owner issued in
    let (taken, welcomed) = verify_welcome-is_welcomed settings platform node _ channel valid in
    let some_welcome =
      truthy-created platform sign channel key text issued_at version is_trimmed k signer in
    rw (brought, some_welcome, taken, plain, none_later, welcomed) (refl, ground arith)
