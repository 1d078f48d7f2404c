-- ===== src/Sidechannel/Sign.antt =====
-- features/sidechannel/index.js: the signature of a message.
use intercom_swap.Prelude.{String, Bool, ◌&&◌, not, Option, some, none}
use intercom_swap.Js.Text.{trim, to_lower, is_empty}
use intercom_swap.Js.Json.{json_data}
use intercom_swap.Js.Parse.{coalesce}
use intercom_swap.Js.Value.{Value, null, str, obj, field, end, ◌!◌}
use intercom_swap.Sidechannel.Keys.{Platform, normalize_key_hex, signature_of, is_verified}

abbrev key_value : Option String → Value
key_value none = null
key_value (some key) = str key

-- _sigPayload
unfoldable pub sig_payload : Platform → Value → Value
sig_payload platform payload = obj (
    field "kind" (str "sidechannel_message_v1") (
      field "id" (coalesce (payload ! "id") null) (
        field "channel" (coalesce (payload ! "channel") null) (
          field "from" (key_value (normalize_key_hex platform (payload ! "from"))) (
            field "origin" (key_value (normalize_key_hex platform (payload ! "origin"))) (
              field "ts" (coalesce (payload ! "ts") null)
                (field "message" (json_data (coalesce (payload ! "message") null)) end)))))))

-- _verifySig
unfoldable pub verify_sig : Platform → Value → String → Bool
unfolding sig_payload trim to_lower
verify_sig platform payload key =
    not (is_empty key)
    && is_verified platform (signature_of payload) (sig_payload platform payload)
        (to_lower (trim key))
