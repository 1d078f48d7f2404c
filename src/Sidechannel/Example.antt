-- ===== src/Sidechannel/Example.antt =====
-- A node of features/sidechannel/index.js, with its settings, and a message of the owner.
use intercom_swap.Prelude.{true, false, ◌&&◌, some, none, [], ◌∷◌, str_eq}
use intercom_swap.Js.Number.{nat}
use intercom_swap.Js.Value.{Value, num, str, obj, field, end}
use intercom_swap.Sidechannel.Settings.{Settings, default_settings}
use intercom_swap.Sidechannel.Keys.{Platform}
use intercom_swap.Sidechannel.Node.{Node, Connection}

-- The owner signs with "aa", and each hash begins with eight zero bits.
abbrev pub test_platform : Platform
test_platform = record {
  crypto = record {
    sha256_hex = λ text. "00ff";
    verify = λ sig text key. some (str_eq sig "aa" && str_eq key "owner");
  };
  buffer_hex = λ items. none;
  byte_size = λ payload. 100;
}

-- The owner writes and invites, and peers are welcomed by nobody.
abbrev pub guarded : Settings
guarded = record (default_settings "owner") {
  welcome_required = false;
  owner_write_only = true;
  invite_required = true;
  pow_enabled = true;
  pow_difficulty = 8;
  default_owner_key = some "owner";
}

abbrev pub to_peer : Connection
to_peer = record { id = 1; remote_key = "peer"; open_channels = "0swap" ∷ [] }

abbrev pub to_owner : Connection
to_owner = record { id = 2; remote_key = "owner"; open_channels = "0swap" ∷ [] }

abbrev pub test_node : Node
test_node = record {
  seen = [];
  limiters = λ id. none;
  inviter_keys = some ("owner" ∷ []);
  invited = λ channel key. none;
  local_invites = λ channel. none;
  local_invite_objects = λ channel. none;
  welcomed_channels = [];
  welcome_by_channel = λ channel. none;
  channels = "0swap" ∷ [];
  connections = to_peer ∷ to_owner ∷ [];
}

abbrev pub owner_message : Value
owner_message = obj (
    field "id" (str "m1") (
      field "from" (str "owner") (
        field "message" (str "hello") (
          field "ttl" (num (nat 2))
            (field "pow" (obj (field "nonce" (num (nat 0)) end)) (field "sig" (str "aa") end))))))
