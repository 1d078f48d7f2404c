-- ===== src/Sidechannel/Settings.antt =====
-- features/sidechannel/index.js, the constructor of Sidechannel: the settings, with the defaults
-- filled in. Sizes and times are not negative; a proof-of-work difficulty below 1 is 0.
use intercom_swap.Prelude.{ℕ, String, Bool, true, false, Option, some, none, List}

pub record Settings : Type 0 where
  pub max_message_bytes : ℕ
  pub entry_channel : Option String
  pub allow_remote_open : Bool
  pub auto_join_on_open : Bool
  pub relay_enabled : Bool
  pub relay_ttl : ℕ
  pub max_seen : ℕ
  pub seen_ttl_ms : ℕ
  pub rate_bytes_per_second : ℕ
  pub rate_burst_bytes : ℕ
  pub max_strikes : ℕ
  pub strike_window_ms : ℕ
  pub block_ms : ℕ
  pub pow_enabled : Bool
  pub pow_difficulty : ℕ
  pub pow_require_entry : Bool
  pub pow_required_channels : Option (List String)
  pub invite_required : Bool
  pub invite_required_channels : Option (List String)
  pub invite_required_prefixes : Option (List String)
  pub owner_write_only : Bool
  pub owner_write_channels : Option (List String)
  pub welcome_required : Bool
  pub owner_keys : String → Option String
  pub default_owner_key : Option String
  pub self_key : Option String  -- normalizeKeyHex(this.peer?.wallet?.publicKey)

-- The settings of a node that is configured with nothing but its key.
abbrev pub default_settings : String → Settings
default_settings self = record {
  max_message_bytes = 1000000;
  entry_channel = none;
  allow_remote_open = true;
  auto_join_on_open = false;
  relay_enabled = true;
  relay_ttl = 3;
  max_seen = 5000;
  seen_ttl_ms = 120000;
  rate_bytes_per_second = 64000;
  rate_burst_bytes = 256000;
  max_strikes = 3;
  strike_window_ms = 5000;
  block_ms = 30000;
  pow_enabled = false;
  pow_difficulty = 0;
  pow_require_entry = false;
  pow_required_channels = none;
  invite_required = false;
  invite_required_channels = none;
  invite_required_prefixes = none;
  owner_write_only = false;
  owner_write_channels = none;
  welcome_required = true;
  owner_keys = λ channel. none;
  default_owner_key = none;
  self_key = some self;
}
