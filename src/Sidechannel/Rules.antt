-- ===== src/Sidechannel/Rules.antt =====
-- features/sidechannel/index.js: what the settings ask of a channel.
use intercom_swap.Prelude.{
  String, Bool, true, false, not, ◌&&◌, ◌||◌, Option, some, none, List, [], ◌∷◌, elem, ◌==◌,
  if◌then◌else◌, str_eq,
}
use Prim.Native.Char.{code}
use intercom_swap.Js.Text.{trim, is_empty}
use intercom_swap.Sidechannel.Settings.{Settings}

-- _isEntry
unfoldable pub is_entry : Settings → String → Bool
unfolding trim
is_entry settings channel = elim settings.entry_channel [
  | none ↦ false
  | some entry ↦ not (is_empty (trim channel)) && str_eq (trim channel) (trim entry)
]

abbrev is_same : Option String → String → Bool
is_same none channel = false
is_same (some entry) channel = str_eq entry channel

-- _powRequired
unfoldable pub pow_required : Settings → String → Bool
pow_required settings channel =
    if not settings.pow_enabled || settings.pow_difficulty == 0
    then false
    else elim settings.pow_required_channels [
      | some channels ↦ elem channel channels
      | none ↦ if settings.pow_require_entry then is_same settings.entry_channel channel else true
    ]

-- text.startsWith(prefix)
starts_with : String → String → Bool
starts_with String.[] text = true
starts_with (String.◌∷◌ c prefix) String.[] = false
starts_with (String.◌∷◌ c prefix) (String.◌∷◌ d text) = code c == code d && starts_with prefix text

any_prefix : List String → String → Bool
unfolding starts_with
any_prefix [] channel = false
any_prefix (prefix ∷ prefixes) channel =
    (not (is_empty prefix) && starts_with prefix channel) || any_prefix prefixes channel

abbrev listed : Option (List String) → String → Bool
listed none channel = false
listed (some channels) channel = elem channel channels

abbrev prefixed : Option (List String) → String → Bool
unfolding any_prefix
prefixed none channel = false
prefixed (some prefixes) channel = any_prefix prefixes channel

abbrev is_set : Option (List String) → Bool
is_set none = false
is_set (some _) = true

-- _inviteRequired
unfoldable pub invite_required : Settings → String → Bool
unfolding is_entry prefixed
invite_required settings channel =
    if is_entry settings channel
    then false
    else if not settings.invite_required
    then false
    else if listed settings.invite_required_channels channel
    then true
    else if prefixed settings.invite_required_prefixes channel
    then true
    else not (is_set settings.invite_required_channels || is_set settings.invite_required_prefixes)

-- _ownerWriteOnly
unfoldable pub owner_write_only : Settings → String → Bool
unfolding is_entry trim
owner_write_only settings channel =
    if is_entry settings channel
    then false
    else settings.owner_write_only || listed settings.owner_write_channels (trim channel)

-- _getOwnerKey
unfoldable pub get_owner_key : Settings → String → Option String
unfolding trim
get_owner_key settings channel = elim (settings.owner_keys (trim channel)) [
  | some key ↦ some key
  | none ↦ settings.default_owner_key
]

-- _welcomeRequired
unfoldable pub welcome_required : Settings → String → Bool
unfolding is_entry
welcome_required settings channel = not (is_entry settings channel) && settings.welcome_required
