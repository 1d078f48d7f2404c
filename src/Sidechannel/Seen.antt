-- ===== src/Sidechannel/Seen.antt =====
-- features/sidechannel/index.js, _rememberSeen and _purgeSeen: the ids of recent messages, in the
-- order in which they came.
pub mod Window
use intercom_swap.Prelude.{
  ℕ, ◌+◌, String, Bool, true, false, not, ◌||◌, List, [], ◌∷◌, ◌++◌, ltb, if◌then◌else◌,
}
use intercom_swap.Prelude.{list_length}
use intercom_swap.Js.Value.{Value, truthy, strict_eq}
use intercom_swap.Sidechannel.Settings.{Settings}

abbrev pub Seen : Type 0
Seen = List (Value × ℕ)

unfoldable pub has_id : Value → Seen → Bool
has_id id [] = false
has_id id ((other, at) ∷ seen) = strict_eq id other || has_id id seen

-- _purgeSeen: from the front, while the entries are older than the time to live.
unfoldable pub purge_seen : ℕ → ℕ → Seen → Seen
purge_seen ttl now [] = []
purge_seen ttl now ((id, at) ∷ seen) =
    let rest = purge_seen ttl now seen in if ltb (at + ttl) now then rest else (id, at) ∷ seen

drop_oldest : ℕ → Seen → Seen
drop_oldest limit [] = []
drop_oldest limit (entry ∷ seen) =
    if ltb limit (list_length (entry ∷ seen)) then seen else entry ∷ seen

-- _rememberSeen: whether the id was there, and the ids afterwards.
unfoldable pub remember_seen : Settings → Value → ℕ → Seen → Seen × Bool
unfolding drop_oldest
remember_seen settings id now seen =
    if not (truthy id) then (seen, false) else if has_id id seen then (seen, true) else (
      purge_seen settings.seen_ttl_ms now (drop_oldest settings.max_seen (seen ++ (id, now) ∷ [])),
      false,
    )
