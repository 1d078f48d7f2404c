-- ===== src/Sidechannel/Seen/Window.antt =====
-- How long an id stays among those of features/sidechannel/index.js, _rememberSeen.
use intercom_swap.Prelude.{
  ℕ, suc, ◌+◌, ◌≤◌, ◌<◌, ◌≡◌, refl, true, false, [], ◌∷◌, ◌++◌, arith, list_length, length-append,
  ltb, Bool-cases, inl, inr,
}
use intercom_swap.Js.Value.{Value, truthy, strict_eq}
use intercom_swap.Sidechannel.Settings.{Settings}
use intercom_swap.Sidechannel.Seen.{Seen, has_id, purge_seen, drop_oldest, remember_seen}

purge_seen-le :
    (ttl now : ℕ) (seen : Seen) → list_length (purge_seen ttl now seen) ≤ list_length seen
unfolding purge_seen
purge_seen-le ttl now [] = omega arith
purge_seen-le ttl now ((id, at) ∷ seen) = ground (arith, purge_seen-le ttl now seen)

drop_oldest-le :
    (limit : ℕ) (seen : Seen)
    → list_length seen ≤ suc limit
    → list_length (drop_oldest limit seen) ≤ limit
unfolding drop_oldest
drop_oldest-le limit [] h = omega arith
drop_oldest-le limit (entry ∷ seen) h = ground arith

-- The number of ids that are kept stays within its limit.
pub remember_seen-le :
    (settings : Settings) (id : Value) (now : ℕ) (seen : Seen)
    → list_length seen ≤ settings.max_seen
    → list_length (remember_seen settings id now seen).0 ≤ settings.max_seen
unfolding remember_seen
remember_seen-le settings id now seen h = ground (
  arith,
  purge_seen-le settings.seen_ttl_ms now (drop_oldest settings.max_seen (seen ++ (id, now) ∷ [])),
  drop_oldest-le settings.max_seen (seen ++ (id, now) ∷ []),
  length-append seen ((id, now) ∷ []),
)

-- An id that came at the time `at`, with at most n others after it.
pub data Holds (id : Value) (at n : ℕ) : Seen → Type 0 where
  first : {rest : Seen} → list_length rest ≤ n → Holds id at n ((id, at) ∷ rest)
  later : {entry : Value × ℕ} {rest : Seen} → Holds id at n rest → Holds id at n (entry ∷ rest)

Holds-has_id :
    {id : Value} {at n : ℕ} {seen : Seen}
    → strict_eq id id ≡ true
    → Holds id at n seen
    → has_id id seen ≡ true
unfolding has_id
Holds-has_id h (first l) = ground arith
Holds-has_id h (later {entry} {rest} r) = let tail = Holds-has_id h r in ground arith

pub Holds-weaken :
    {id : Value} {at m n : ℕ} {seen : Seen} → m ≤ n → Holds id at m seen → Holds id at n seen
Holds-weaken le (first l) = first (omega arith)
Holds-weaken le (later r) = later (Holds-weaken le r)

Holds-append :
    {id : Value} {at n : ℕ} {seen : Seen} (entry : Value × ℕ)
    → Holds id at n seen
    → Holds id at (suc n) (seen ++ entry ∷ [])
Holds-append entry (first {rest} l) = first (omega (arith, length-append rest (entry ∷ [])))
Holds-append entry (later r) = later (Holds-append entry r)

Holds-purge_seen :
    (ttl now : ℕ) {id : Value} {at n : ℕ} {seen : Seen}
    → now ≤ at + ttl
    → Holds id at n seen
    → Holds id at n (purge_seen ttl now seen)
unfolding purge_seen
Holds-purge_seen ttl now {at} le (first {rest} l) =
    let kept : ltb (at + ttl) now ≡ false = ground arith in rw kept (first l)
Holds-purge_seen ttl now le (later {entry = (other, when)} {rest} r) =
    elim (Bool-cases (ltb (when + ttl) now)) [
      | inl old ↦ rw old (Holds-purge_seen ttl now le r)
      | inr young ↦ rw young (later r)
    ]

Holds-drop_oldest :
    (limit : ℕ) {id : Value} {at n : ℕ} {seen : Seen}
    → n < limit
    → Holds id at n seen
    → Holds id at n (drop_oldest limit seen)
unfolding drop_oldest
Holds-drop_oldest limit lt (first {rest} l) =
    let kept : ltb limit (suc (list_length rest)) ≡ false = ground arith in rw kept (first l)
Holds-drop_oldest limit lt (later {entry} {rest} r) =
    elim (Bool-cases (ltb limit (suc (list_length rest)))) [
      | inl full ↦ rw full r
      | inr room ↦ rw room (later r)
    ]

-- One more message leaves the id where it is.
pub remember_seen-Holds :
    (settings : Settings) (other : Value) (now : ℕ) {id : Value} {at n : ℕ} {seen : Seen}
    → suc n < settings.max_seen
    → now ≤ at + settings.seen_ttl_ms
    → Holds id at n seen
    → Holds id at (suc n) (remember_seen settings other now seen).0
unfolding remember_seen
remember_seen-Holds settings other now {id} {at} {n} {seen} lt le h =
    elim (Bool-cases (truthy other)) [
      | inr falsy ↦ rw falsy (Holds-weaken (omega arith) h)
      | inl some_id ↦ elim (Bool-cases (has_id other seen)) [
        | inl old ↦ rw (some_id, old) (Holds-weaken (omega arith) h)
        | inr new ↦
            rw (some_id, new)
              (Holds-purge_seen settings.seen_ttl_ms now le
                (Holds-drop_oldest settings.max_seen lt (Holds-append (other, now) h)))
      ]
    ]

Holds-last : (id : Value) (at : ℕ) (seen : Seen) → Holds id at 0 (seen ++ (id, at) ∷ [])
Holds-last id at [] = first (omega arith)
Holds-last id at (entry ∷ seen) = later (Holds-last id at seen)

pub remember_seen-new :
    (settings : Settings) (id : Value) (now : ℕ) (seen : Seen)
    → truthy id ≡ true
    → 0 < settings.max_seen
    → (remember_seen settings id now seen).1 ≡ false
    → Holds id now 0 (remember_seen settings id now seen).0
unfolding remember_seen
remember_seen-new settings id now seen t pos h = elim (Bool-cases (has_id id seen)) [
  | inl old ↦ let e : true ≡ false = rw (t, old) at h in cc
  | inr new ↦
      rw (t, new)
        (Holds-purge_seen settings.seen_ttl_ms now (omega arith)
          (Holds-drop_oldest settings.max_seen pos (Holds-last id now seen)))
]

pub remember_seen-again :
    (settings : Settings) (id : Value) (now : ℕ) {at n : ℕ} (seen : Seen)
    → truthy id ≡ true
    → strict_eq id id ≡ true
    → Holds id at n seen
    → (remember_seen settings id now seen).1 ≡ true
unfolding remember_seen
remember_seen-again settings id now seen t e h = rw (t, Holds-has_id e h) refl
