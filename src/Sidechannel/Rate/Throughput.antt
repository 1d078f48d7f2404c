-- ===== src/Sidechannel/Rate/Throughput.antt =====
-- What the limiter of features/sidechannel/index.js lets through.
use intercom_swap.Prelude.{
  ℕ, ◌+◌, ◌-◌, ◌*◌, ◌≤◌, ◌<◌, ◌≡◌, Bool, true, false, List, [], ◌∷◌, ltb, arith, Bool-cases, inl,
  inr,
}
use intercom_swap.Sidechannel.Settings.{Settings}
use intercom_swap.Sidechannel.Rate.{
  Limiter, capacity, new_limiter, reset_strikes, refilled, refill, strike, spend, check_rate,
}

-- The bytes that a call lets through.
abbrev passed : Bool → ℕ → ℕ
passed true bytes = bytes
passed false bytes = 0

-- What was let through since `start`, with the tokens left, is within the burst and the refill.
pub record IsWithin (settings : Settings) (start total : ℕ) (limiter : Limiter) : Type 0 where
  pub since : start ≤ limiter.last_refill
  pub budget :
      total * 1000 + limiter.tokens
      ≤ capacity settings + (limiter.last_refill - start) * settings.rate_bytes_per_second

refilled-le :
    (settings : Settings) (elapsed tokens : ℕ)
    → refilled settings elapsed tokens ≤ tokens + elapsed * settings.rate_bytes_per_second
unfolding refilled
refilled-le settings elapsed tokens = ground arith

span : (a b c r : ℕ) → a ≤ b → b ≤ c → (b - a) * r + (c - b) * r ≡ (c - a) * r
span a b c r h k = let e : c - a ≡ (b - a) + (c - b) = omega arith in rw e (grind arith)

refill-IsWithin :
    (settings : Settings) (start total now : ℕ) (l : Limiter)
    → IsWithin settings start total l
    → IsWithin settings start total (refill settings now l)
unfolding refill
refill-IsWithin settings start total now l i = elim (Bool-cases (ltb l.last_refill now)) [
  | inr same ↦ rw same i
  | inl later ↦
      let before : l.last_refill < now = ground arith in
      rw later (record {
        since = omega (arith, i.since);
        budget = omega (
          arith,
          i.budget,
          refilled-le settings (now - l.last_refill) l.tokens,
          span start l.last_refill now settings.rate_bytes_per_second i.since (omega arith),
        );
      })
]

reset_strikes-IsWithin :
    (settings : Settings) (start total now : ℕ) (l : Limiter)
    → IsWithin settings start total l
    → IsWithin settings start total (reset_strikes settings now l)
unfolding reset_strikes
reset_strikes-IsWithin settings start total now l i = ground arith

spend-IsWithin :
    (settings : Settings) (start total now bytes : ℕ) (l : Limiter)
    → IsWithin settings start total l
    → IsWithin settings start
        (total + passed (spend settings now bytes l).1 bytes)
        (spend settings now bytes l).0
unfolding spend strike
spend-IsWithin settings start total now bytes l i = ground arith

check_rate-IsWithin :
    (settings : Settings) (start total now bytes : ℕ) (l : Limiter)
    → IsWithin settings start total l
    → IsWithin settings start
        (total + passed (check_rate settings now bytes l).1 bytes)
        (check_rate settings now bytes l).0
unfolding check_rate
check_rate-IsWithin settings start total now bytes l i =
    elim (Bool-cases (ltb now l.blocked_until)) [
      | inl blocked ↦ rw blocked (record { since = i.since; budget = omega (arith, i.budget) })
      | inr free ↦ rw free (
          spend-IsWithin settings start total now bytes _ (
            refill-IsWithin settings start total now _
              (reset_strikes-IsWithin settings start total now l i)))
    ]

-- Messages that come one after another on one connection, each a time and a size.
pub check_all : Settings → List (ℕ × ℕ) → Limiter → Limiter
check_all settings [] l = l
check_all settings ((now, bytes) ∷ calls) l =
    check_all settings calls (check_rate settings now bytes l).0

-- The bytes of those among them that are let through.
pub let_through : Settings → List (ℕ × ℕ) → Limiter → ℕ
let_through settings [] l = 0
let_through settings ((now, bytes) ∷ calls) l =
    passed (check_rate settings now bytes l).1 bytes
    + let_through settings calls (check_rate settings now bytes l).0

check_all-IsWithin :
    (settings : Settings) (start : ℕ) (calls : List (ℕ × ℕ)) (total : ℕ) (l : Limiter)
    → IsWithin settings start total l
    → IsWithin settings start (total + let_through settings calls l) (check_all settings calls l)
unfolding check_all let_through
check_all-IsWithin settings start [] total l i = record {
  since = i.since;
  budget = omega (arith, i.budget);
}
check_all-IsWithin settings start ((now, bytes) ∷ calls) total l i =
    let rest =
      check_all-IsWithin settings start calls _ _
        (check_rate-IsWithin settings start total now bytes l i) in
    record { since = rest.since; budget = omega (arith, rest.budget) }

abbrev pub AllUntil : ℕ → List (ℕ × ℕ) → Type 0
AllUntil end [] = Unit
AllUntil end ((now, bytes) ∷ calls) = (now ≤ end) × AllUntil end calls

last_refill-le :
    (settings : Settings) (end now bytes : ℕ) (l : Limiter)
    → now ≤ end
    → l.last_refill ≤ end
    → (check_rate settings now bytes l).0.last_refill ≤ end
unfolding check_rate reset_strikes refill spend strike
last_refill-le settings end now bytes l h k = ground arith

check_all-last_refill :
    (settings : Settings) (end : ℕ) (calls : List (ℕ × ℕ)) (l : Limiter)
    → AllUntil end calls
    → l.last_refill ≤ end
    → (check_all settings calls l).last_refill ≤ end
unfolding check_all
check_all-last_refill settings end [] l by h = h
check_all-last_refill settings end ((now, bytes) ∷ calls) l (le, by) h =
    check_all-last_refill settings end calls (check_rate settings now bytes l).0 by
      (last_refill-le settings end now bytes l le h)

-- From its first message at `start` until `end`, a connection gets through at most the burst and
-- the rate over that time, whatever it sends and when: in thousandths of a byte, since the rate is
-- by the second and the times are in milliseconds.
pub let_through-le :
    (settings : Settings) (start end : ℕ) (calls : List (ℕ × ℕ))
    → start ≤ end
    → AllUntil end calls
    → let_through settings calls (new_limiter settings start) * 1000
      ≤ settings.rate_burst_bytes * 1000 + (end - start) * settings.rate_bytes_per_second
let_through-le settings start end calls h by =
    let i =
      check_all-IsWithin settings start calls 0 (new_limiter settings start)
        (record { since = omega arith; budget = omega arith }) in
    let until = check_all-last_refill settings end calls (new_limiter settings start) by h in
    let last = (check_all settings calls (new_limiter settings start)).last_refill in
    omega (arith, i.budget, span start last end settings.rate_bytes_per_second i.since until)
