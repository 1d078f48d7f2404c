-- ===== src/Swap/Fees/Bounds.antt =====
-- What the fees of src/swap/fees.js come to.
use intercom_swap.Prelude.{ℕ, zero, suc, ◌+◌, ◌*◌, ◌/◌, ◌≤◌, ◌<◌, ◌≡◌, refl, true, some, arith}
use intercom_swap.Js.Number.{Num, nat, less, less_eq, truncate, is_integer}
use intercom_swap.Js.Parse.{coalesce, num_min, num_max, clamped}
use intercom_swap.Js.Value.{Value, num, truthy, to_text, to_number, big_int_of_text}
use intercom_swap.Js.Result.{ok}
use intercom_swap.Swap.Fees.{
  applied_fee_bps, with_fee, amount_with_fee, compute_settlement_amount_with_fee_ceil,
  normalize_cap, normalize_settlement_fee_caps_bps, FeeCaps,
}

applied_fee_bps-nat : (f : ℕ) → f ≤ 15000 → applied_fee_bps (num (nat f)) ≡ nat f
unfolding applied_fee_bps num_max num_min less truncate
applied_fee_bps-nat f h = ground arith

-- n is a / 10000, rounded up.
pub record IsCeil (a n : ℕ) : Type 0 where
  pub enough : a ≤ n * 10000
  pub least : n * 10000 < a + 10000

ceil : (a : ℕ) → IsCeil a ((a + 9999) / 10000)
ceil a = record { enough = omega arith; least = omega arith }

whole : (a : ℕ) → IsCeil (a * 10000) a
whole a = record { enough = omega arith; least = omega arith }

amount_with_fee-IsCeil :
    (a f : ℕ) → (n : ℕ) × (amount_with_fee (nat a) (nat f) ≡ nat n) × IsCeil (a * (10000 + f)) n
unfolding amount_with_fee less_eq with_fee
amount_with_fee-IsCeil a zero = (a, refl, whole a)
amount_with_fee-IsCeil a (suc f) =
    ((a * (10000 + suc f) + 9999) / 10000, ground arith, ceil (a * (10000 + suc f)))

-- For an amount that is truthy and that BigInt reads as a whole number, and a whole fee of up to
-- 15000 basis points, the settlement amount with its fee is amount × (1 + fee), rounded up to the
-- next atomic unit.
pub compute_settlement_amount_with_fee_ceil-IsCeil :
    (amount : Value) (a f : ℕ)
    → truthy amount ≡ true
    → big_int_of_text (to_text amount) ≡ some (nat a)
    → f ≤ 15000
    → (n : ℕ) × (compute_settlement_amount_with_fee_ceil amount (num (nat f)) ≡ ok (nat n))
      × IsCeil (a * (10000 + f)) n
unfolding compute_settlement_amount_with_fee_ceil
compute_settlement_amount_with_fee_ceil-IsCeil amount a f t b le =
    let (n, e, c) = amount_with_fee-IsCeil a f in (n, ground (arith, applied_fee_bps-nat f le), c)

-- A cap in force: a whole number that is not above the limit.
abbrev pub IsCap : ℕ → Num → Type 0
IsCap limit x = (n : ℕ) × (x ≡ nat n) × (n ≤ limit)

normalize_cap-IsCap :
    (limit : ℕ) (raw fallback : Value)
    → is_integer (to_number (coalesce raw fallback)) ≡ true
    → IsCap limit (normalize_cap limit raw fallback)
unfolding normalize_cap
normalize_cap-IsCap limit raw fallback h =
    let (n, e, low, high) = clamped 0 limit (to_number (coalesce raw fallback)) h (omega arith) in
    (n, e, high)

-- Whole basis points within the limit of each fee.
pub record AreCaps (caps : FeeCaps) : Type 0 where
  pub platform : IsCap 500 caps.settlement_leg_max_platform_fee_bps
  pub trade : IsCap 1000 caps.settlement_leg_max_trade_fee_bps
  pub total : IsCap 1500 caps.settlement_leg_max_total_fee_bps

-- The caps of integer settings are whole basis points, at most 500 for the platform, 1000 for the
-- trade and 1500 for both.
pub normalize_settlement_fee_caps_bps-AreCaps :
    (platform trade total p t q : Value)
    → is_integer (to_number (coalesce platform p)) ≡ true
    → is_integer (to_number (coalesce trade t)) ≡ true
    → is_integer (to_number (coalesce total q)) ≡ true
    → AreCaps (normalize_settlement_fee_caps_bps platform trade total p t q)
unfolding normalize_settlement_fee_caps_bps
normalize_settlement_fee_caps_bps-AreCaps platform trade total p t q hp ht hq = record {
  platform = normalize_cap-IsCap 500 platform p hp;
  trade = normalize_cap-IsCap 1000 trade t ht;
  total = normalize_cap-IsCap 1500 total q hq;
}
