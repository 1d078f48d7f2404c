-- ===== src/Swap/Fees.antt =====
-- src/swap/fees.js: the settlement amount with the fee on top, and the fee caps.
pub mod Bounds
use intercom_swap.Prelude.{ℕ, suc, ◌+◌, ◌-◌, ◌*◌, ◌/◌, Option, some, none, ltb, ◌==◌, if◌then◌else◌}
use intercom_swap.Js.Number.{Num, nat, neg, truncate, less, less_eq, is_finite}
use intercom_swap.Js.Parse.{coalesce, num_min, num_max}
use intercom_swap.Js.Value.{Value, num, truthy, to_text, to_number, big_int_of_text}
use intercom_swap.Js.Result.{Result, ok, throw}

-- Number.isFinite(bps) ? Math.max(0, Math.min(15_000, Math.trunc(bps))) : 0
unfoldable pub applied_fee_bps : Value → Num
unfolding num_max num_min truncate
applied_fee_bps (num n) =
    if is_finite n then num_max (nat 0) (num_min (nat 15000) (truncate n)) else nat 0
applied_fee_bps _ = nat 0

-- (amount * BigInt(10_000 + bps) + 9_999n) / 10_000n, which BigInt division cuts towards 0
unfoldable pub with_fee : Num → Num → Num
with_fee (nat amount) (nat bps) = nat ((amount * (10000 + bps) + 9999) / 10000)
with_fee (neg amount) (nat bps) =
    let size = (suc amount * (10000 + bps) - 9999) / 10000 in
    if size == 0 then nat 0 else neg (size - 1)
with_fee amount _ = amount

amount_with_fee : Num → Num → Num
unfolding less_eq with_fee
amount_with_fee amount bps = if less_eq bps (nat 0) then amount else with_fee amount bps

-- computeSettlementAmountWithFeeCeil
unfoldable pub compute_settlement_amount_with_fee_ceil : Value → Value → Result Num
unfolding amount_with_fee big_int_of_text to_text truthy
compute_settlement_amount_with_fee_ceil amount bps =
    elim (big_int_of_text (to_text (if truthy amount then amount else num (nat 0)))) [
      | none ↦ throw
      | some n ↦ ok (amount_with_fee n (applied_fee_bps bps))
    ]

pub record FeeCaps : Type 0 where
  pub settlement_leg_max_platform_fee_bps : Num
  pub settlement_leg_max_trade_fee_bps : Num
  pub settlement_leg_max_total_fee_bps : Num

-- Math.max(0, Math.min(cap, raw ?? fallback))
unfoldable pub normalize_cap : ℕ → Value → Value → Num
unfolding num_max num_min coalesce to_number
normalize_cap cap raw fallback =
    num_max (nat 0) (num_min (nat cap) (to_number (coalesce raw fallback)))

-- normalizeSettlementFeeCapsBps: the platform, the trade and the total fee, then their defaults.
unfoldable pub normalize_settlement_fee_caps_bps :
    Value → Value → Value → Value → Value → Value → FeeCaps
unfolding normalize_cap
normalize_settlement_fee_caps_bps platform trade total default_platform default_trade
      default_total =
    record {
      settlement_leg_max_platform_fee_bps = normalize_cap 500 platform default_platform;
      settlement_leg_max_trade_fee_bps = normalize_cap 1000 trade default_trade;
      settlement_leg_max_total_fee_bps = normalize_cap 1500 total default_total;
    }
