-- ===== src/Swap/RefundPolicy.antt =====
-- src/swap/pairs.js: the refund windows of a peer's settings, brought into their range.
pub mod Bounds
pub mod Valid
use intercom_swap.Prelude.{ℕ, String, Bool, true, false, Option, some, none, if◌then◌else◌}
use intercom_swap.Js.Text.{trim}
use intercom_swap.Js.Number.{Num, nat, truncate, less_eq, plus, is_finite}
use intercom_swap.Js.Parse.{coalesce, parse_int, num_min, num_max}
use intercom_swap.Js.Value.{Value, undefined, null, num, obj, field, end, ◌!◌, to_text}
use intercom_swap.Swap.Constants.{Pair, btc_usdt, btc_tao}
use intercom_swap.Swap.Pairs.{pair_config, normalize_pair}

finite_int : Num → Option Num
unfolding truncate
finite_int n = if is_finite n then some (truncate n) else none

-- toIntOrNull
unfoldable pub to_int_or_null : Value → Option Num
unfolding finite_int parse_int trim to_text
to_int_or_null undefined = none
to_int_or_null null = none
to_int_or_null (num n) = finite_int n
to_int_or_null v = finite_int (parse_int (trim (to_text v)))

-- toIntOrNull(value) ?? fallback
unfoldable pub int_or : Value → Num → Num
int_or v fallback = elim (to_int_or_null v) [ some n ↦ n | none ↦ fallback ]

-- normalizeSec
unfoldable pub normalize_sec : Value → Num → Num → Num → Num
unfolding int_or num_max num_min
normalize_sec v fallback low high = num_max low (num_min high (int_or v fallback))

pub record RefundPolicy : Type 0 where
  pub pair : Pair
  pub quote_refund_field : String
  pub min_field : Option String
  pub max_field : Option String
  pub quote_refund_sec : Num
  pub min_refund_sec : Num
  pub max_refund_sec : Num
  pub range_valid : Bool
  pub rfq_fields : Value
  pub quote_fields : Value

-- The bounds and the fallbacks that `defaults` gives.
abbrev pub min_sec_of : Value → Num
min_sec_of defaults = int_or (defaults ! "minSec") (nat 3600)

abbrev pub max_sec_of : Value → Num
max_sec_of defaults = int_or (defaults ! "maxSec") (nat 604800)

abbrev quote_sec : Pair → Value → Value → Num
quote_sec pair raw defaults =
    normalize_sec (coalesce (raw ! "quoteRefundSec") (raw ! (pair_config pair).quote_refund_field))
      (int_or (defaults ! "defaultQuoteRefundSec") (nat 259200)) (min_sec_of defaults)
      (max_sec_of defaults)

abbrev least_sec : Value → Value → Num
least_sec raw defaults =
    normalize_sec (coalesce (raw ! "minRefundSec") (raw ! "min_sol_refund_window_sec"))
      (int_or (defaults ! "defaultMinRefundSec") (min_sec_of defaults)) (min_sec_of defaults)
      (max_sec_of defaults)

abbrev most_sec : Value → Value → Num
most_sec raw defaults =
    normalize_sec (coalesce (raw ! "maxRefundSec") (raw ! "max_sol_refund_window_sec"))
      (int_or (defaults ! "defaultMaxRefundSec") (max_sec_of defaults)) (min_sec_of defaults)
      (max_sec_of defaults)

abbrev policy_of : Pair → Num → Num → Num → Bool → Value → RefundPolicy
policy_of pair quote least most valid fields = record {
  pair = pair;
  quote_refund_field = (pair_config pair).quote_refund_field;
  min_field = (pair_config pair).rfq_min_refund_field;
  max_field = (pair_config pair).rfq_max_refund_field;
  quote_refund_sec = quote;
  min_refund_sec = least;
  max_refund_sec = most;
  range_valid = valid;
  rfq_fields = fields;
  quote_fields = obj (field (pair_config pair).quote_refund_field (num quote) end);
}

-- A TAO swap has one exact refund time, a Solana swap a range.
unfoldable pub policy_for : Pair → Value → Value → RefundPolicy
unfolding normalize_sec coalesce int_or ◌!◌ less_eq
policy_for btc_tao raw defaults =
    let quote = quote_sec btc_tao raw defaults in
    policy_of btc_tao quote quote quote true
      (obj (field "settlement_refund_after_sec" (num quote) end))
policy_for btc_usdt raw defaults =
    let least = least_sec raw defaults in
    let most = most_sec raw defaults in
    policy_of btc_usdt (quote_sec btc_usdt raw defaults) least most (less_eq least most) (
      obj (
        field "min_sol_refund_window_sec" (num least)
          (field "max_sol_refund_window_sec" (num most) end)))

-- normalizeRefundPolicyForPair
unfoldable pub normalize_refund_policy_for_pair : Value → Value → Value → RefundPolicy
unfolding policy_for normalize_pair
normalize_refund_policy_for_pair pair raw defaults = policy_for (normalize_pair pair) raw defaults

-- buildRefundFieldsForPair; `clock` is Math.floor(Date.now() / 1000).
unfoldable pub build_refund_fields_for_pair : ℕ → Value → Value → Value
unfolding int_or plus
build_refund_fields_for_pair clock policy now_unix =
    let window =
      int_or (policy ! "quoteRefundSec") (int_or (policy ! "minRefundSec") (nat 259200)) in
    obj (field "sol_refund_after_unix" (num (plus (int_or now_unix (nat clock)) window)) end)
