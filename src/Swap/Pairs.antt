-- ===== src/Swap/Pairs.antt =====
-- src/swap/pairs.js and src/swap/settlementTerms.js: what depends on the traded pair.
use intercom_swap.Prelude.{
  String, Bool, true, false, not, ◌&&◌, Option, none, some, if◌then◌else◌, str_eq,
}
use intercom_swap.Js.Text.{is_empty}
use intercom_swap.Js.Value.{Value, ◌!◌, is_reference, trimmed}
use intercom_swap.Swap.Constants.{Pair, btc_usdt, btc_tao, pair_text}

-- One row of PAIR_CONFIG.
pub record PairConfig : Type 0 where
  pub direction : String
  pub have : String
  pub want : String
  pub settlement_kind : String
  pub amount_field : String
  pub quote_refund_field : String
  pub rfq_min_refund_field : Option String
  pub rfq_max_refund_field : Option String
  pub offer_exact_refund_field : Option String

abbrev pub pair_config : Pair → PairConfig
pair_config btc_usdt = record {
  direction = "BTC_LN->USDT_SOL";
  have = "USDT_SOL";
  want = "BTC_LN";
  settlement_kind = "solana";
  amount_field = "usdt_amount";
  quote_refund_field = "sol_refund_window_sec";
  rfq_min_refund_field = some "min_sol_refund_window_sec";
  rfq_max_refund_field = some "max_sol_refund_window_sec";
  offer_exact_refund_field = none;
}
pair_config btc_tao = record {
  direction = "BTC_LN->TAO_EVM";
  have = "TAO_EVM";
  want = "BTC_LN";
  settlement_kind = "tao-evm";
  amount_field = "tao_amount_atomic";
  quote_refund_field = "settlement_refund_after_sec";
  rfq_min_refund_field = none;
  rfq_max_refund_field = none;
  offer_exact_refund_field = some "settlement_refund_after_sec";
}

abbrev find_pair : String → Option Pair
find_pair key =
    if str_eq key "BTC_LN/USDT_SOL"
    then some btc_usdt
    else if str_eq key "BTC_LN/TAO_EVM"
    then some btc_tao
    else none

-- normalizePair, for a value that String() reads: an unknown pair is taken for the default one.
unfoldable pub normalize_pair : Value → Pair
normalize_pair v = elim (find_pair (trimmed v)) [ some p ↦ p | none ↦ btc_usdt ]

unfoldable pub is_supported_pair : Pair → Bool
is_supported_pair p = elim (find_pair (pair_text p)) [ some q ↦ true | none ↦ false ]

abbrev pub is_tao_pair : Pair → Bool
is_tao_pair btc_usdt = false
is_tao_pair btc_tao = true

-- getAmountForPair; `legacy` is allowLegacyTaoFallback.
unfoldable pub get_amount_for_pair : Value → Pair → Bool → String
get_amount_for_pair body pair legacy =
    let direct = trimmed (body ! (pair_config pair).amount_field) in
    if not (is_reference body)
    then ""
    else if not (is_empty direct)
    then direct
    else if legacy && is_tao_pair pair
    then trimmed (body ! "usdt_amount")
    else ""

-- settlementTerms.js; `terms?.field` of null is undefined.
abbrev pub get_terms_settlement_recipient : Value → Value
get_terms_settlement_recipient terms = terms ! "sol_recipient"

abbrev pub get_terms_settlement_refund_address : Value → Value
get_terms_settlement_refund_address terms = terms ! "sol_refund"

abbrev pub get_terms_settlement_refund_after_unix : Value → Value
get_terms_settlement_refund_after_unix terms = terms ! "sol_refund_after_unix"

abbrev pub get_terms_settlement_asset_id : Value → Value
get_terms_settlement_asset_id terms = terms ! "sol_mint"
