-- ===== src/Rfq/OfferMatch.antt =====
-- src/rfq/offerMatch.js: the first of the offers in an announcement that a peer takes.
pub mod Limits
pub mod Tested
pub mod Sound
use intercom_swap.Prelude.{
  ℕ, String, Bool, true, false, not, ◌&&◌, ◌||◌, Option, some, none, if◌then◌else◌, str_eq,
}
use intercom_swap.Js.Text.{trim, to_lower, is_empty, every, is_digit, codes}
use intercom_swap.Js.Number.{Num, nat, less, less_eq, is_finite, is_integer}
use intercom_swap.Js.Parse.{coalesce}
use intercom_swap.Js.Value.{
  Value, Items, nil, cons, undefined, num, str, arr, ◌!◌, truthy, to_text, to_number, trimmed,
  normalize_hex, or_empty, is_reference, is_present, is_text, big_int_of_text,
}
use intercom_swap.Js.Result.{Result, ok, error, throw, ◌>>=◌}
use intercom_swap.Protocol.SignedMessage.{Crypto}
use intercom_swap.Swap.Constants.{Pair}
use intercom_swap.Swap.Pairs.{pair_config, normalize_pair, is_tao_pair, get_amount_for_pair}
use intercom_swap.Swap.Fees.{FeeCaps, normalize_settlement_fee_caps_bps}
use intercom_swap.Swap.Schema.Envelope.{validate_swap_envelope, default_opts}
use intercom_swap.Rfq.AppHash.{Defaults, expected_app_hash}

-- What the peer asks of an offer.
pub record Wanted : Type 0 where
  pub offer_channels : Value
  pub rfq_channel : Value
  pub fallback_pair : Pair
  pub program_id : String
  pub htlc_address : String
  pub caps : FeeCaps
  pub min_refund_sec : Num
  pub min_settlement_refund_sec : Num
  pub max_refund_sec : Num
  pub now_unix : Num

abbrev number_or : Value → ℕ → Value
number_or v fallback = num (to_number (coalesce v (num (nat fallback))))

-- The defaults of matchOfferAnnouncementEvent; `clock` is Math.floor(Date.now() / 1000).
unfoldable pub wanted : Value → ℕ → Wanted
wanted opts clock =
    let min_refund = to_number (coalesce (opts ! "minRefundSec") (num (nat 259200))) in
    let now = to_number (opts ! "nowUnix") in
    record {
      offer_channels = opts ! "offerChannels";
      rfq_channel = opts ! "rfqChannel";
      fallback_pair = normalize_pair (opts ! "fallbackPair");
      program_id = trimmed (opts ! "expectedProgramId");
      htlc_address = trimmed (opts ! "taoHtlcAddress");
      caps =
          normalize_settlement_fee_caps_bps (number_or (opts ! "maxPlatformFeeBps") 500)
            (number_or (opts ! "maxTradeFeeBps") 1000) (number_or (opts ! "maxTotalFeeBps") 1500)
            (num (nat 500)) (num (nat 1000)) (num (nat 1500));
      min_refund_sec = min_refund;
      min_settlement_refund_sec =
          to_number (coalesce (opts ! "minSettlementRefundSec") (num min_refund));
      max_refund_sec = to_number (coalesce (opts ! "maxRefundSec") (num (nat 604800)));
      now_unix = if is_finite now then now else nat clock;
    }

unfoldable pub any_trimmed : Items → String → Bool
any_trimmed nil channel = false
any_trimmed (cons v vs) channel = str_eq (trimmed v) channel || any_trimmed vs channel

-- includesChannel: a list that is empty or missing has every channel.
unfoldable pub includes_channel : Value → Value → Bool
unfolding any_trimmed
includes_channel (arr nil) channel = true
includes_channel (arr (cons v vs)) channel =
    not (is_empty (trimmed channel)) && any_trimmed (cons v vs) (trimmed channel)
includes_channel _ channel = true

-- hasValue
unfoldable pub has_value : Value → Bool
has_value v = is_present v && not (is_empty (trim (to_text v)))

-- validateOfferFieldsForPair
unfoldable pub are_fields_of : Pair → Value → Bool
unfolding has_value
are_fields_of pair offer =
    if is_tao_pair pair
    then not (has_value (offer ! "usdt_amount"))
      && not (
          has_value (offer ! "min_sol_refund_window_sec")
          || has_value (offer ! "max_sol_refund_window_sec"))
    else not (has_value (offer ! "tao_amount_atomic"))
      && not (has_value (offer ! "settlement_refund_after_sec"))

pub record Match : Type 0 where
  pub pair : Pair
  pub offer_channel : String
  pub offer_name : String
  pub offer_signer : Option String
  pub valid_until_unix : Option Num
  pub amount_atomic : String
  pub btc_sats : Num
  pub max_platform_fee_bps : Num
  pub max_trade_fee_bps : Num
  pub max_total_fee_bps : Num
  pub refund_min_sec : Num
  pub refund_max_sec : Num

abbrev pub offer_pair : Wanted → Value → Pair
offer_pair w offer =
    if truthy (offer ! "pair") then normalize_pair (offer ! "pair") else w.fallback_pair

-- have, want, the fields of the pair, and the kind of settlement
unfoldable pub is_of_pair : Pair → Value → Bool
unfolding are_fields_of
is_of_pair pair offer =
    str_eq (to_text (or_empty (offer ! "have"))) (pair_config pair).have
    && str_eq (to_text (or_empty (offer ! "want"))) "BTC_LN"
    && are_fields_of pair offer
    && (not (has_value (offer ! "settlement_kind"))
        || str_eq (to_lower (trim (to_text (offer ! "settlement_kind"))))
            (pair_config pair).settlement_kind)

-- String(offer.app_hash || body.app_hash || '').trim().toLowerCase()
unfoldable pub offer_app_hash : Value → Value → String
offer_app_hash body offer =
    if truthy (offer ! "app_hash")
    then normalize_hex (offer ! "app_hash")
    else normalize_hex (body ! "app_hash")

-- /^[0-9]+$/.test(amount) && BigInt(amount) > 0n
unfoldable pub is_positive_amount : String → Bool
is_positive_amount amount =
    not (is_empty amount)
    && every is_digit (codes amount)
    && elim (big_int_of_text amount) [ none ↦ false | some n ↦ not (less_eq n (nat 0)) ]

-- String(getAmountForPair(offer, pair) || '').trim()
abbrev pub offer_amount : Pair → Value → String
offer_amount pair offer = trim (get_amount_for_pair offer pair false)

abbrev pub offer_caps : Value → FeeCaps
offer_caps offer =
    normalize_settlement_fee_caps_bps (num (to_number (offer ! "max_platform_fee_bps")))
      (num (to_number (offer ! "max_trade_fee_bps")))
      (num (to_number (offer ! "max_total_fee_bps"))) (num (nat 0)) (num (nat 0)) (num (nat 0))

-- The three guards on a fee, of the limit of the code and of the peer
unfoldable pub is_fee_within : Num → ℕ → Num → Bool
is_fee_within fee limit cap =
    is_integer fee && not (less fee (nat 0)) && not (less (nat limit) fee) && not (less cap fee)

unfoldable pub are_fees_within : FeeCaps → FeeCaps → Bool
unfolding is_fee_within
are_fees_within offered caps =
    is_fee_within offered.settlement_leg_max_platform_fee_bps 500
      caps.settlement_leg_max_platform_fee_bps
    && is_fee_within offered.settlement_leg_max_trade_fee_bps 1000
        caps.settlement_leg_max_trade_fee_bps
    && is_fee_within offered.settlement_leg_max_total_fee_bps 1500
        caps.settlement_leg_max_total_fee_bps

-- A refund time within the limits of offers
abbrev pub is_refund_sec : Num → Bool
is_refund_sec sec = not (less sec (nat 3600)) && not (less (nat 604800) sec)

-- The refund times that are taken, as a range: of a TAO offer there is one.
unfoldable pub refund_range : Wanted → Pair → Value → Option (Num × Num)
refund_range w pair offer =
    let after = to_number (offer ! "settlement_refund_after_sec") in
    let least = to_number (offer ! "min_sol_refund_window_sec") in
    let most = to_number (offer ! "max_sol_refund_window_sec") in
    if is_tao_pair pair
    then (if is_integer after
          && is_refund_sec after
          && not (less after w.min_settlement_refund_sec || less w.max_refund_sec after)
        then some (after, after)
        else none)
    else if (is_integer least && is_integer most)
        && is_refund_sec least
        && is_refund_sec most
        && not (less most least)
        && not (less least w.min_refund_sec || less w.max_refund_sec most)
    then some (least, most)
    else none

-- normalizeMatchedOffer
unfoldable pub normalize_matched_offer : Value → Value → Value → Pair → Value → Num × Num → Match
normalize_matched_offer channel msg body pair offer (least, most) =
    let until = to_number (body ! "valid_until_unix") in
    let signer = normalize_hex (msg ! "signer") in
    record {
      pair = pair;
      offer_channel = to_text (or_empty channel);
      offer_name = to_text (or_empty (body ! "name"));
      offer_signer = if is_empty signer then none else some signer;
      valid_until_unix = if is_finite until then some until else none;
      amount_atomic = offer_amount pair offer;
      btc_sats = to_number (offer ! "btc_sats");
      max_platform_fee_bps = to_number (offer ! "max_platform_fee_bps");
      max_trade_fee_bps = to_number (offer ! "max_trade_fee_bps");
      max_total_fee_bps = to_number (offer ! "max_total_fee_bps");
      refund_min_sec = least;
      refund_max_sec = most;
    }

-- The guards on an offer after its application hash
unfoldable pub is_acceptable : Wanted → Pair → Value → Bool
unfolding is_positive_amount are_fees_within
is_acceptable w pair offer =
    is_integer (to_number (offer ! "btc_sats"))
    && not (less (to_number (offer ! "btc_sats")) (nat 1))
    && is_positive_amount (offer_amount pair offer)
    && are_fees_within (offer_caps offer) w.caps

-- The body of the loop, with what the rest of the offers gives
unfoldable pub match_offer :
    Crypto
    → Defaults
    → Wanted
    → Value
    → Value
    → Value
    → Value
    → Result (Option Match)
    → Result (Option Match)
match_offer crypto defaults w channel msg body offer others =
    let pair = offer_pair w offer in
    let hash = offer_app_hash body offer in
    if is_reference offer && is_of_pair pair offer
    then expected_app_hash crypto defaults pair w.program_id w.htlc_address >>= (λ expected.
      if not (is_empty hash) && str_eq hash (to_lower expected) && is_acceptable w pair offer
      then elim (refund_range w pair offer) [
        | none ↦ others
        | some range ↦ ok (some (normalize_matched_offer channel msg body pair offer range))
      ]
      else others)
    else others

unfoldable pub match_offers :
    Crypto → Defaults → Wanted → Value → Value → Value → Items → Result (Option Match)
unfolding match_offer offer_app_hash
match_offers crypto defaults w channel msg body nil = ok none
match_offers crypto defaults w channel msg body (cons offer offers) =
    match_offer crypto defaults w channel msg body offer
      (match_offers crypto defaults w channel msg body offers)

unfoldable pub items_of : Value → Items
items_of (arr vs) = vs
items_of _ = nil

is_ok : Result (Unit {0}) → Bool
is_ok (ok u) = true
is_ok _ = false

-- Number.isFinite(validUntilUnix) && validUntilUnix <= nowUnix
abbrev pub is_expired : Num → Num → Bool
is_expired until now = is_finite until && less_eq until now

-- The guards on the announcement as a whole
unfoldable pub is_announcement : Wanted → Value → Bool
unfolding includes_channel is_ok
is_announcement w evt =
    let msg = evt ! "message" in
    let body = msg ! "body" in
    is_text (evt ! "type") "sidechannel_message"
    && includes_channel w.offer_channels (evt ! "channel")
    && is_reference msg
    && is_text (msg ! "kind") "swap.svc_announce"
    && is_ok (validate_swap_envelope msg default_opts)
    && is_reference body
    && not (is_expired (to_number (body ! "valid_until_unix")) w.now_unix)
    && includes_channel (body ! "rfq_channels") w.rfq_channel

-- matchOfferAnnouncementEvent; null is none.
unfoldable pub match_offer_announcement_event :
    Crypto → Defaults → Value → ℕ → Value → Result (Option Match)
unfolding wanted items_of
match_offer_announcement_event crypto defaults opts clock evt =
    let w = wanted opts clock in
    let msg = evt ! "message" in
    let body = msg ! "body" in
    if is_announcement w evt
    then match_offers crypto defaults w (evt ! "channel") msg body (items_of (body ! "offers"))
    else ok none
