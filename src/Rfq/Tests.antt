-- ===== src/Rfq/Tests.antt =====
-- src/rfq/offerMatch.js on an announcement of two offers. The second one is taken; its platform
-- fee, far beyond what the peer allows, is brought down to the limit before it is compared.
use intercom_swap.Prelude.{◌≡◌, refl, true, some, none}
use intercom_swap.Js.Text.{trim, to_lower, every, is_digit, digits_value}
use intercom_swap.Js.Number.{nat, less, less_eq, num_eq}
use intercom_swap.Js.Parse.{coalesce, num_min, num_max}
use intercom_swap.Js.Value.{
  Value, nil, cons, num, str, arr, obj, field, end, ◌!◌, lookup, has, is_object, is_reference,
  is_present, truthy, or_empty, trimmed, normalize_hex, to_text, to_number, big_int_of_text,
  is_uint, is_pos_int, is_text,
}
use intercom_swap.Js.Result.{ok}
use intercom_swap.Protocol.SignedMessage.{Crypto}
use intercom_swap.Swap.Constants.{btc_usdt, kind_of_text}
use intercom_swap.Swap.Pairs.{normalize_pair, get_amount_for_pair}
use intercom_swap.Swap.Fees.{normalize_settlement_fee_caps_bps, normalize_cap}
use intercom_swap.Swap.Schema.Fields.{is_nonempty, is_nonblank}
use intercom_swap.Swap.Schema.Discovery.{
  validate_svc_announce, optional_string, validate_offers, validate_offer_list,
}
use intercom_swap.Swap.Schema.Envelope.{
  kind_of, validate_swap_envelope, validate_swap_envelope_shape, validate_swap_body,
  validate_body_of_kind,
}
use intercom_swap.Rfq.AppHash.{Defaults, expected_app_hash, get_settlement_binding, derive_app_hash}
use intercom_swap.Rfq.OfferMatch.{
  Match, wanted, includes_channel, has_value, are_fields_of, is_of_pair, offer_app_hash,
  is_positive_amount, is_fee_within, are_fees_within, refund_range, normalize_matched_offer,
  is_acceptable, match_offer, match_offers, items_of, is_announcement,
  match_offer_announcement_event,
}
use intercom_swap.Rfq.OfferMatch.Sound.{IsGoodMatch, match-IsGoodMatch}
use intercom_swap.Rfq.OfferMatch.Tested.{IsOffer}

abbrev test_crypto : Crypto
test_crypto = record { sha256_hex = λ text. "AB12"; verify = λ sig text key. some true }

abbrev test_defaults : Defaults
test_defaults = record { solana_program_id = "program"; tao_htlc_address = "" }

abbrev good_offer : Value
good_offer = obj (
    field "have" (str "USDT_SOL") (
      field "want" (str "BTC_LN") (
        field "app_hash" (str "ab12") (
          field "btc_sats" (num (nat 5000)) (
            field "usdt_amount" (str "3000000") (
              field "max_platform_fee_bps" (num (nat 9999)) (
                field "max_trade_fee_bps" (num (nat 10)) (
                  field "max_total_fee_bps" (num (nat 20)) (
                    field "min_sol_refund_window_sec" (num (nat 259200))
                      (field "max_sol_refund_window_sec" (num (nat 604800)) end))))))))))

abbrev announcement : Value
announcement = obj (
    field "type" (str "sidechannel_message") (
      field "channel" (str "0swap") (
        field "message"
          (obj (
            field "v" (num (nat 1)) (
              field "kind" (str "swap.svc_announce") (
                field "trade_id" (str "svc") (
                  field "ts" (num (nat 1)) (
                    field "nonce" (str "n") (
                      field "signer" (str "peer") (
                        field "body"
                          (obj (
                            field "name" (str "maker") (
                              field "offers"
                                (arr
                                  (cons (obj (field "have" (str "TAO") end)) (cons good_offer nil)))
                                end)))
                          end))))))))
          end)))

abbrev the_match : Match
the_match = record {
  pair = btc_usdt;
  offer_channel = "0swap";
  offer_name = "maker";
  offer_signer = some "peer";
  valid_until_unix = none;
  amount_atomic = "3000000";
  btc_sats = nat 5000;
  max_platform_fee_bps = nat 9999;
  max_trade_fee_bps = nat 10;
  max_total_fee_bps = nat 20;
  refund_min_sec = nat 259200;
  refund_max_sec = nat 604800;
}

matched :
    match_offer_announcement_event test_crypto test_defaults (obj end) 1000 announcement
    ≡ ok (some the_match)
unfolding match_offer_announcement_event wanted is_announcement includes_channel match_offers
    match_offer is_of_pair are_fields_of has_value offer_app_hash is_acceptable is_positive_amount
    are_fees_within is_fee_within refund_range normalize_matched_offer items_of expected_app_hash
    get_settlement_binding derive_app_hash normalize_settlement_fee_caps_bps normalize_cap
    normalize_pair get_amount_for_pair validate_swap_envelope validate_swap_envelope_shape
    validate_swap_body validate_body_of_kind kind_of validate_svc_announce kind_of_text
    optional_string validate_offers validate_offer_list is_nonempty is_nonblank coalesce num_min
    num_max less less_eq num_eq ◌!◌ lookup has is_object is_reference is_present truthy or_empty
    trimmed normalize_hex to_text to_number big_int_of_text is_uint is_pos_int is_text trim to_lower
    every is_digit digits_value
matched = refl

match-IsGoodMatch_example :
    (is_announcement (wanted (obj end) 1000) announcement ≡ true)
    × ((offer : Value) × IsOffer offer (items_of (announcement ! "message" ! "body" ! "offers"))
        × IsGoodMatch test_crypto test_defaults
            (wanted (obj end) 1000)
            (announcement ! "message" ! "body")
            offer
            the_match)
match-IsGoodMatch_example =
    match-IsGoodMatch test_crypto test_defaults (obj end) 1000 announcement the_match matched
