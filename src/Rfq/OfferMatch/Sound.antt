-- ===== src/Rfq/OfferMatch/Sound.antt =====
-- What the offer is like that src/rfq/offerMatch.js takes.
use intercom_swap.Prelude.{ℕ, ◌≤◌, String, ◌≡◌, true, false, some, arith, Bool-cases, inl, inr}
use intercom_swap.Js.Text.{to_lower, every, is_digit, codes}
use intercom_swap.Js.Number.{Num, nat, less, less_eq}
use intercom_swap.Js.Value.{Value, ◌!◌, to_text, or_empty, big_int_of_text, to_number}
use intercom_swap.Js.Result.{ok}
use intercom_swap.Protocol.SignedMessage.{Crypto}
use intercom_swap.Swap.Pairs.{pair_config}
use intercom_swap.Rfq.AppHash.{Defaults, expected_app_hash}
use intercom_swap.Rfq.OfferMatch.{
  Wanted, Match, wanted, offer_app_hash, offer_pair, offer_caps, offer_amount,
  normalize_matched_offer, is_announcement, items_of, match_offer_announcement_event,
}
use intercom_swap.Rfq.OfferMatch.Limits.{
  IsBetween, AreRefundsWithin, integer-at_least, is_fee_within-IsBetween, is_fee_within-cap,
  positive-digits, positive-amount, refund_range-within, fees-within, have-want, acceptable-tests,
}
use intercom_swap.Rfq.OfferMatch.Tested.{IsOffer, IsTested, match_offers-IsTested}

-- What a match says is what the offer says, and suits the peer.
pub record IsGoodMatch (crypto : Crypto) (defaults : Defaults) (w : Wanted) (body offer : Value)
    (m : Match) : Type 0 where
  pub have : to_text (or_empty (offer ! "have")) ≡ (pair_config m.pair).have
  pub want : to_text (or_empty (offer ! "want")) ≡ "BTC_LN"
  pub app_hash : String
  pub is_app_hash :
      expected_app_hash crypto defaults m.pair w.program_id w.htlc_address ≡ ok app_hash
  pub same_app : offer_app_hash body offer ≡ to_lower app_hash
  pub sats : ℕ
  pub is_sats : m.btc_sats ≡ nat sats
  pub some_sats : 1 ≤ sats
  pub digits : every is_digit (codes m.amount_atomic) ≡ true
  pub amount : Num
  pub is_amount : big_int_of_text m.amount_atomic ≡ some amount
  pub some_amount : less_eq amount (nat 0) ≡ false
  pub platform_fee : IsBetween 0 500 (offer_caps offer).settlement_leg_max_platform_fee_bps
  pub platform_in_cap :
      less w.caps.settlement_leg_max_platform_fee_bps
        (offer_caps offer).settlement_leg_max_platform_fee_bps
      ≡ false
  pub trade_fee : IsBetween 0 1000 (offer_caps offer).settlement_leg_max_trade_fee_bps
  pub trade_in_cap :
      less w.caps.settlement_leg_max_trade_fee_bps
        (offer_caps offer).settlement_leg_max_trade_fee_bps
      ≡ false
  pub total_fee : IsBetween 0 1500 (offer_caps offer).settlement_leg_max_total_fee_bps
  pub total_in_cap :
      less w.caps.settlement_leg_max_total_fee_bps
        (offer_caps offer).settlement_leg_max_total_fee_bps
      ≡ false
  pub refunds : AreRefundsWithin w m

IsTested-IsGoodMatch :
    (crypto : Crypto) (defaults : Defaults) (w : Wanted) (channel msg body offer : Value)
    (m : Match)
    → IsTested crypto defaults w channel msg body offer m
    → IsGoodMatch crypto defaults w body offer m
unfolding normalize_matched_offer
IsTested-IsGoodMatch crypto defaults w channel msg body offer m t =
    let pair = offer_pair w offer in
    let (whole, one, positive, within) = acceptable-tests w pair offer t.acceptable in
    let (sats, is_sats, some_sats) =
      integer-at_least (to_number (offer ! "btc_sats")) 1 whole one in
    let (amount, is_amount, some_amount) = positive-amount (offer_amount pair offer) positive in
    let fees = fees-within (offer_caps offer) w.caps within in
    let traded = have-want pair offer t.of_pair in
    rw t.is_match (record {
      have = traded.0;
      want = traded.1;
      app_hash = t.expected;
      is_app_hash = t.same_program;
      same_app = t.same_hash;
      sats = sats;
      is_sats = is_sats;
      some_sats = some_sats;
      digits = positive-digits (offer_amount pair offer) positive;
      amount = amount;
      is_amount = is_amount;
      some_amount = some_amount;
      platform_fee = is_fee_within-IsBetween _ 500 _ fees.0;
      platform_in_cap = is_fee_within-cap _ 500 _ fees.0;
      trade_fee = is_fee_within-IsBetween _ 1000 _ fees.1;
      trade_in_cap = is_fee_within-cap _ 1000 _ fees.1;
      total_fee = is_fee_within-IsBetween _ 1500 _ fees.2;
      total_in_cap = is_fee_within-cap _ 1500 _ fees.2;
      refunds =
          refund_range-within w
            (normalize_matched_offer channel msg body pair offer (t.least, t.most)) offer
            t.in_range;
    })

-- An announcement from which a match is made is an announcement that the guards let through, and
-- the match is of one of its offers, which is of the traded assets of its pair and of the
-- application that the peer settles by, for one satoshi at least and a positive amount. The
-- offer's fees, brought into their ranges, and its refund times are within the limits, in which the peer's own
-- limits are.
pub match-IsGoodMatch :
    (crypto : Crypto) (defaults : Defaults) (opts : Value) (clock : ℕ) (evt : Value) (m : Match)
    → match_offer_announcement_event crypto defaults opts clock evt ≡ ok (some m)
    → (is_announcement (wanted opts clock) evt ≡ true)
      × ((offer : Value) × IsOffer offer (items_of (evt ! "message" ! "body" ! "offers"))
          × IsGoodMatch crypto defaults (wanted opts clock) (evt ! "message" ! "body") offer m)
unfolding match_offer_announcement_event
match-IsGoodMatch crypto defaults opts clock evt m h =
    elim (Bool-cases (is_announcement (wanted opts clock) evt)) [
      | inr refused ↦ ground (arith, refused)
      | inl announced ↦
          let (offer, i, t) =
            match_offers-IsTested crypto defaults (wanted opts clock) (evt ! "channel")
              (evt ! "message") (evt ! "message" ! "body")
              (items_of (evt ! "message" ! "body" ! "offers")) (ground (arith, announced)) in
          (
            announced,
            (offer, i, IsTested-IsGoodMatch crypto defaults (wanted opts clock) _ _ _ offer m t),
          )
    ]
