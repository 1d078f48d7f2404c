-- ===== src/Rfq/OfferMatch/Tested.antt =====
-- What the loop of src/rfq/offerMatch.js has tested of the offer that it takes.
use intercom_swap.Prelude.{
  String, ◌≡◌, refl, true, not, ◌&&◌, Option, some, str_eq, eq_iff, arith, Bool-cases, Option-cases,
  inl, inr, ◌⊎◌,
}
use intercom_swap.Js.Text.{to_lower, is_empty}
use intercom_swap.Js.Number.{Num}
use intercom_swap.Js.Value.{Value, Items, nil, cons, is_reference}
use intercom_swap.Js.Result.{Result, ok, error, throw}
use intercom_swap.Protocol.SignedMessage.{Crypto}
use intercom_swap.Rfq.AppHash.{Defaults, expected_app_hash}
use intercom_swap.Rfq.OfferMatch.{
  Wanted, Match, is_of_pair, offer_app_hash, offer_pair, is_acceptable, refund_range,
  normalize_matched_offer, match_offer, match_offers,
}

pub data IsOffer (offer : Value) : Items → Type 0 where
  here : {rest : Items} → IsOffer offer (cons offer rest)
  there : {first : Value} {rest : Items} → IsOffer offer rest → IsOffer offer (cons first rest)

-- What the loop has tested of the offer that it takes.
pub record IsTested (crypto : Crypto) (defaults : Defaults) (w : Wanted)
    (channel msg body offer : Value) (m : Match) : Type 0 where
  pub expected : String
  pub same_program :
      expected_app_hash crypto defaults (offer_pair w offer) w.program_id w.htlc_address
      ≡ ok expected
  pub of_pair : is_of_pair (offer_pair w offer) offer ≡ true
  pub same_hash : offer_app_hash body offer ≡ to_lower expected
  pub acceptable : is_acceptable w (offer_pair w offer) offer ≡ true
  pub least : Num
  pub most : Num
  pub in_range : refund_range w (offer_pair w offer) offer ≡ some (least, most)
  pub is_match :
      m ≡ normalize_matched_offer channel msg body (offer_pair w offer) offer (least, most)

Result-cases {ℓ} :
    {A : Type ℓ} (r : Result A)
    → ((a : A) × (r ≡ ok a)) ⊎ ((r ≡ throw) ⊎ ((e : String) × (r ≡ error e)))
Result-cases (ok a) = inl (a, refl)
Result-cases throw = inr (inl refl)
Result-cases (error e) = inr (inr (e, refl))

taken_match : {a b : Match} → ok (some a) ≡ ok (some b) → b ≡ a
taken_match h = cc

match_offer-IsTested :
    (crypto : Crypto) (defaults : Defaults) (w : Wanted) (channel msg body offer : Value)
    (others : Result (Option Match)) {m : Match}
    → match_offer crypto defaults w channel msg body offer others ≡ ok (some m)
    → (others ≡ ok (some m)) ⊎ IsTested crypto defaults w channel msg body offer m
unfolding match_offer
match_offer-IsTested crypto defaults w channel msg body offer others {m} h =
    let pair = offer_pair w offer in
    elim (Bool-cases (is_reference offer && is_of_pair pair offer)) [
      | inr no_offer ↦ inl (ground (arith, no_offer))
      | inl candidate ↦
          elim (Result-cases (expected_app_hash crypto defaults pair w.program_id w.htlc_address)) [
            | inr (inl e) ↦ ground (arith, e, candidate)
            | inr (inr (text, e)) ↦ ground (arith, e, candidate)
            | inl (expected, e) ↦
                elim (Bool-cases (
                  not (is_empty (offer_app_hash body offer))
                  && str_eq (offer_app_hash body offer) (to_lower expected)
                  && is_acceptable w pair offer)) [
                    | inr refused ↦ inl (ground (arith, e, candidate, refused))
                    | inl taken ↦ elim (Option-cases (refund_range w pair offer)) [
                      | inl f ↦ inl (ground (arith, e, candidate, taken, f))
                      | inr ((least, most), f) ↦ inr (record {
                        expected = expected;
                        same_program = e;
                        of_pair = ground arith;
                        same_hash =
                            (eq_iff (offer_app_hash body offer) (to_lower expected)).0
                              (ground arith);
                        acceptable = ground arith;
                        least = least;
                        most = most;
                        in_range = f;
                        is_match = taken_match (ground (arith, e, candidate, taken, f));
                      })
                    ]
                  ]
          ]
    ]

pub match_offers-IsTested :
    (crypto : Crypto) (defaults : Defaults) (w : Wanted) (channel msg body : Value) (offers : Items)
    {m : Match}
    → match_offers crypto defaults w channel msg body offers ≡ ok (some m)
    → (offer : Value) × IsOffer offer offers × IsTested crypto defaults w channel msg body offer m
unfolding match_offers
match_offers-IsTested crypto defaults w channel msg body nil h = cc
match_offers-IsTested crypto defaults w channel msg body (cons offer offers) h =
    elim (match_offer-IsTested crypto defaults w channel msg body offer
      (match_offers crypto defaults w channel msg body offers) h) [
        | inr t ↦ (offer, here, t)
        | inl e ↦
            let (found, i, t) = match_offers-IsTested crypto defaults w channel msg body offers e in
            (found, there i, t)
      ]
