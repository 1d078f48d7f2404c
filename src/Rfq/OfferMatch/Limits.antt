-- ===== src/Rfq/OfferMatch/Limits.antt =====
-- The limits that src/rfq/offerMatch.js puts on an offer.
use intercom_swap.Prelude.{
  ℕ, ◌≤◌, String, ◌≡◌, refl, true, false, some, if◌then◌else◌, str_eq, eq_iff, arith, Bool-cases,
  Option-cases, inl, inr,
}
use intercom_swap.Js.Text.{every, is_digit, codes}
use intercom_swap.Js.Number.{Num, nat, neg, less, less_eq, is_integer}
use intercom_swap.Js.Value.{Value, ◌!◌, to_text, or_empty, big_int_of_text, to_number}
use intercom_swap.Swap.Constants.{Pair}
use intercom_swap.Swap.Pairs.{pair_config, is_tao_pair}
use intercom_swap.Swap.Fees.{FeeCaps}
use intercom_swap.Rfq.OfferMatch.{
  Wanted, Match, is_of_pair, offer_caps, offer_amount, is_positive_amount, is_fee_within,
  are_fees_within, is_acceptable, refund_range, is_refund_sec,
}

-- A whole number that is at least one bound and at most another.
pub record IsBetween (low high : ℕ) (x : Num) : Type 0 where
  pub value : ℕ
  pub is_value : x ≡ nat value
  pub at_least : low ≤ value
  pub within : value ≤ high

-- The least refund time that the peer asks for
abbrev pub least_refund_sec : Wanted → Pair → Num
least_refund_sec w pair = if is_tao_pair pair then w.min_settlement_refund_sec else w.min_refund_sec

-- Whole refund times within the limits of offers, the shorter first, of which none is outside of
-- the limits of the peer
pub record AreRefundsWithin (w : Wanted) (m : Match) : Type 0 where
  pub shortest : IsBetween 3600 604800 m.refund_min_sec
  pub longest : IsBetween 3600 604800 m.refund_max_sec
  pub ordered : shortest.value ≤ longest.value
  pub not_short : less m.refund_min_sec (least_refund_sec w m.pair) ≡ false
  pub not_long : less w.max_refund_sec m.refund_max_sec ≡ false

pub integer-at_least :
    (x : Num) (k : ℕ)
    → is_integer x ≡ true
    → less x (nat k) ≡ false
    → (n : ℕ) × (x ≡ nat n) × (k ≤ n)
unfolding less
integer-at_least (nat n) k i h = (n, refl, ground arith)
integer-at_least (neg n) k i h = absurd (ground arith)
integer-at_least _ k i h = cc

pub at_most : (n k : ℕ) → less (nat k) (nat n) ≡ false → n ≤ k
unfolding less
at_most n k h = ground arith

pub is_fee_within-IsBetween :
    (fee : Num) (limit : ℕ) (cap : Num) → is_fee_within fee limit cap ≡ true → IsBetween 0 limit fee
unfolding is_fee_within
is_fee_within-IsBetween fee limit cap h =
    let (n, e, low) = integer-at_least fee 0 (ground arith) (ground arith) in
    let most : less (nat limit) fee ≡ false = ground arith in
    record { value = n; is_value = e; at_least = low; within = at_most n limit (rw e at most) }

pub is_fee_within-cap :
    (fee : Num) (limit : ℕ) (cap : Num) → is_fee_within fee limit cap ≡ true → less cap fee ≡ false
unfolding is_fee_within
is_fee_within-cap fee limit cap h = ground arith

pub positive-digits :
    (text : String) → is_positive_amount text ≡ true → every is_digit (codes text) ≡ true
unfolding is_positive_amount
positive-digits text h = ground arith

pub between :
    (x : Num) (low high : ℕ)
    → is_integer x ≡ true
    → less x (nat low) ≡ false
    → less (nat high) x ≡ false
    → IsBetween low high x
between x low high i l h =
    let (n, e, least) = integer-at_least x low i l in
    record { value = n; is_value = e; at_least = least; within = at_most n high (rw e at h) }

pub positive-amount :
    (text : String)
    → is_positive_amount text ≡ true
    → (n : Num) × (big_int_of_text text ≡ some n) × (less_eq n (nat 0) ≡ false)
unfolding is_positive_amount
positive-amount text h = elim (Option-cases (big_int_of_text text)) [
  | inl e ↦ absurd (ground (arith, e))
  | inr (n, e) ↦ (n, e, ground (arith, e))
]

pub less_self : (x : Num) → is_integer x ≡ true → less x (nat 3600) ≡ false → less x x ≡ false
unfolding less
less_self x i h = let (n, e, low) = integer-at_least x 3600 i h in rw e (ground arith)

pub ordered-le : (m n : ℕ) → less (nat n) (nat m) ≡ false → m ≤ n
unfolding less
ordered-le m n h = ground arith

pub refunds-within :
    (w : Wanted) (m : Match)
    → is_integer m.refund_min_sec ≡ true
    → is_integer m.refund_max_sec ≡ true
    → is_refund_sec m.refund_min_sec ≡ true
    → is_refund_sec m.refund_max_sec ≡ true
    → less m.refund_max_sec m.refund_min_sec ≡ false
    → less m.refund_min_sec (least_refund_sec w m.pair) ≡ false
    → less w.max_refund_sec m.refund_max_sec ≡ false
    → AreRefundsWithin w m
refunds-within w m i j least most order short long =
    let a = between m.refund_min_sec 3600 604800 i (ground arith) (ground arith) in
    let b = between m.refund_max_sec 3600 604800 j (ground arith) (ground arith) in
    record {
      shortest = a;
      longest = b;
      ordered = ordered-le a.value b.value (rw (a.is_value, b.is_value) at order);
      not_short = short;
      not_long = long;
    }

pub refund_range-within :
    (w : Wanted) (m : Match) (offer : Value)
    → refund_range w m.pair offer ≡ some (m.refund_min_sec, m.refund_max_sec)
    → AreRefundsWithin w m
unfolding refund_range
refund_range-within w m offer h = elim (Bool-cases (is_tao_pair m.pair)) [
  | inl tao ↦
      let whole : is_integer m.refund_min_sec ≡ true = ground (arith, tao) in
      let low : less m.refund_min_sec (nat 3600) ≡ false = ground (arith, tao) in
      let same : m.refund_max_sec ≡ m.refund_min_sec = ground (arith, tao) in
      refunds-within w m whole (ground (arith, tao)) (ground (arith, tao)) (ground (arith, tao))
        (rw same (less_self m.refund_min_sec whole low)) (ground (arith, tao)) (ground (arith, tao))
  | inr sol ↦
      refunds-within w m (ground (arith, sol)) (ground (arith, sol)) (ground (arith, sol))
        (ground (arith, sol)) (ground (arith, sol)) (ground (arith, sol)) (ground (arith, sol))
]

pub fees-within :
    (offered caps : FeeCaps)
    → are_fees_within offered caps ≡ true
    → (is_fee_within offered.settlement_leg_max_platform_fee_bps 500
          caps.settlement_leg_max_platform_fee_bps
        ≡ true)
      × (is_fee_within offered.settlement_leg_max_trade_fee_bps 1000
            caps.settlement_leg_max_trade_fee_bps
          ≡ true)
      × (is_fee_within offered.settlement_leg_max_total_fee_bps 1500
            caps.settlement_leg_max_total_fee_bps
          ≡ true)
unfolding are_fees_within
fees-within offered caps h = ground arith

pub have-want :
    (pair : Pair) (offer : Value)
    → is_of_pair pair offer ≡ true
    → (to_text (or_empty (offer ! "have")) ≡ (pair_config pair).have)
      × (to_text (or_empty (offer ! "want")) ≡ "BTC_LN")
unfolding is_of_pair
have-want pair offer h =
    let same : (str_eq (to_text (or_empty (offer ! "have"))) (pair_config pair).have ≡ true)
        × (str_eq (to_text (or_empty (offer ! "want"))) "BTC_LN" ≡ true) =
      ground arith in
    ((eq_iff _ _).0 same.0, (eq_iff _ _).0 same.1)

pub acceptable-tests :
    (w : Wanted) (pair : Pair) (offer : Value)
    → is_acceptable w pair offer ≡ true
    → (is_integer (to_number (offer ! "btc_sats")) ≡ true)
      × (less (to_number (offer ! "btc_sats")) (nat 1) ≡ false)
      × (is_positive_amount (offer_amount pair offer) ≡ true)
      × (are_fees_within (offer_caps offer) w.caps ≡ true)
unfolding is_acceptable
acceptable-tests w pair offer h = ground arith
