-- ===== src/Swap/Schema/TermsBody.antt =====
-- What validation (src/swap/schema.js) guarantees of the body of TERMS.
use intercom_swap.Prelude.{ℕ, ◌+◌, ◌≤◌, ◌<◌, String, ◌≡◌, true, false, arith}
use intercom_swap.Js.Number.{nat, less, plus}
use intercom_swap.Js.Value.{Value, num, str, ◌!◌, is_pos_int, is_uint, to_number, is_text}
use intercom_swap.Js.Integers.{is_pos_int-nat, is_uint-nat, to_number-nat}
use intercom_swap.Js.Result.{ok}
use intercom_swap.Swap.Constants.{Pair, pair_text}
use intercom_swap.Swap.Pairs.{pair_config, normalize_pair, get_amount_for_pair}
use intercom_swap.Swap.Schema.Fields.{
  is_hex_bytes, is_settlement_address, is_amount_string, validate_pair_and_direction,
  validate_pair_amount,
}
use intercom_swap.Swap.Schema.Trading.{check_terms_fees, validate_terms}

-- The fees are two integers, each and together within the caps.
pub record HasCappedFees (body : Value) : Type 0 where
  pub platform : ℕ
  pub trade : ℕ
  pub platform_fee : body ! "platform_fee_bps" ≡ num (nat platform)
  pub trade_fee : body ! "trade_fee_bps" ≡ num (nat trade)
  pub platform_capped : platform ≤ 500
  pub trade_capped : trade ≤ 1000
  pub total_capped : platform + trade ≤ 1500

check_terms_fees-uint :
    (body : Value)
    → check_terms_fees body ≡ ok tt
    → (is_uint (body ! "platform_fee_bps") ≡ true)
      × (is_uint (body ! "trade_fee_bps") ≡ true)
      × (less (nat 500) (to_number (body ! "platform_fee_bps")) ≡ false)
      × (less (nat 1000) (to_number (body ! "trade_fee_bps")) ≡ false)
      × (less
            (nat 1500)
            (plus (to_number (body ! "platform_fee_bps")) (to_number (body ! "trade_fee_bps")))
          ≡ false)
unfolding check_terms_fees
check_terms_fees-uint body h = ground arith

less_cap : (cap n : ℕ) → less (nat cap) (nat n) ≡ false → n ≤ cap
unfolding less
less_cap cap n h = ground arith

less-plus_cap : (cap m n : ℕ) → less (nat cap) (plus (nat m) (nat n)) ≡ false → m + n ≤ cap
unfolding less plus
less-plus_cap cap m n h = ground arith

check_terms_fees-HasCappedFees : (body : Value) → check_terms_fees body ≡ ok tt → HasCappedFees body
check_terms_fees-HasCappedFees body h =
    let (up, ut, lp, lt, ls) = check_terms_fees-uint body h in
    let (p, ep) = is_uint-nat _ up in
    let (q, eq) = is_uint-nat _ ut in
    record {
      platform = p;
      trade = q;
      platform_fee = ep;
      trade_fee = eq;
      platform_capped = less_cap 500 p (rw (ep, to_number-nat p) at lp);
      trade_capped = less_cap 1000 q (rw (eq, to_number-nat q) at lt);
      total_capped = less-plus_cap 1500 p q (rw (ep, eq, to_number-nat p, to_number-nat q) at ls);
    }

pub record IsTermsBody (body : Value) : Type 0 where
  pub pair : Pair
  pub sats : ℕ
  pub refund_after : ℕ
  pub named_pair : is_text (body ! "pair") (pair_text pair) ≡ true
  pub normalized : normalize_pair (body ! "pair") ≡ pair
  pub direction : is_text (body ! "direction") (pair_config pair).direction ≡ true
  pub amount : is_amount_string (str (get_amount_for_pair body pair false)) ≡ true
  pub btc_sats : body ! "btc_sats" ≡ num (nat sats)
  pub some_sats : 0 < sats
  pub refund_after_unix : body ! "sol_refund_after_unix" ≡ num (nat refund_after)
  pub later : 0 < refund_after
  pub receiver : is_hex_bytes (body ! "ln_receiver_peer") 32 ≡ true
  pub payer : is_hex_bytes (body ! "ln_payer_peer") 32 ≡ true
  pub recipient : is_settlement_address (body ! "sol_recipient") ≡ true
  pub refund : is_settlement_address (body ! "sol_refund") ≡ true
  pub fees : HasCappedFees body

pair_and_direction :
    (body : Value) (label : String) (p : Pair)
    → validate_pair_and_direction body label ≡ ok p
    → (is_text (body ! "pair") (pair_text p) ≡ true)
      × (normalize_pair (body ! "pair") ≡ p)
      × (is_text (body ! "direction") (pair_config p).direction ≡ true)
unfolding validate_pair_and_direction
pair_and_direction body label p h = ground arith

pair_amount :
    (body : Value) (label : String) (p : Pair)
    → validate_pair_amount body label p ≡ ok tt
    → is_amount_string (str (get_amount_for_pair body p false)) ≡ true
unfolding validate_pair_amount
pair_amount body label p h = ground arith

terms_parts :
    (body : Value)
    → validate_terms body ≡ ok tt
    → (p : Pair) × (validate_pair_and_direction body "terms" ≡ ok p)
      × (validate_pair_amount body "terms" p ≡ ok tt)
      × (is_pos_int (body ! "btc_sats") ≡ true)
      × (is_pos_int (body ! "sol_refund_after_unix") ≡ true)
      × (is_hex_bytes (body ! "ln_receiver_peer") 32 ≡ true)
      × (is_hex_bytes (body ! "ln_payer_peer") 32 ≡ true)
      × (is_settlement_address (body ! "sol_recipient") ≡ true)
      × (is_settlement_address (body ! "sol_refund") ≡ true)
      × (check_terms_fees body ≡ ok tt)
unfolding validate_terms
terms_parts body h = ground arith

-- A body of TERMS that validation lets through names one of the two pairs and its direction, has a
-- decimal amount, a positive number of sats, a refund time, two 32-byte peer keys, two settlement
-- addresses, and integer fees of at most 500, 1000 and together 1500 basis points.
pub validate_terms-IsTermsBody : (body : Value) → validate_terms body ≡ ok tt → IsTermsBody body
validate_terms-IsTermsBody body h =
    let (p, named, amount, sats, after, receiver, payer, recipient, refund, fees) =
      terms_parts body h in
    let (text, same, direction) = pair_and_direction body "terms" p named in
    let (n, en, pn) = is_pos_int-nat _ sats in
    let (r, er, pr) = is_pos_int-nat _ after in
    record {
      pair = p;
      sats = n;
      refund_after = r;
      named_pair = text;
      normalized = same;
      direction = direction;
      amount = pair_amount body "terms" p amount;
      btc_sats = en;
      some_sats = pn;
      refund_after_unix = er;
      later = pr;
      receiver = receiver;
      payer = payer;
      recipient = recipient;
      refund = refund;
      fees = check_terms_fees-HasCappedFees body fees;
    }
