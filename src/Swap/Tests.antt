-- ===== src/Swap/Tests.antt =====
-- Runs of src/swap and src/ln on concrete data, with the theorems there.
use intercom_swap.Prelude.{
  ℕ, suc, zero, String, ◌≡◌, refl, ◌↔◌, ◌+◌, ◌≤◌, ◌*◌, ◌∷◌, [], List, Option, some, true, arith,
  str_eq, eq_iff,
}
use intercom_swap.Js.Text.{trim, to_lower, every, length, is_digit, digits_value, is_space, decimal}
use intercom_swap.Js.Number.{nat, neg, less, less_eq, num_eq, truncate, plus, minus, take_digits}
use intercom_swap.Js.Parse.{coalesce, num_min, num_max, parse_int}
use intercom_swap.Js.Value.{
  Value, Fields, has, undefined, num, str, obj, field, end, ◌!◌, truthy, to_text, to_number,
  big_int_of_text, is_present, is_reference, normalize_hex, trimmed, or_empty,
}
use intercom_swap.Js.Result.{ok}
use intercom_swap.Ln.Bolt11.{
  Bech32, Decoded, read_tags, read_tag, take, drop, words_value, decode_words, decode_bolt11,
  verify_bolt11_matches_invoice_body, same_amount, parse_hrp_amount_msat, parse_amount,
  split_at_digit, split_digits, scaled_amount,
}
use intercom_swap.Ln.Bolt11.{length as words_length}
use intercom_swap.Ln.Bolt11.Layout.{IsInvoice, decode_words_iff}
use intercom_swap.Swap.Pairs.{normalize_pair, get_amount_for_pair}
use intercom_swap.Swap.Fees.{
  compute_settlement_amount_with_fee_ceil, normalize_settlement_fee_caps_bps,
}
use intercom_swap.Swap.Fees.Bounds.{
  IsCeil, compute_settlement_amount_with_fee_ceil-IsCeil, AreCaps,
  normalize_settlement_fee_caps_bps-AreCaps,
}
use intercom_swap.Swap.RefundPolicy.{
  normalize_refund_policy_for_pair, to_int_or_null, int_or, policy_for, normalize_sec,
}
use intercom_swap.Swap.RefundPolicy.Bounds.{AreInRange, normalize_refund_policy-AreInRange}
use intercom_swap.Swap.RefundPolicy.Valid.{IsValid, normalize_refund_policy-IsValid}
use intercom_swap.Swap.TimelockPolicy.{safe, evaluate_pre_pay_timelock_safety}
use intercom_swap.Swap.TimelockPolicy.Margins.{
  whole_opts, IsAfterInvoice, evaluate_pre_pay_timelock_safety_iff,
}
use intercom_swap.Swap.Verify.{
  verify_swap_pre_pay, verify_invoice_body, verify_escrow_against_terms, check_times, check_margin,
}
use intercom_swap.Swap.Verify.PrePay.{SafeToPay, pre_pay-SafeToPay}
use intercom_swap.Swap.StateMachine.Example.{terms_body, escrow_body}
use intercom_swap.Protocol.SignedMessage.{
  Crypto, text_of, attach_signature, strip_signature, verify_signed_envelope,
  sign_unsigned_envelope_hex,
}
use intercom_swap.Protocol.SignedMessage.Signed.{IsPlain, sign-attach-verify}

compute_settlement_amount_with_fee_ceil-IsCeil_example :
    (n : ℕ) × (compute_settlement_amount_with_fee_ceil (str "333") (num (nat 30)) ≡ ok (nat n))
    × IsCeil (333 * (10000 + 30)) n
unfolding truthy big_int_of_text to_text trim every is_digit digits_value is_space
compute_settlement_amount_with_fee_ceil-IsCeil_example =
    compute_settlement_amount_with_fee_ceil-IsCeil (str "333") 333 30 refl refl (omega arith)

normalize_settlement_fee_caps_bps-AreCaps_example : AreCaps (
    normalize_settlement_fee_caps_bps
      (num (nat 900))
      undefined
      (num (neg 4))
      (num (nat 500))
      (num (nat 1000))
      (num (nat 1500)))
unfolding coalesce is_present to_number
normalize_settlement_fee_caps_bps-AreCaps_example =
    normalize_settlement_fee_caps_bps-AreCaps (num (nat 900)) undefined (num (neg 4))
      (num (nat 500)) (num (nat 1000)) (num (nat 1500)) refl refl refl

abbrev settings : Value
settings = obj (field "quoteRefundSec" (str "90m") (field "minRefundSec" (num (nat 7200)) end))

normalize_refund_policy-AreInRange_example : AreInRange 600 86400 (
    normalize_refund_policy_for_pair
      (str "BTC_LN/TAO_EVM")
      settings
      (obj (field "minSec" (num (nat 600)) (field "maxSec" (str "86400") end))))
unfolding int_or to_int_or_null ◌!◌ parse_int trim to_text truncate take_digits digits_value
    is_digit is_space
normalize_refund_policy-AreInRange_example =
    normalize_refund_policy-AreInRange (str "BTC_LN/TAO_EVM") settings
      (obj (field "minSec" (num (nat 600)) (field "maxSec" (str "86400") end))) 600 86400 refl refl
      (omega arith)

abbrev narrow : Value
narrow = obj (field "minSec" (num (nat 7200)) (field "maxSec" (str "86400") end))

normalize_refund_policy-IsValid_example :
    IsValid
      (normalize_pair (str "BTC_LN/USDT_SOL"))
      (normalize_refund_policy_for_pair (str "BTC_LN/USDT_SOL") settings narrow)
unfolding normalize_refund_policy_for_pair policy_for normalize_pair trimmed or_empty truthy
    normalize_sec num_min num_max less less_eq coalesce is_present int_or to_int_or_null ◌!◌
    parse_int trim to_text truncate take_digits digits_value is_digit is_space
normalize_refund_policy-IsValid_example =
    normalize_refund_policy-IsValid (str "BTC_LN/USDT_SOL") settings narrow 7200 86400 refl refl
      (omega arith) (omega arith) (omega arith) refl

evaluate_pre_pay_timelock_safety_iff_example :
    (evaluate_pre_pay_timelock_safety (whole_opts 260000 3700 1000 3600 600 true) ≡ safe 260000)
    ↔ (1000 + 3600 ≤ 260000) × IsAfterInvoice true 260000 3700 3600 600
evaluate_pre_pay_timelock_safety_iff_example =
    evaluate_pre_pay_timelock_safety_iff 260000 3700 1000 3600 600 true (omega arith) (omega arith)
      (omega arith)

-- An invoice over 10 u, at the time 32, with a payment hash and no expiry, then its signature.
zeros : ℕ → List ℕ
zeros zero = []
zeros (suc n) = 0 ∷ zeros n

abbrev hash_text : String
hash_text = "cccccccccccccccccccccccccccccccccccccccccccccccccccccccccccccccc"

abbrev invoice_words : List ℕ
unfolding zeros
invoice_words = 0 ∷ 0 ∷ 0 ∷ 0 ∷ 0 ∷ 1 ∷ 0 ∷ 1 ∷ 0 ∷ 2 ∷ 5 ∷ 6 ∷ zeros 104

abbrev bech32 : Bech32
bech32 = record {
  decode = λ s limit. some ("lnbc10u", invoice_words);
  from_words = λ ws. ok ws;
  to_hex = λ bytes. hash_text;
}

abbrev ln_invoice : Value
ln_invoice = obj (
    field "bolt11" (str "lnbc10u1") (
      field "payment_hash_hex" (str hash_text)
        (field "amount_msat" (str "1000000") (field "expires_at_unix" (num (nat 3632)) end))))

abbrev decoded : Decoded
decoded = record {
  hrp = "lnbc10u";
  currency = "bc";
  amount_msat = some 1000000;
  timestamp_unix = 32;
  payment_hash_hex = some hash_text;
  expiry_seconds = 3600;
  expires_at_unix = 3632;
}

approval :
    verify_swap_pre_pay bech32 terms_body ln_invoice escrow_body (num (nat 1000)) ≡ ok decoded
unfolding invoice_words verify_swap_pre_pay verify_invoice_body verify_bolt11_matches_invoice_body
    decode_bolt11 decode_words parse_hrp_amount_msat parse_amount split_at_digit split_digits
    scaled_amount take drop words_length read_tags read_tag words_value same_amount
    verify_escrow_against_terms check_times check_margin normalize_pair get_amount_for_pair ◌!◌
    truthy to_text to_number big_int_of_text is_present is_reference normalize_hex trimmed or_empty
    trim to_lower every length is_digit digits_value is_space decimal less less_eq num_eq plus minus
approval = refl

pre_pay-SafeToPay_example : SafeToPay terms_body ln_invoice escrow_body 1000 3632 260000
unfolding ◌!◌ is_present to_number
pre_pay-SafeToPay_example =
    pre_pay-SafeToPay bech32 terms_body ln_invoice escrow_body decoded 1000 3632 260000 approval
      refl refl

read_words : decode_words bech32 "lnbc10u" invoice_words ≡ ok decoded
unfolding invoice_words decode_words parse_hrp_amount_msat parse_amount split_at_digit split_digits
    scaled_amount take drop words_length read_tags read_tag words_value is_digit digits_value
read_words = refl

decode_words_iff_example : IsInvoice bech32 "lnbc10u" invoice_words decoded
decode_words_iff_example = (decode_words_iff bech32 "lnbc10u" invoice_words decoded).0 read_words

plain : IsPlain "aa"
unfolding text_of trim to_lower is_space to_text
plain = record { same = refl; filled = refl }

abbrev toy_sign : String → String → Option String
toy_sign message secret = some "aa"

abbrev toy_crypto : Crypto
toy_crypto = record { sha256_hex = λ s. s; verify = λ sig message signer. some (str_eq sig "aa") }

toy_accepts :
    (message made : String)
    → toy_sign message (normalize_hex (str "01")) ≡ some made
    → toy_crypto.verify made message "aa" ≡ some true
toy_accepts message made h = ground (arith, eq_iff made "aa")

abbrev unsigned : Fields
unsigned = field "kind" (str "swap.cancel") (field "body" (obj end) end)

sign-attach-verify_example :
    (e : Value) × (attach_signature (obj unsigned) (str "aa") (str "aa") ≡ ok e)
    × (strip_signature e ≡ obj unsigned)
    × (verify_signed_envelope toy_crypto e ≡ ok tt)
unfolding has sign_unsigned_envelope_hex
sign-attach-verify_example =
    sign-attach-verify toy_crypto toy_sign unsigned (str "01") "aa" "aa" refl refl plain plain refl
      toy_accepts
