-- ===== src/Swap/Schema/Discovery.antt =====
-- src/swap/schema.js, validateSwapBody: the bodies that announce a service and negotiate a swap,
-- from SVC_ANNOUNCE to SWAP_INVITE.
use intercom_swap.Prelude.{String, Bool, true, false, not, ◌&&◌, ◌||◌, if◌then◌else◌, str_eq}
use intercom_swap.Js.Text.{concat}
use intercom_swap.Js.Number.{Num, nat, less}
use intercom_swap.Js.Value.{
  Value, Items, nil, cons, arr, ◌!◌, is_string, is_object, is_defined, is_present, is_uint,
  is_pos_int, to_number, to_text, or_empty,
}
use intercom_swap.Js.Result.{Result, require, refuse, when, done, ◌>>=◌, ◌>>◌}
use intercom_swap.Swap.Schema.Fields.{
  Opts, is_hex_bytes, is_settlement_address, is_nonblank, validate_pair_and_direction,
  validate_pair_amount, validate_refund_constraints, readable,
}

abbrev all_strings : Items → Bool
all_strings nil = true
all_strings (cons v xs) = is_string v && all_strings xs

-- Array.isArray(value) && !value.some((v) => typeof v !== 'string')
unfoldable pub is_string_array : Value → Bool
is_string_array (arr xs) = all_strings xs
is_string_array _ = false

-- `offer.field`, where it is there, is a string.
unfoldable pub optional_string : Value → Bool
optional_string v = not (is_present v) || is_string v

unfoldable pub validate_offers : Items → Result (Unit {0})
unfolding optional_string
validate_offers nil = done
validate_offers (cons offer rest) =
    let later = validate_offers rest in
    do
      require (is_object offer) "svc_announce.offers entries must be objects"
      require (optional_string (offer ! "have")) "svc_announce.offers.have must be a string"
      require (optional_string (offer ! "want")) "svc_announce.offers.want must be a string"
      require (optional_string (offer ! "pair")) "svc_announce.offers.pair must be a string"
      later

unfoldable pub validate_offer_list : Value → Result (Unit {0})
validate_offer_list (arr xs) = validate_offers xs
validate_offer_list v = require (not (is_present v)) "svc_announce.offers must be an array"

unfoldable pub validate_svc_announce : Value → Result (Unit {0})
validate_svc_announce body = do
  require (is_nonblank (body ! "name")) "svc_announce.name is required"
  when (is_defined (body ! "pairs"))
      (require (is_string_array (body ! "pairs")) "svc_announce.pairs must be an array of strings")
  when (is_defined (body ! "rfq_channels")) (
      require (is_string_array (body ! "rfq_channels"))
        "svc_announce.rfq_channels must be an array of strings")
  require (optional_string (body ! "note")) "svc_announce.note must be a string"
  validate_offer_list (body ! "offers")
  when (is_present (body ! "valid_until_unix")) (
      require (is_pos_int (body ! "valid_until_unix"))
        "svc_announce.valid_until_unix must be a unix seconds integer")

-- An optional fee in basis points: an integer that does not pass its cap.
unfoldable pub check_fee_cap : Value → String → Num → String → Result (Unit {0})
check_fee_cap fee name cap cap_text = when (is_present fee) do
  require (is_uint fee) (concat name " must be an integer >= 0")
  refuse (less cap (to_number fee)) (concat name (concat " exceeds " (concat cap_text " bps cap")))

-- An optional settlement address.
unfoldable pub check_address : Value → String → Result (Unit {0})
check_address v name =
    when (is_present v)
      (require (is_settlement_address v) (concat name " must be base58 or 0x address"))

unfoldable pub validate_rfq : Value → Opts → Result (Unit {0})
validate_rfq body opts = do
  pair ← validate_pair_and_direction body "rfq"
  require (is_hex_bytes (body ! "app_hash") 32) "rfq.app_hash must be 32-byte hex"
  require (is_pos_int (body ! "btc_sats")) "rfq.btc_sats must be a positive integer"
  validate_pair_amount body "rfq" pair
  check_fee_cap (body ! "max_platform_fee_bps") "rfq.max_platform_fee_bps" (nat 500) "500"
  check_fee_cap (body ! "max_trade_fee_bps") "rfq.max_trade_fee_bps" (nat 1000) "1000"
  check_fee_cap (body ! "max_total_fee_bps") "rfq.max_total_fee_bps" (nat 1500) "1500"
  validate_refund_constraints body "rfq" pair opts
  check_address (body ! "sol_mint") "rfq.sol_mint"
  check_address (body ! "sol_recipient") "rfq.sol_recipient"
  refuse (is_defined (body ! "valid_until_unix") && not (is_pos_int (body ! "valid_until_unix")))
      "rfq.valid_until_unix must be a unix seconds integer"

-- The sum of two fees, which both passed `isUint` where they are there.
abbrev pub sum_exceeds : Value → Value → Num → Bool
sum_exceeds a b cap = less cap (intercom_swap.Js.Number.plus (to_number a) (to_number b))

-- The link to the offer line that the quote answers: both fields or none.
unfoldable pub check_offer_link : Value → Result (Unit {0})
check_offer_link body =
    let has_offer_id = is_present (body ! "offer_id") in
    let has_offer_line_index = is_present (body ! "offer_line_index") in
    do
      refuse (has_offer_id && not (is_hex_bytes (body ! "offer_id") 32))
          "quote.offer_id must be 32-byte hex"
      refuse (has_offer_line_index && not (is_uint (body ! "offer_line_index")))
          "quote.offer_line_index must be an integer >= 0"
      require (if has_offer_id then has_offer_line_index else not has_offer_line_index)
          "quote.offer_id and quote.offer_line_index must be provided together"

unfoldable pub check_quote_fees : Value → Result (Unit {0})
check_quote_fees body = do
  check_fee_cap (body ! "platform_fee_bps") "quote.platform_fee_bps" (nat 500) "500"
  check_fee_cap (body ! "trade_fee_bps") "quote.trade_fee_bps" (nat 1000) "1000"
  refuse
      (is_present (body ! "platform_fee_bps")
        && is_present (body ! "trade_fee_bps")
        && sum_exceeds (body ! "platform_fee_bps") (body ! "trade_fee_bps") (nat 1500))
      "quote total fee bps exceeds 1500 bps cap"
  check_address (body ! "platform_fee_collector") "quote.platform_fee_collector"
  check_address (body ! "trade_fee_collector") "quote.trade_fee_collector"

unfoldable pub validate_quote : Value → Opts → Result (Unit {0})
validate_quote body opts = do
  require (is_hex_bytes (body ! "rfq_id") 32) "quote.rfq_id must be 32-byte hex"
  pair ← validate_pair_and_direction body "quote"
  require (is_hex_bytes (body ! "app_hash") 32) "quote.app_hash must be 32-byte hex"
  validate_pair_amount body "quote" pair
  require (is_pos_int (body ! "btc_sats")) "quote.btc_sats must be a positive integer"
  check_offer_link body
  check_quote_fees body
  validate_refund_constraints body "quote" pair opts
  check_address (body ! "sol_mint") "quote.sol_mint"
  check_address (body ! "sol_recipient") "quote.sol_recipient"
  require (is_pos_int (body ! "valid_until_unix"))
      "quote.valid_until_unix must be a unix seconds integer"

unfoldable pub validate_quote_accept : Value → Result (Unit {0})
validate_quote_accept body = do
  require (is_hex_bytes (body ! "rfq_id") 32) "quote_accept.rfq_id must be 32-byte hex"
  require (is_hex_bytes (body ! "quote_id") 32) "quote_accept.quote_id must be 32-byte hex"
  refuse (is_defined (body ! "note") && not (is_string (body ! "note")))
      "quote_accept.note must be a string"

-- An invite object names its channel, which is the one of the body.
unfoldable pub check_invite : Value → Result (Unit {0})
check_invite body =
    let invite = body ! "invite" in
    when (is_object invite) do
      require (is_object (invite ! "payload") && is_nonblank (invite ! "sig"))
          "swap_invite.invite must include { payload, sig }"
      readable (invite ! "payload" ! "channel")
      readable (body ! "swap_channel")
      require
          (str_eq (to_text (or_empty (invite ! "payload" ! "channel")))
            (to_text (body ! "swap_channel")))
          "swap_invite.invite.payload.channel must match swap_channel"

unfoldable pub validate_swap_invite : Value → Result (Unit {0})
validate_swap_invite body = do
  require (is_hex_bytes (body ! "rfq_id") 32) "swap_invite.rfq_id must be 32-byte hex"
  require (is_hex_bytes (body ! "quote_id") 32) "swap_invite.quote_id must be 32-byte hex"
  require (is_nonblank (body ! "swap_channel")) "swap_invite.swap_channel is required"
  when (is_present (body ! "owner_pubkey")) (
      require (is_hex_bytes (body ! "owner_pubkey") 32)
        "swap_invite.owner_pubkey must be 32-byte hex")
  require (is_object (body ! "invite") || is_nonblank (body ! "invite_b64"))
      "swap_invite.invite (object) or invite_b64 (string) is required"
  check_invite body
  when (is_present (body ! "welcome"))
      (require (is_object (body ! "welcome")) "swap_invite.welcome must be an object")
  when (is_present (body ! "welcome_b64"))
      (require (is_nonblank (body ! "welcome_b64")) "swap_invite.welcome_b64 must be a string")
