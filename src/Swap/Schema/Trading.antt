-- ===== src/Swap/Schema/Trading.antt =====
-- src/swap/schema.js, validateSwapBody: the bodies of the swap itself, from TERMS to STATUS.
use intercom_swap.Prelude.{String, Bool, true, false, not, ◌&&◌, ◌||◌, none, some}
use intercom_swap.Js.Text.{concat}
use intercom_swap.Js.Number.{nat, less}
use intercom_swap.Js.Value.{
  Value, str, ◌!◌, is_string, is_object, is_defined, is_present, is_uint, is_pos_int, to_number,
}
use intercom_swap.Js.Result.{Result, require, refuse, when, ◌>>=◌, ◌>>◌}
use intercom_swap.Swap.Constants.{state_of_text}
use intercom_swap.Swap.Pairs.{is_tao_pair}
use intercom_swap.Swap.Schema.Fields.{
  is_hex, is_hex_bytes, is_base58, is_hex_text, is_hex_address, is_settlement_address,
  is_amount_string, is_nonblank, validate_pair_and_direction, validate_pair_amount,
}
use intercom_swap.Swap.Schema.Discovery.{sum_exceeds}

-- The binding fees of TERMS: two integers, each and together below the caps.
unfoldable pub check_terms_fees : Value → Result (Unit {0})
check_terms_fees body = do
  require (is_uint (body ! "platform_fee_bps")) "terms.platform_fee_bps must be an integer >= 0"
  require (is_uint (body ! "trade_fee_bps")) "terms.trade_fee_bps must be an integer >= 0"
  refuse (less (nat 500) (to_number (body ! "platform_fee_bps")))
      "terms.platform_fee_bps exceeds 500 bps cap"
  refuse (less (nat 1000) (to_number (body ! "trade_fee_bps")))
      "terms.trade_fee_bps exceeds 1000 bps cap"
  refuse (sum_exceeds (body ! "platform_fee_bps") (body ! "trade_fee_bps") (nat 1500))
      "terms total fee bps exceeds 1500 bps cap"
  when (is_present (body ! "platform_fee_collector")) (
      require (is_settlement_address (body ! "platform_fee_collector"))
        "terms.platform_fee_collector must be base58 or 0x address")
  require (is_settlement_address (body ! "trade_fee_collector"))
      "terms.trade_fee_collector must be base58 or 0x address"

unfoldable pub validate_terms : Value → Result (Unit {0})
validate_terms body = do
  pair ← validate_pair_and_direction body "terms"
  require (is_hex_bytes (body ! "app_hash") 32) "terms.app_hash must be 32-byte hex"
  require (is_pos_int (body ! "btc_sats")) "terms.btc_sats must be a positive integer"
  validate_pair_amount body "terms" pair
  refuse
      (not (is_tao_pair pair)
        && is_defined (body ! "usdt_decimals")
        && not (is_uint (body ! "usdt_decimals")))
      "terms.usdt_decimals must be an integer >= 0"
  require (is_settlement_address (body ! "sol_mint")) "terms.sol_mint must be base58 or 0x address"
  require (is_settlement_address (body ! "sol_recipient"))
      "terms.sol_recipient must be base58 or 0x address"
  require (is_settlement_address (body ! "sol_refund"))
      "terms.sol_refund must be base58 or 0x address"
  require (is_pos_int (body ! "sol_refund_after_unix"))
      "terms.sol_refund_after_unix must be a unix seconds integer"
  require (is_hex_bytes (body ! "ln_receiver_peer") 32) "terms.ln_receiver_peer must be 32-byte hex"
  require (is_hex_bytes (body ! "ln_payer_peer") 32) "terms.ln_payer_peer must be 32-byte hex"
  check_terms_fees body
  refuse
      (is_defined (body ! "terms_valid_until_unix")
        && not (is_pos_int (body ! "terms_valid_until_unix")))
      "terms.terms_valid_until_unix must be unix seconds integer"

unfoldable pub validate_accept : Value → Result (Unit {0})
validate_accept body =
    require (is_string (body ! "terms_hash") && is_hex (body ! "terms_hash"))
      "accept.terms_hash must be hex"

unfoldable pub validate_ln_invoice : Value → Result (Unit {0})
validate_ln_invoice body = do
  require (is_nonblank (body ! "bolt11")) "ln_invoice.bolt11 is required"
  require (is_hex_bytes (body ! "payment_hash_hex") 32)
      "ln_invoice.payment_hash_hex must be 32-byte hex"
  refuse (is_defined (body ! "amount_msat") && not (is_amount_string (body ! "amount_msat")))
      "ln_invoice.amount_msat must be a decimal string"
  refuse (is_defined (body ! "expires_at_unix") && not (is_pos_int (body ! "expires_at_unix")))
      "ln_invoice.expires_at_unix must be unix seconds integer"

unfoldable pub validate_sol_escrow_created : Value → Result (Unit {0})
validate_sol_escrow_created body = do
  require (is_hex_bytes (body ! "payment_hash_hex") 32)
      "sol_escrow_created.payment_hash_hex invalid"
  require (is_base58 (body ! "program_id")) "sol_escrow_created.program_id invalid"
  require (is_base58 (body ! "escrow_pda")) "sol_escrow_created.escrow_pda invalid"
  require (is_base58 (body ! "vault_ata")) "sol_escrow_created.vault_ata invalid"
  require (is_base58 (body ! "mint")) "sol_escrow_created.mint invalid"
  require (is_amount_string (body ! "amount")) "sol_escrow_created.amount must be a decimal string"
  require (is_pos_int (body ! "refund_after_unix")) "sol_escrow_created.refund_after_unix invalid"
  require (is_base58 (body ! "recipient")) "sol_escrow_created.recipient invalid"
  require (is_base58 (body ! "refund")) "sol_escrow_created.refund invalid"
  require (is_nonblank (body ! "tx_sig")) "sol_escrow_created.tx_sig is required"

unfoldable pub validate_tao_htlc_locked : Value → Result (Unit {0})
validate_tao_htlc_locked body = do
  require (is_hex_bytes (body ! "payment_hash_hex") 32) "tao_htlc_locked.payment_hash_hex invalid"
  require (is_hex_text (body ! "settlement_id") 64) "tao_htlc_locked.settlement_id invalid"
  require (is_hex_address (body ! "htlc_address")) "tao_htlc_locked.htlc_address invalid"
  require (is_amount_string (body ! "amount_atomic"))
      "tao_htlc_locked.amount_atomic must be a decimal string"
  require (is_pos_int (body ! "refund_after_unix") || is_amount_string (body ! "refund_after_unix"))
      "tao_htlc_locked.refund_after_unix invalid"
  require (is_hex_address (body ! "recipient")) "tao_htlc_locked.recipient invalid"
  require (is_hex_address (body ! "refund")) "tao_htlc_locked.refund invalid"
  require (is_hex_text (body ! "tx_id") 64) "tao_htlc_locked.tx_id invalid"
  refuse (is_present (body ! "fee_snapshot") && not (is_object (body ! "fee_snapshot")))
      "tao_htlc_locked.fee_snapshot must be an object"

unfoldable pub validate_ln_paid : Value → Result (Unit {0})
validate_ln_paid body = do
  require (is_hex_bytes (body ! "payment_hash_hex") 32) "ln_paid.payment_hash_hex invalid"
  refuse (is_defined (body ! "preimage_hex") && not (is_hex_bytes (body ! "preimage_hex") 32))
      "ln_paid.preimage_hex must be 32-byte hex"

-- SOL_CLAIMED and SOL_REFUNDED
unfoldable pub validate_sol_closed : Value → String → Result (Unit {0})
validate_sol_closed body label = do
  require (is_hex_bytes (body ! "payment_hash_hex") 32) (concat label ".payment_hash_hex invalid")
  require (is_base58 (body ! "escrow_pda")) (concat label ".escrow_pda invalid")
  require (is_nonblank (body ! "tx_sig")) (concat label ".tx_sig is required")

-- TAO_CLAIMED and TAO_REFUNDED
unfoldable pub validate_tao_closed : Value → String → Result (Unit {0})
validate_tao_closed body label = do
  require (is_hex_bytes (body ! "payment_hash_hex") 32) (concat label ".payment_hash_hex invalid")
  require (is_hex_text (body ! "settlement_id") 64) (concat label ".settlement_id invalid")
  require (is_hex_text (body ! "tx_id") 64) (concat label ".tx_id invalid")

unfoldable pub validate_cancel : Value → Result (Unit {0})
validate_cancel body =
    refuse (is_defined (body ! "reason") && not (is_string (body ! "reason")))
      "cancel.reason must be a string"

is_state : Value → Bool
is_state (str s) = elim (state_of_text s) [ some q ↦ true | none ↦ false ]
is_state _ = false

unfoldable pub validate_status : Value → Result (Unit {0})
unfolding is_state
validate_status body = do
  require (is_state (body ! "state")) "status.state must be a valid state"
  refuse (is_defined (body ! "note") && not (is_string (body ! "note")))
      "status.note must be a string"
