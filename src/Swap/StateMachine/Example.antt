-- ===== src/Swap/StateMachine/Example.antt =====
-- One Solana swap, from its terms to the claim, as the witnesses of the theorems use it.
use intercom_swap.Prelude.{ℕ, String, true, some}
use intercom_swap.Js.Number.{nat}
use intercom_swap.Js.Value.{Value, null, num, str, obj, end, field}
use intercom_swap.Swap.Constants.{
  init, terms, accepted, invoice, escrow, ln_paid, claimed, refunded,
}
use intercom_swap.Protocol.SignedMessage.{Crypto}
use intercom_swap.Swap.StateMachine.Trade.{Trade, last_of}

-- A hash that is the same for all texts, and signatures that are all valid.
abbrev pub crypto : Crypto
crypto = record { sha256_hex = λ s. "0e"; verify = λ sig message signer. some true }

abbrev pub receiver : Value
receiver = str "aaaaaaaaaaaaaaaaaaaaaaaaaaaaaaaaaaaaaaaaaaaaaaaaaaaaaaaaaaaaaaaa"

abbrev pub payer : Value
payer = str "bbbbbbbbbbbbbbbbbbbbbbbbbbbbbbbbbbbbbbbbbbbbbbbbbbbbbbbbbbbbbbbb"

abbrev pub stranger : Value
stranger = str "5555555555555555555555555555555555555555555555555555555555555555"

abbrev pub payment_hash : Value
payment_hash = str "cccccccccccccccccccccccccccccccccccccccccccccccccccccccccccccccc"

abbrev pub envelope : String → Value → ℕ → Value → Value
envelope kind signer ts body = obj (
    field "v" (num (nat 1)) (
      field "kind" (str kind) (
        field "trade_id" (str "t1") (
          field "ts" (num (nat ts)) (
            field "nonce" (str "n1")
              (field "body" body (field "signer" signer (field "sig" (str "00") end))))))))

abbrev pub terms_body : Value
terms_body = obj (
    field "pair" (str "BTC_LN/USDT_SOL") (
      field "direction" (str "BTC_LN->USDT_SOL") (
        field "app_hash" payment_hash (
          field "btc_sats" (num (nat 1000)) (
            field "usdt_amount" (str "670000") (
              field "sol_mint" (str "Mint1") (
                field "sol_recipient" (str "Payer1") (
                  field "sol_refund" (str "Maker1") (
                    field "sol_refund_after_unix" (num (nat 260000)) (
                      field "ln_receiver_peer" receiver (
                        field "ln_payer_peer" payer (
                          field "platform_fee_bps" (num (nat 10)) (
                            field "trade_fee_bps" (num (nat 20)) (
                              field "trade_fee_collector" (str "Fees1")
                                (field "terms_valid_until_unix" (num (nat 200)) end)))))))))))))))

abbrev pub terms_envelope : Value
terms_envelope = envelope "swap.terms" receiver 100000 terms_body

abbrev pub accept_envelope : Value
accept_envelope = envelope "swap.accept" payer 101000 (obj (field "terms_hash" (str "0E") end))

abbrev pub invoice_body : Value
invoice_body = obj (
    field "bolt11" (str "lnbc1") (
      field "payment_hash_hex" payment_hash
        (field "amount_msat" (str "1000000") (field "expires_at_unix" (num (nat 3700)) end))))

abbrev pub invoice_envelope : Value
invoice_envelope = envelope "swap.ln_invoice" receiver 102000 invoice_body

abbrev pub escrow_body : Value
escrow_body = obj (
    field "payment_hash_hex" payment_hash (
      field "program_id" (str "Prog1") (
        field "escrow_pda" (str "Pda1") (
          field "vault_ata" (str "Vau1t") (
            field "mint" (str "Mint1") (
              field "amount" (str "670000") (
                field "refund_after_unix" (num (nat 260000)) (
                  field "recipient" (str "Payer1")
                    (field "refund" (str "Maker1") (field "tx_sig" (str "Sig1") end))))))))))

abbrev pub escrow_envelope : Value
escrow_envelope = envelope "swap.sol_escrow_created" receiver 103000 escrow_body

abbrev pub paid_body : Value
paid_body = obj (field "payment_hash_hex" payment_hash end)

abbrev pub paid_envelope : Value
paid_envelope = envelope "swap.ln_paid" payer 104000 paid_body

abbrev pub closing_body : Value
closing_body = obj (
    field "payment_hash_hex" payment_hash
      (field "escrow_pda" (str "Pda1") (field "tx_sig" (str "Sig2") end)))

abbrev pub claimed_envelope : Value
claimed_envelope = envelope "swap.sol_claimed" payer 105000 closing_body

abbrev pub refunded_envelope : Value
refunded_envelope = envelope "swap.sol_refunded" receiver 260000000 closing_body

abbrev pub cancel_envelope : Value
cancel_envelope = envelope "swap.cancel" stranger 102500 (obj end)

-- The trade after each of them.
abbrev pub initial_trade : Trade
initial_trade = record {
  trade_id = "t1";
  state = init;
  terms = null;
  terms_hash = null;
  invoice = null;
  escrow = null;
  ln_paid = null;
  claimed = null;
  refunded = null;
  last = null;
  accepted_at = null;
  canceled_reason = null;
}

abbrev pub proposed_trade : Trade
proposed_trade = record initial_trade {
  state = terms;
  terms = terms_body;
  terms_hash = str "0e";
  last = last_of terms_envelope;
}

abbrev pub accepted_trade : Trade
accepted_trade = record proposed_trade {
  state = accepted;
  accepted_at = num (nat 101000);
  last = last_of accept_envelope;
}

abbrev pub invoiced_trade : Trade
invoiced_trade = record accepted_trade {
  state = invoice;
  invoice = invoice_body;
  last = last_of invoice_envelope;
}

abbrev pub locked_trade : Trade
locked_trade = record invoiced_trade {
  state = escrow;
  escrow = escrow_body;
  last = last_of escrow_envelope;
}

abbrev pub paid_trade : Trade
paid_trade = record locked_trade {
  state = ln_paid;
  ln_paid = paid_body;
  last = last_of paid_envelope;
}

abbrev pub claimed_trade : Trade
claimed_trade = record paid_trade {
  state = claimed;
  claimed = closing_body;
  last = last_of claimed_envelope;
}

abbrev pub refunded_trade : Trade
refunded_trade = record locked_trade {
  state = refunded;
  refunded = closing_body;
  last = last_of refunded_envelope;
}
