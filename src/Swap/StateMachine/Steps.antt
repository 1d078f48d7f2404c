-- ===== src/Swap/StateMachine/Steps.antt =====
-- The specification of src/swap/stateMachine.js, kind by kind: the checks that an envelope has to
-- pass, and the trade that results.
use intercom_swap.Prelude.{◌≡◌, Bool, true, false, if◌then◌else◌, ◌⊎◌}
use intercom_swap.Js.Text.{concat}
use intercom_swap.Js.Value.{Value, null, str, ◌!◌, truthy}
use intercom_swap.Js.Result.{ok}
use intercom_swap.Swap.Constants.{accepted, escrow, ln_paid, claimed, refunded, canceled}
use intercom_swap.Protocol.SignedMessage.{Crypto, strip_signature, hash_unsigned_envelope}
use intercom_swap.Swap.StateMachine.Trade.{Trade, is_signer, hex_eq, not_after, not_before}
use intercom_swap.Swap.StateMachine.Agreement.{before_accept, is_terms, is_canceled, set_terms}
use intercom_swap.Swap.StateMachine.Settlement.{
  allows_invoice, allows_escrow, allows_ln_paid, after_invoice, first_of_both, check_invoice_amount,
  check_same_invoice, check_escrow_terms, check_tao_lock, check_sol_escrow,
}
use intercom_swap.Swap.StateMachine.Closing.{
  allows_claimed, allows_refunded, is_closed, is_escrowed, check_escrow_named, same_tx,
}

abbrev pub envelope_hash : Crypto → Value → Value
envelope_hash crypto envelope = str (hash_unsigned_envelope crypto (strip_signature envelope))

module _ (next : Trade) (envelope : Value) (t : Trade) where
  pub record TermsStep (crypto : Crypto) : Type 0 where
    pub by_receiver : is_signer envelope (envelope ! "body" ! "ln_receiver_peer") ≡ true
    pub same_receiver :
        truthy next.terms ≡ true → is_signer envelope (next.terms ! "ln_receiver_peer") ≡ true
    pub outcome :
        (before_accept next.state ≡ true)
          × (t ≡ set_terms next (envelope ! "body") (envelope_hash crypto envelope))
        ⊎ (before_accept next.state ≡ false)
          × (hex_eq next.terms_hash (envelope_hash crypto envelope) ≡ true)
          × (t ≡ next)

  pub record AcceptStep : Type 0 where
    pub active : (truthy next.terms ≡ true) × (truthy next.terms_hash ≡ true)
    pub by_payer : is_signer envelope (next.terms ! "ln_payer_peer") ≡ true
    pub same_hash : hex_eq (envelope ! "body" ! "terms_hash") next.terms_hash ≡ true
    pub outcome :
        (is_terms next.state ≡ true)
          × (not_after envelope
                (next.terms ! "terms_valid_until_unix")
                "ACCEPT invalid terms_valid_until_unix"
                "ACCEPT arrived after terms expiry"
              ≡ ok tt)
          × (t ≡ record next { state = accepted; accepted_at = envelope ! "ts" })
        ⊎ (is_terms next.state ≡ false) × (is_canceled next.state ≡ false) × (t ≡ next)

  pub record InvoiceStep : Type 0 where
    pub allowed : allows_invoice next.state ≡ true
    pub active : truthy next.terms ≡ true
    pub by_receiver : is_signer envelope (next.terms ! "ln_receiver_peer") ≡ true
    pub amount : check_invoice_amount next.terms (envelope ! "body") ≡ ok tt
    pub in_time :
        not_after envelope
          (envelope ! "body" ! "expires_at_unix")
          "LN invoice invalid expires_at_unix"
          "LN invoice already expired"
        ≡ ok tt
    pub same :
        truthy next.invoice ≡ true → check_same_invoice next.invoice (envelope ! "body") ≡ ok tt
    pub outcome : t ≡ record next {
      invoice = first_of_both next.invoice (envelope ! "body");
      state = after_invoice next.state;
    }

  pub record PaidStep : Type 0 where
    pub allowed : allows_ln_paid next.state ≡ true
    pub active :
        (truthy next.terms ≡ true) × (truthy next.invoice ≡ true) × (truthy next.escrow ≡ true)
    pub by_payer : is_signer envelope (next.terms ! "ln_payer_peer") ≡ true
    pub pays_invoice :
        hex_eq (envelope ! "body" ! "payment_hash_hex") (next.invoice ! "payment_hash_hex") ≡ true
    pub pays_escrow :
        hex_eq (envelope ! "body" ! "payment_hash_hex") (next.escrow ! "payment_hash_hex") ≡ true
    pub in_time :
        not_after envelope
          (next.invoice ! "expires_at_unix")
          "LN_PAID invalid invoice expires_at_unix"
          "LN_PAID after invoice expiry"
        ≡ ok tt
    pub same :
        truthy next.ln_paid ≡ true
        → hex_eq (next.ln_paid ! "payment_hash_hex") (envelope ! "body" ! "payment_hash_hex") ≡ true
    pub outcome :
        t
        ≡ record next { ln_paid = first_of_both next.ln_paid (envelope ! "body"); state = ln_paid }

  pub record EscrowStep (is_tao : Bool) : Type 0 where
    pub allowed : allows_escrow next.state ≡ true
    pub active : (truthy next.terms ≡ true) × (truthy next.invoice ≡ true)
    pub by_receiver : is_signer envelope (next.terms ! "ln_receiver_peer") ≡ true
    pub same_hash :
        hex_eq (envelope ! "body" ! "payment_hash_hex") (next.invoice ! "payment_hash_hex") ≡ true
    pub as_agreed :
        check_escrow_terms next.terms
          (envelope ! "body")
          (if is_tao then "TAO HTLC" else "SOL escrow")
        ≡ ok tt
    pub as_locked :
        (if is_tao
          then check_tao_lock next (envelope ! "body")
          else check_sol_escrow next (envelope ! "body"))
        ≡ ok tt
    pub outcome :
        t ≡ record next { escrow = first_of_both next.escrow (envelope ! "body"); state = escrow }

  pub record ClaimedStep (is_tao : Bool) : Type 0 where
    pub allowed : allows_claimed next.state ≡ true
    pub active : (truthy next.terms ≡ true) × (truthy next.escrow ≡ true)
    pub by_payer : is_signer envelope (next.terms ! "ln_payer_peer") ≡ true
    pub same_hash :
        hex_eq (envelope ! "body" ! "payment_hash_hex") (next.escrow ! "payment_hash_hex") ≡ true
    pub named :
        check_escrow_named is_tao next.escrow
          (envelope ! "body")
          (if is_tao then "TAO_CLAIMED" else "SOL_CLAIMED")
        ≡ ok tt
    pub same : truthy next.claimed ≡ true → same_tx is_tao next.claimed (envelope ! "body") ≡ true
    pub outcome :
        t
        ≡ record next { claimed = first_of_both next.claimed (envelope ! "body"); state = claimed }

  pub record RefundedStep (is_tao : Bool) : Type 0 where
    pub allowed : allows_refunded next.state ≡ true
    pub active : (truthy next.terms ≡ true) × (truthy next.escrow ≡ true)
    pub by_receiver : is_signer envelope (next.terms ! "ln_receiver_peer") ≡ true
    pub same_hash :
        hex_eq (envelope ! "body" ! "payment_hash_hex") (next.escrow ! "payment_hash_hex") ≡ true
    pub named :
        check_escrow_named is_tao next.escrow
          (envelope ! "body")
          (if is_tao then "TAO_REFUNDED" else "SOL_REFUNDED")
        ≡ ok tt
    pub due :
        not_before envelope
          (next.escrow ! "refund_after_unix")
          (concat (if is_tao then "TAO_REFUNDED" else "SOL_REFUNDED") " invalid refund_after_unix")
          (concat (if is_tao then "TAO_REFUNDED" else "SOL_REFUNDED") " too early")
        ≡ ok tt
    pub same : truthy next.refunded ≡ true → same_tx is_tao next.refunded (envelope ! "body") ≡ true
    pub outcome : t ≡ record next {
      refunded = first_of_both next.refunded (envelope ! "body");
      state = refunded;
    }

  pub record CancelStep : Type 0 where
    pub outcome :
        (is_canceled next.state ≡ true) × (t ≡ next)
        ⊎ (is_canceled next.state ≡ false)
          × (is_closed next.state ≡ false)
          × (is_escrowed next.state ≡ false)
          × (t ≡ record next {
            state = canceled;
            canceled_reason =
                if truthy (envelope ! "body" ! "reason")
                then envelope ! "body" ! "reason"
                else null;
          })
