-- ===== src/Swap/StateMachine/Invoice.antt =====
-- The BigInt conversions of LN_INVOICE (src/swap/stateMachine.js) against what validation and the
-- earlier envelopes make sure of.
use intercom_swap.Prelude.{ℕ, String, ◌≡◌, ◌≢◌, refl, true, arith, some, Bool-cases, inl, inr}
use intercom_swap.Js.Number.{nat}
use intercom_swap.Js.Value.{
  Value, str, ◌!◌, is_present, is_defined, truthy, big_int_of_text, to_text,
}
use intercom_swap.Js.Integers.{big_int-nat, big_int_of_text-digits}
use intercom_swap.Js.Result.{ok, throw}
use intercom_swap.Swap.Constants.{ln_invoice}
use intercom_swap.Swap.Schema.Fields.{is_amount_string}
use intercom_swap.Swap.Schema.Trading.{validate_terms, validate_ln_invoice}
use intercom_swap.Swap.Schema.TermsBody.{validate_terms-IsTermsBody}
use intercom_swap.Swap.Schema.Total.{shape-ne-throw}
use intercom_swap.Swap.Schema.Envelope.{
  kind_of, validate_swap_body, validate_swap_envelope, validate_body_of_kind, default_opts,
}
use intercom_swap.Protocol.SignedMessage.{Crypto, verify_signed_envelope}
use intercom_swap.Swap.StateMachine.Trade.{Trade, not_after}
use intercom_swap.Swap.StateMachine.Settlement.{
  check_invoice_amount, check_same_invoice, apply_ln_invoice,
}
use intercom_swap.Swap.StateMachine.Apply.{dispatch, dispatch_kind, apply_swap_envelope}
use intercom_swap.Swap.StateMachine.Spec.{marked}
use intercom_swap.Swap.StateMachine.Trace.{Follows, Initial}
use intercom_swap.Swap.StateMachine.Agreed.{reachable-IsAgreed}
use intercom_swap.Swap.StateMachine.Replay.{valid-of_kind}

-- BigInt reads every amount that validation lets through.
amount-big_int :
    (v : Value) → is_amount_string v ≡ true → (n : ℕ) × (big_int_of_text (to_text v) ≡ some (nat n))
unfolding is_amount_string to_text
amount-big_int (str s) h = (_, big_int_of_text-digits s (ground arith))
amount-big_int _ h = cc

is_defined_of_present : (v : Value) → is_present v ≡ true → is_defined v ≡ true
unfolding is_present
is_defined_of_present Value.undefined h = cc
is_defined_of_present _ h = refl

present-amount_string :
    (body : Value)
    → validate_ln_invoice body ≡ ok tt
    → is_present (body ! "amount_msat") ≡ true
    → is_amount_string (body ! "amount_msat") ≡ true
unfolding validate_ln_invoice
present-amount_string body w p = ground (arith, is_defined_of_present (body ! "amount_msat") p)

invoice_amount-ne-throw :
    (terms body : Value)
    → validate_terms terms ≡ ok tt
    → validate_ln_invoice body ≡ ok tt
    → check_invoice_amount terms body ≢ throw
unfolding check_invoice_amount
invoice_amount-ne-throw terms body v w h =
    let t = validate_terms-IsTermsBody terms v in
    elim (Bool-cases (is_present (body ! "amount_msat"))) [
      | inl there ↦
          let (n, amount) = amount-big_int _ (present-amount_string body w there) in
          ground (arith, there, amount, t.btc_sats, big_int-nat t.sats)
      | inr missing ↦ ground arith
    ]

module _ (a b : Value) (x y : String) where
  not_after-ne-throw : not_after a b x y ≢ throw
  unfolding not_after
  not_after-ne-throw h = ground arith

  same_invoice-ne-throw : check_same_invoice a b ≢ throw
  unfolding check_same_invoice
  same_invoice-ne-throw h = ground arith

signature-ne-throw : (crypto : Crypto) (e : Value) → verify_signed_envelope crypto e ≢ throw
unfolding verify_signed_envelope
signature-ne-throw crypto e h = ground arith

invoice_body-ne-throw : (body : Value) → validate_ln_invoice body ≢ throw
unfolding validate_ln_invoice
invoice_body-ne-throw body h = ground arith

invoice_envelope-ne-throw :
    (envelope : Value)
    → kind_of (envelope ! "kind") ≡ some ln_invoice
    → validate_swap_envelope envelope default_opts ≢ throw
unfolding validate_swap_envelope validate_swap_body validate_body_of_kind
invoice_envelope-ne-throw e known h =
    ground (arith, known, shape-ne-throw e, invoice_body-ne-throw (e ! "body"))

apply_ln_invoice-ne-throw :
    (next : Trade) (envelope : Value)
    → (truthy next.terms ≡ true → validate_terms next.terms ≡ ok tt)
    → validate_ln_invoice (envelope ! "body") ≡ ok tt
    → apply_ln_invoice next envelope ≢ throw
unfolding apply_ln_invoice not_after
apply_ln_invoice-ne-throw next e i v h = ground (
  arith,
  invoice_amount-ne-throw next.terms (e ! "body"),
  same_invoice-ne-throw next.invoice (e ! "body") "" "",
)

-- On every trade that envelopes lead to from createInitialTrade, any LN_INVOICE that arrives, valid
-- or not, gets a trade or an error for an answer: neither BigInt(terms.btc_sats) nor
-- BigInt(String(body.amount_msat)), for which the handler has no `try`, raises an exception. The
-- check of a signature is taken to raise none.
pub apply_invoice-ne-throw :
    (crypto : Crypto) (s t : Trade) (envelope : Value)
    → Initial s
    → Follows crypto s t
    → kind_of (envelope ! "kind") ≡ some ln_invoice
    → apply_swap_envelope crypto t envelope ≢ throw
unfolding apply_swap_envelope dispatch_kind dispatch validate_body_of_kind
apply_invoice-ne-throw crypto s t e i f known h =
    let agreed = reachable-IsAgreed crypto s t i f in
    ground (
      arith,
      known,
      invoice_envelope-ne-throw e known,
      signature-ne-throw crypto e,
      λ (v : validate_swap_envelope e default_opts ≡ ok tt). valid-of_kind e ln_invoice v known,
      apply_ln_invoice-ne-throw (marked t e) e agreed.valid_terms,
    )
