-- ===== src/Swap/Schema/Envelope.antt =====
-- src/swap/schema.js: validateSwapEnvelopeShape, the switch of validateSwapBody, and
-- validateSwapEnvelope.
use intercom_swap.Prelude.{String, Bool, false, Option, none, some}
use intercom_swap.Js.Text.{concat}
use intercom_swap.Js.Number.{nat, num_eq}
use intercom_swap.Js.Value.{
  Value, undefined, str, obj, has, ◌!◌, is_object, is_uint, to_number, to_text,
}
use intercom_swap.Js.Result.{Result, error, require, ◌>>◌}
use intercom_swap.Swap.Constants.{
  Kind, kind_of_text, svc_announce, rfq, quote, quote_accept, swap_invite, terms, accept, cancel,
  status, ln_invoice, sol_escrow_created, tao_htlc_locked, ln_paid, sol_claimed, tao_claimed,
  sol_refunded, tao_refunded, swap_protocol_version,
}
use intercom_swap.Swap.Schema.Fields.{Opts, is_nonempty}
use intercom_swap.Swap.Schema.Discovery.{
  validate_svc_announce, validate_rfq, validate_quote, validate_quote_accept, validate_swap_invite,
}
use intercom_swap.Swap.Schema.Trading.{
  validate_terms, validate_accept, validate_ln_invoice, validate_sol_escrow_created,
  validate_tao_htlc_locked, validate_ln_paid, validate_sol_closed, validate_tao_closed,
  validate_cancel, validate_status,
}

-- 'key' in value, for an object
has_key : Value → String → Bool
has_key (obj fs) key = has fs key
has_key _ key = false

unfoldable pub validate_swap_envelope_shape : Value → Result (Unit {0})
unfolding has_key
validate_swap_envelope_shape envelope = do
  require (is_object envelope) "Envelope must be an object"
  require (is_uint (envelope ! "v")) "Envelope.v must be an integer >= 0"
  require (num_eq (to_number (envelope ! "v")) (nat swap_protocol_version))
      (concat "Unsupported swap envelope version v=" (to_text (envelope ! "v")))
  require (is_nonempty (envelope ! "kind")) "Envelope.kind is required"
  require (is_nonempty (envelope ! "trade_id")) "Envelope.trade_id is required"
  require (is_uint (envelope ! "ts")) "Envelope.ts must be an integer unix ms timestamp"
  require (is_nonempty (envelope ! "nonce")) "Envelope.nonce is required"
  require (has_key envelope "body") "Envelope.body is required"

-- The constant that `envelope.kind` is, if it is one.
unfoldable pub kind_of : Value → Option Kind
kind_of (str s) = kind_of_text s
kind_of _ = none

-- The cases of the switch over `kind`.
unfoldable pub validate_body_of_kind : Kind → Value → Opts → Result (Unit {0})
validate_body_of_kind svc_announce body opts = validate_svc_announce body
validate_body_of_kind rfq body opts = validate_rfq body opts
validate_body_of_kind quote body opts = validate_quote body opts
validate_body_of_kind quote_accept body opts = validate_quote_accept body
validate_body_of_kind swap_invite body opts = validate_swap_invite body
validate_body_of_kind terms body opts = validate_terms body
validate_body_of_kind accept body opts = validate_accept body
validate_body_of_kind cancel body opts = validate_cancel body
validate_body_of_kind status body opts = validate_status body
validate_body_of_kind ln_invoice body opts = validate_ln_invoice body
validate_body_of_kind sol_escrow_created body opts = validate_sol_escrow_created body
validate_body_of_kind tao_htlc_locked body opts = validate_tao_htlc_locked body
validate_body_of_kind ln_paid body opts = validate_ln_paid body
validate_body_of_kind sol_claimed body opts = validate_sol_closed body "sol_claimed"
validate_body_of_kind sol_refunded body opts = validate_sol_closed body "sol_refunded"
validate_body_of_kind tao_claimed body opts = validate_tao_closed body "tao_claimed"
validate_body_of_kind tao_refunded body opts = validate_tao_closed body "tao_refunded"

unfoldable pub validate_swap_body : Value → Value → Opts → Result (Unit {0})
validate_swap_body kind body opts = do
  require (is_object body) "Body must be an object"
  elim (kind_of kind) [
    | some k ↦ validate_body_of_kind k body opts
    | none ↦ error (concat "Unknown swap kind: " (to_text kind))
  ]

unfoldable pub validate_swap_envelope : Value → Opts → Result (Unit {0})
validate_swap_envelope envelope opts = do
  validate_swap_envelope_shape envelope
  validate_swap_body (envelope ! "kind") (envelope ! "body") opts

-- `validateSwapEnvelope(envelope)`
abbrev pub default_opts : Opts
default_opts = record {
  min_settlement_refund_sec = undefined;
  max_settlement_refund_sec = undefined;
}
