-- ===== src/Swap/StateMachine/Trade.antt =====
-- src/swap/stateMachine.js: the record of a trade, and the checks that the handlers share.
use intercom_swap.Prelude.{String, Bool, not, ◌&&◌, if◌then◌else◌, str_eq}
use intercom_swap.Js.Text.{concat, is_empty}
use intercom_swap.Js.Number.{Num, nan, is_finite, less, times, truncate}
use intercom_swap.Js.Value.{
  Value, null, obj, end, field, ◌!◌, is_present, to_text, to_number, normalize_hex,
}
use intercom_swap.Js.Result.{Result, ok, require, refuse, when, ◌>>◌}
use intercom_swap.Swap.Constants.{State, init}

-- A field is `null` until an envelope sets it.
pub record Trade : Type 0 where
  pub trade_id : String
  pub state : State
  pub terms : Value
  pub terms_hash : Value
  pub invoice : Value
  pub escrow : Value
  pub ln_paid : Value
  pub claimed : Value
  pub refunded : Value
  pub last : Value
  pub accepted_at : Value
  pub canceled_reason : Value

unfoldable pub create_initial_trade : String → Result Trade
create_initial_trade trade_id = do
  refuse (is_empty trade_id) "tradeId is required"
  ok (record {
    trade_id = trade_id;
    state = init;
    terms = null;
    terms_hash = null;
    invoice = null;
    escrow = null;
    ln_paid = null;
    claimed = null;
    refunded = null;
    last = null;
    accepted_at = null;
    canceled_reason = null;
  })

-- requireSigner
abbrev pub is_signer : Value → Value → Bool
is_signer envelope expected =
    let signer = normalize_hex (envelope ! "signer") in
    let exp = normalize_hex expected in
    not (is_empty signer) && not (is_empty exp) && str_eq signer exp

abbrev pub require_signer : Value → Value → String → Result (Unit {0})
require_signer envelope expected label =
    require (is_signer envelope expected) (concat label ": wrong signer")

-- normalizeHex(a) === normalizeHex(b)
abbrev pub hex_eq : Value → Value → Bool
hex_eq a b = str_eq (normalize_hex a) (normalize_hex b)

-- String(a) === String(b)
abbrev pub text_eq : Value → Value → Bool
text_eq a b = str_eq (to_text a) (to_text b)

unfoldable pub unix_sec_to_ms : Value → Num
unix_sec_to_ms v = let n = to_number v in if is_finite n then truncate (times n 1000) else nan

-- An optional point in time, in unix seconds, that the envelope's `ts` may not have passed.
unfoldable pub not_after : Value → Value → String → String → Result (Unit {0})
not_after envelope limit invalid late = when (is_present limit) do
  require (is_finite (unix_sec_to_ms limit)) invalid
  refuse (less (unix_sec_to_ms limit) (to_number (envelope ! "ts"))) late

-- One that the envelope's `ts` has to have reached.
unfoldable pub not_before : Value → Value → String → String → Result (Unit {0})
not_before envelope limit invalid early = when (is_present limit) do
  require (is_finite (unix_sec_to_ms limit)) invalid
  refuse (less (to_number (envelope ! "ts")) (unix_sec_to_ms limit)) early

-- next.last = { kind, ts, signer }
abbrev pub last_of : Value → Value
last_of envelope = obj (
    field "kind" (envelope ! "kind")
      (field "ts" (envelope ! "ts") (field "signer" (envelope ! "signer") end)))
