-- ===== src/Swap/StateMachine/Tests.antt =====
-- The state machine on one swap, and its theorems there.
use intercom_swap.Prelude.{false, ◌≡◌, ◌≢◌, refl, some, ◌↔◌, ◌≤◌, ◌*◌}
use intercom_swap.Js.Text.{
  trim, to_lower, every, length, is_digit, is_hex_digit, is_base58_char, decimal, digits_value,
  is_space,
}
use intercom_swap.Js.Number.{less, less_eq, num_eq, times, truncate, plus, number_of_text}
use intercom_swap.Js.Value.{
  is_readable, strict_eq, Value, str, obj, field, end, ◌!◌, has, is_object, is_reference,
  is_present, truthy, or_empty, trimmed, normalize_hex, to_text, to_number, big_int,
  big_int_of_text, is_uint, is_pos_int, is_text,
}
use intercom_swap.Js.Result.{Result, ok, throw}
use intercom_swap.Swap.Constants.{accepted, Kind, kind_of_text, sol_refunded, canceled}
use intercom_swap.Swap.Pairs.{normalize_pair, is_supported_pair, get_amount_for_pair}
use intercom_swap.Swap.Schema.Fields.{
  is_hex, is_hex_bytes, is_base58, is_settlement_address, is_amount_string, is_nonblank,
  is_nonempty, validate_pair_and_direction, validate_pair_amount,
}
use intercom_swap.Swap.Schema.Trading.{
  validate_terms, check_terms_fees, validate_accept, validate_ln_invoice,
  validate_sol_escrow_created, validate_ln_paid, validate_sol_closed, validate_cancel,
}
use intercom_swap.Swap.Schema.Envelope.{
  kind_of, validate_swap_envelope, validate_swap_envelope_shape, validate_swap_body,
  validate_body_of_kind,
}
use intercom_swap.Protocol.Stringify.{stable_stringify}
use intercom_swap.Protocol.SignedMessage.{
  hash_unsigned_envelope, strip_signature, verify_signed_envelope,
}
use intercom_swap.Swap.StateMachine.Trade.{
  Trade, create_initial_trade, unix_sec_to_ms, not_after, not_before,
}
use intercom_swap.Swap.StateMachine.Agreement.{apply_terms, apply_accept}
use intercom_swap.Swap.StateMachine.Settlement.{
  check_invoice_amount, check_same_invoice, apply_ln_invoice, check_escrow_terms, check_sol_escrow,
  apply_escrow, apply_ln_paid,
}
use intercom_swap.Swap.StateMachine.Closing.{
  check_escrow_named, same_tx, apply_claimed, apply_refunded, apply_cancel,
}
use intercom_swap.Swap.StateMachine.Apply.{dispatch, dispatch_kind, apply_swap_envelope}
use intercom_swap.Swap.StateMachine.Graph.{Moves, apply-Moves}
use intercom_swap.Swap.StateMachine.Spec.{marked, Accepted, apply_iff}
use intercom_swap.Swap.StateMachine.Evidence.{HasEvidence}
use intercom_swap.Swap.StateMachine.Trace.{
  Follows, here, take, Initial, created, Keeps, reachable-HasEvidence, Follows-Keeps,
  Follows-terminal, Follows-ne-canceled,
}
use intercom_swap.Swap.StateMachine.Authorship.{SignedBy, author_field, apply-SignedBy}
use intercom_swap.Swap.StateMachine.Replay.{apply_again}
use intercom_swap.Swap.StateMachine.Agreed.{
  IsAgreed, reachable-IsAgreed, EscrowAgrees, lock-EscrowAgrees,
}
use intercom_swap.Swap.Schema.TermsBody.{IsTermsBody, validate_terms-IsTermsBody}
use intercom_swap.Swap.Terms.Handshake.{accept_taken}
use intercom_swap.Swap.Terms.{accept_body_for_terms, accept_body_for_terms-terms_hash}
use intercom_swap.Swap.Verify.{verify_escrow_against_terms}
use intercom_swap.Swap.Verify.Escrow.{tao_terms, verify_escrow_iff, lock_verified}
use intercom_swap.Swap.StateMachine.Invoice.{apply_invoice-ne-throw}
use intercom_swap.Swap.StateMachine.Deadlines.{accept_in_time, paid_in_time, refund_in_time}
use intercom_swap.Swap.StateMachine.Example.{
  envelope, payer, crypto, terms_body, escrow_body, terms_envelope, accept_envelope,
  invoice_envelope, escrow_envelope, paid_envelope, claimed_envelope, refunded_envelope,
  initial_trade, proposed_trade, accepted_trade, invoiced_trade, locked_trade, paid_trade,
  claimed_trade, refunded_trade,
}

-- applySwapEnvelope with all that it calls.
apply : Trade → Value → Result Trade
unfolding apply_swap_envelope dispatch_kind dispatch validate_swap_envelope
    validate_swap_envelope_shape validate_swap_body validate_body_of_kind kind_of kind_of_text
    validate_terms check_terms_fees validate_accept validate_ln_invoice validate_sol_escrow_created
    validate_ln_paid validate_sol_closed validate_cancel validate_pair_and_direction
    validate_pair_amount is_hex is_hex_bytes is_base58 is_settlement_address is_amount_string
    is_nonblank is_nonempty normalize_pair is_supported_pair get_amount_for_pair
    verify_signed_envelope hash_unsigned_envelope strip_signature stable_stringify apply_terms
    apply_accept apply_ln_invoice check_invoice_amount check_same_invoice apply_escrow
    check_escrow_terms check_sol_escrow apply_ln_paid apply_claimed apply_refunded apply_cancel
    check_escrow_named same_tx strict_eq unix_sec_to_ms not_after not_before trim to_lower every
    length is_digit is_hex_digit is_base58_char decimal digits_value is_space less less_eq num_eq
    times truncate plus ◌!◌ has is_object is_reference is_present truthy or_empty trimmed
    normalize_hex to_text to_number big_int big_int_of_text is_uint is_pos_int is_text
    number_of_text is_readable
apply t e = apply_swap_envelope crypto t e

propose : apply_swap_envelope crypto initial_trade terms_envelope ≡ ok proposed_trade
unfolding apply
propose = refl

agree : apply_swap_envelope crypto proposed_trade accept_envelope ≡ ok accepted_trade
unfolding apply
agree = refl

invoice : apply_swap_envelope crypto accepted_trade invoice_envelope ≡ ok invoiced_trade
unfolding apply
invoice = refl

lock : apply_swap_envelope crypto invoiced_trade escrow_envelope ≡ ok locked_trade
unfolding apply
lock = refl

pay : apply_swap_envelope crypto locked_trade paid_envelope ≡ ok paid_trade
unfolding apply
pay = refl

claim : apply_swap_envelope crypto paid_trade claimed_envelope ≡ ok claimed_trade
unfolding apply
claim = refl

give_back : apply_swap_envelope crypto locked_trade refunded_envelope ≡ ok refunded_trade
unfolding apply
give_back = refl

start : Initial initial_trade
unfolding create_initial_trade
start = created "t1" refl

-- From the first trade to the claim.
whole : Follows crypto initial_trade claimed_trade
whole =
    take claimed_envelope
      (take paid_envelope
        (take escrow_envelope
          (take invoice_envelope (take accept_envelope (take terms_envelope here propose) agree)
            invoice)
          lock)
        pay)
      claim

from_accept : Follows crypto accepted_trade locked_trade
from_accept = take escrow_envelope (take invoice_envelope here invoice) lock

from_lock : Follows crypto locked_trade refunded_trade
from_lock = take refunded_envelope here give_back

claim_again : apply_swap_envelope crypto claimed_trade claimed_envelope ≡ ok claimed_trade
unfolding apply
claim_again = refl

from_claim : Follows crypto claimed_trade claimed_trade
from_claim = take claimed_envelope here claim_again

apply_iff_example :
    (apply_swap_envelope crypto invoiced_trade escrow_envelope ≡ ok locked_trade)
    ↔ Accepted crypto invoiced_trade escrow_envelope locked_trade
apply_iff_example = apply_iff crypto invoiced_trade escrow_envelope locked_trade

apply-Moves_example :
    (k : Kind) × (kind_of (paid_envelope ! "kind") ≡ some k)
    × Moves k locked_trade.state paid_trade.state
apply-Moves_example = apply-Moves crypto locked_trade paid_envelope paid_trade pay

reachable-HasEvidence_example : HasEvidence claimed_trade
reachable-HasEvidence_example = reachable-HasEvidence crypto initial_trade claimed_trade start whole

Follows-Keeps_example : Keeps accepted_trade locked_trade
Follows-Keeps_example = Follows-Keeps crypto accepted_trade locked_trade refl from_accept

Follows-terminal_example : claimed_trade.state ≡ claimed_trade.state
Follows-terminal_example = Follows-terminal crypto claimed_trade claimed_trade refl from_claim

Follows-ne-canceled_example : refunded_trade.state ≢ canceled
Follows-ne-canceled_example = Follows-ne-canceled crypto locked_trade refunded_trade refl from_lock

apply-SignedBy_example :
    (verify_signed_envelope crypto paid_envelope ≡ ok tt)
    × (k : Kind) × (kind_of (paid_envelope ! "kind") ≡ some k)
    × SignedBy locked_trade.terms paid_envelope (author_field k)
unfolding truthy
apply-SignedBy_example = apply-SignedBy crypto locked_trade paid_envelope paid_trade refl pay

apply_again_example : apply_swap_envelope crypto locked_trade escrow_envelope ≡ ok locked_trade
apply_again_example = apply_again crypto invoiced_trade escrow_envelope locked_trade lock

reachable-IsAgreed_example : IsAgreed claimed_trade
reachable-IsAgreed_example = reachable-IsAgreed crypto initial_trade claimed_trade start whole

apply_invoice-ne-throw_example : apply_swap_envelope crypto claimed_trade invoice_envelope ≢ throw
unfolding kind_of kind_of_text ◌!◌
apply_invoice-ne-throw_example =
    apply_invoice-ne-throw crypto initial_trade claimed_trade invoice_envelope start whole refl

accept_in_time_example : 101000 ≤ 200 * 1000
unfolding apply
accept_in_time_example =
    accept_in_time crypto proposed_trade accept_envelope accepted_trade 101000 200 refl agree refl
      refl refl

paid_in_time_example : 104000 ≤ 3700 * 1000
unfolding apply
paid_in_time_example =
    paid_in_time crypto locked_trade paid_envelope paid_trade 104000 3700 pay refl refl refl

refund_in_time_example : 260000 * 1000 ≤ 260000000
unfolding apply
refund_in_time_example =
    refund_in_time crypto locked_trade refunded_envelope refunded_trade sol_refunded 260000000
      260000 give_back refl refl refl refl

lock-EscrowAgrees_example : EscrowAgrees false locked_trade.terms locked_trade.escrow
unfolding truthy kind_of kind_of_text ◌!◌
lock-EscrowAgrees_example =
    lock-EscrowAgrees crypto invoiced_trade escrow_envelope locked_trade false refl lock refl

lock_verified_example : verify_escrow_against_terms terms_body escrow_body ≡ ok tt
unfolding apply
lock_verified_example =
    lock_verified crypto invoiced_trade escrow_envelope locked_trade refl lock refl (refl, refl)

verify_escrow_iff_example :
    (verify_escrow_against_terms terms_body escrow_body ≡ ok tt)
    ↔ EscrowAgrees (tao_terms terms_body) terms_body escrow_body
unfolding is_reference
verify_escrow_iff_example = verify_escrow_iff terms_body escrow_body refl refl

accept_body_for_terms-terms_hash_example :
    accept_body_for_terms crypto terms_envelope
    ≡ ok (obj (field "terms_hash" proposed_trade.terms_hash end))
unfolding kind_of kind_of_text ◌!◌
accept_body_for_terms-terms_hash_example =
    accept_body_for_terms-terms_hash crypto initial_trade terms_envelope proposed_trade refl propose
      refl

validate_terms-IsTermsBody_example : IsTermsBody terms_body
unfolding apply is_readable
validate_terms-IsTermsBody_example = validate_terms-IsTermsBody terms_body refl

abbrev answer_envelope : Value
answer_envelope = envelope "swap.accept" payer 101000 (obj (field "terms_hash" (str "0e") end))

answer_made : accept_body_for_terms crypto terms_envelope ≡ ok (answer_envelope ! "body")
unfolding apply accept_body_for_terms
answer_made = refl

accept_taken_example :
    apply_swap_envelope crypto proposed_trade answer_envelope
    ≡ ok (record (marked proposed_trade answer_envelope) {
      state = accepted;
      accepted_at = answer_envelope ! "ts";
    })
unfolding apply
accept_taken_example =
    accept_taken crypto initial_trade terms_envelope proposed_trade answer_envelope refl propose
      refl answer_made refl refl refl refl refl refl refl
