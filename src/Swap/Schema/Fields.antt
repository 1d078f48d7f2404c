-- ===== src/Swap/Schema/Fields.antt =====
-- src/swap/schema.js: the tests of single fields, and the checks that the bodies share.
use intercom_swap.Prelude.{
  ℕ, ◌*◌, String, Bool, false, not, ◌&&◌, ◌||◌, List, ◌∷◌, ltb, leb, ◌==◌, if◌then◌else◌, str_eq,
}
use intercom_swap.Js.Text.{
  concat, trim, to_lower, is_empty, codes, every, length, is_digit, is_hex_digit, is_base58_char,
}
use intercom_swap.Js.Number.{Num, nat, is_finite, less, num_text}
use intercom_swap.Js.Value.{
  Value, num, str, ◌!◌, is_defined, is_present, is_uint, is_text, is_readable, to_number,
}
use intercom_swap.Js.Result.{Result, ok, throw, require, refuse, when, done, ◌>>◌}
use intercom_swap.Swap.Constants.{Pair, pair_text}
use intercom_swap.Swap.Pairs.{
  pair_config, normalize_pair, is_supported_pair, is_tao_pair, get_amount_for_pair,
}

-- isHex(value, bytes)
unfoldable pub is_hex_bytes : Value → ℕ → Bool
is_hex_bytes (str s) bytes =
    let cs = codes (to_lower (trim s)) in every is_hex_digit cs && length cs == bytes * 2
is_hex_bytes _ bytes = false

-- isHex(value)
unfoldable pub is_hex : Value → Bool
is_hex (str s) = let cs = codes (to_lower (trim s)) in every is_hex_digit cs && ltb 0 (length cs)
is_hex _ = false

unfoldable pub is_base58 : Value → Bool
is_base58 (str s) = let cs = codes (trim s) in ltb 0 (length cs) && every is_base58_char cs
is_base58 _ = false

-- /^0x[0-9a-fA-F]{digits}$/ on the trimmed text
is_hex_literal : List ℕ → ℕ → Bool
is_hex_literal (z ∷ x ∷ cs) digits =
    z == b'0'
    && x == b'x'
    && every (λ c. is_hex_digit c || (leb b'A' c && leb c b'F')) cs
    && length cs == digits
is_hex_literal _ digits = false

unfoldable pub is_hex_text : Value → ℕ → Bool
unfolding is_hex_literal
is_hex_text (str s) digits = is_hex_literal (codes (trim s)) digits
is_hex_text _ digits = false

unfoldable pub is_hex_address : Value → Bool
unfolding is_hex_text
is_hex_address v = is_hex_text v 40

unfoldable pub is_settlement_address : Value → Bool
unfolding is_base58 is_hex_address
is_settlement_address v = is_base58 v || is_hex_address v

unfoldable pub is_amount_string : Value → Bool
is_amount_string (str s) = let cs = codes (trim s) in every is_digit cs && ltb 0 (length cs)
is_amount_string _ = false

-- typeof value === 'string' && value.trim().length > 0
unfoldable pub is_nonblank : Value → Bool
is_nonblank (str s) = not (is_empty (trim s))
is_nonblank _ = false

-- typeof value === 'string' && value.length > 0
unfoldable pub is_nonempty : Value → Bool
is_nonempty (str s) = not (is_empty s)
is_nonempty _ = false

-- The call of String(value), which may raise an exception
abbrev pub readable : Value → Result (Unit {0})
readable v = if is_readable v then done else throw

unfoldable pub validate_pair_and_direction : Value → String → Result Pair
validate_pair_and_direction body label =
    let pair = normalize_pair (body ! "pair") in
    do
      readable (body ! "pair")
      require (is_supported_pair pair) (concat label ".pair unsupported")
      require (is_text (body ! "pair") (pair_text pair)) (concat label ".pair unsupported")
      require (is_text (body ! "direction") (pair_config pair).direction)
          (concat label ".direction unsupported")
      ok pair

unfoldable pub validate_pair_amount : Value → String → Pair → Result (Unit {0})
validate_pair_amount body label pair =
    let amount = get_amount_for_pair body pair false in
    do
      refuse (is_tao_pair pair && is_present (body ! "usdt_amount"))
          (concat label (concat ".usdt_amount not allowed for " (pair_text pair)))
      refuse (not (is_tao_pair pair) && is_present (body ! "tao_amount_atomic"))
          (concat label (concat ".tao_amount_atomic not allowed for " (pair_text pair)))
      readable (body ! (pair_config pair).amount_field)
      require (is_amount_string (str amount)) (
          concat label
            (concat "." (concat (pair_config pair).amount_field " must be a decimal string")))

-- The options of validateSwapEnvelope.
pub record Opts : Type 0 where
  pub min_settlement_refund_sec : Value
  pub max_settlement_refund_sec : Value

-- Number.isFinite(value) ? Number(value) : fallback
abbrev finite_or : Value → ℕ → Num
finite_or (num n) fallback = if is_finite n then n else nat fallback
finite_or _ fallback = nat fallback

-- One optional window in seconds: an integer within the two bounds.
unfoldable pub check_window : Value → String → String → Num → Num → Result (Unit {0})
check_window body label name low high = when (is_present (body ! name)) do
  require (is_uint (body ! name))
      (concat label (concat "." (concat name " must be an integer >= 0")))
  refuse (less (to_number (body ! name)) low)
      (concat label (concat "." (concat name (concat " must be >= " (num_text low)))))
  refuse (less high (to_number (body ! name)))
      (concat label (concat "." (concat name (concat " must be <= " (num_text high)))))

unfoldable pub tao_refund_constraints : Value → String → Pair → Num → Num → Result (Unit {0})
unfolding check_window
tao_refund_constraints body label pair low high = do
  refuse
      (is_defined (body ! "min_sol_refund_window_sec")
        || is_defined (body ! "max_sol_refund_window_sec"))
      (concat label (
        concat ".min_sol_refund_window_sec/max_sol_refund_window_sec not allowed for "
          (pair_text pair)))
  refuse (is_defined (body ! "sol_refund_window_sec") && str_eq label "quote")
      (concat label (concat ".sol_refund_window_sec not allowed for " (pair_text pair)))
  check_window body label (pair_config pair).quote_refund_field low high

unfoldable pub rfq_refund_range : Value → String → Result (Unit {0})
unfolding check_window
rfq_refund_range body label =
    let low = body ! "min_sol_refund_window_sec" in
    let high = body ! "max_sol_refund_window_sec" in
    do
      check_window body label "min_sol_refund_window_sec" (nat 3600) (nat 604800)
      check_window body label "max_sol_refund_window_sec" (nat 3600) (nat 604800)
      refuse (is_present low && is_present high && less (to_number high) (to_number low)) (
          concat label (
            concat ".min_sol_refund_window_sec must be <= "
              (concat label ".max_sol_refund_window_sec")))

unfoldable pub sol_refund_constraints : Value → String → Pair → Num → Num → Result (Unit {0})
unfolding check_window rfq_refund_range
sol_refund_constraints body label pair low high = do
  refuse (is_present (body ! "settlement_refund_after_sec"))
      (concat label (concat ".settlement_refund_after_sec not allowed for " (pair_text pair)))
  if str_eq label "rfq"
      then rfq_refund_range body label
      else if str_eq label "quote"
      then check_window body label (pair_config pair).quote_refund_field low high
      else done

unfoldable pub validate_refund_constraints : Value → String → Pair → Opts → Result (Unit {0})
unfolding tao_refund_constraints sol_refund_constraints
validate_refund_constraints body label pair opts =
    let low = finite_or opts.min_settlement_refund_sec 3600 in
    let high = finite_or opts.max_settlement_refund_sec 604800 in
    if is_tao_pair pair
    then tao_refund_constraints body label pair low high
    else sol_refund_constraints body label pair low high
