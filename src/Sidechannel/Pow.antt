-- ===== src/Sidechannel/Pow.antt =====
-- features/sidechannel/index.js: the proof of work on a message.
use intercom_swap.Prelude.{
  ℕ, zero, suc, ◌+◌, ◌-◌, String, Bool, true, false, ◌&&◌, Option, some, none, List, [], ◌∷◌, ltb,
  leb, ◌==◌, if◌then◌else◌,
}
use intercom_swap.Js.Text.{codes}
use intercom_swap.Js.Number.{nat}
use intercom_swap.Js.Parse.{coalesce}
use intercom_swap.Js.Value.{Value, null, num, obj, field, end, ◌!◌}
use intercom_swap.Protocol.Stringify.{stable_stringify}
use intercom_swap.Sidechannel.Settings.{Settings}
use intercom_swap.Sidechannel.Keys.{Platform}
use intercom_swap.Sidechannel.Rules.{pow_required}

-- Number.parseInt of one hex digit
abbrev pub hex_value : ℕ → ℕ
hex_value c = if leb c b'9' then c - b'0' else if leb c b'F' then c - 55 else c - 87

-- The zero bits before the first one of a nibble that is not 0.
abbrev pub nibble_zeros : ℕ → ℕ
nibble_zeros n = if leb 8 n then 0 else if leb 4 n then 1 else if leb 2 n then 2 else 3

-- countLeadingZeroBits, of the digits of a hash
unfoldable pub count_leading_zero_bits : List ℕ → ℕ
count_leading_zero_bits [] = 0
count_leading_zero_bits (c ∷ cs) =
    let rest = count_leading_zero_bits cs in
    if hex_value c == 0 then 4 + rest else nibble_zeros (hex_value c)

-- _powBase
unfoldable pub pow_base : Value → Value → Value
unfolding coalesce ◌!◌
pow_base payload nonce = obj (
    field "id" (coalesce (payload ! "id") null) (
      field "channel" (coalesce (payload ! "channel") null) (
        field "from" (coalesce (payload ! "from") null) (
          field "origin" (coalesce (payload ! "origin") null) (
            field "message" (coalesce (payload ! "message") null)
              (field "ts" (coalesce (payload ! "ts") null) (field "nonce" nonce end)))))))

-- The bits that a nonce earns.
unfoldable pub work : Platform → Value → Value → ℕ
unfolding count_leading_zero_bits pow_base stable_stringify
work platform payload nonce =
    count_leading_zero_bits
      (codes (platform.crypto.sha256_hex (stable_stringify (pow_base payload nonce))))

-- The loop of _attachPow, from a nonce on; it has no bound, so fuel that runs out is none.
unfoldable pub find_nonce : Settings → Platform → Value → ℕ → ℕ → Option ℕ
find_nonce settings platform payload nonce zero = none
find_nonce settings platform payload nonce (suc fuel) =
    let rest = find_nonce settings platform payload (nonce + 1) fuel in
    if leb settings.pow_difficulty (work platform payload (num (nat nonce)))
    then some nonce
    else rest

-- _checkPow; `typeof undefined` is not 'number', so a missing `pow` needs no test of its own.
abbrev is_number : Value → Bool
is_number (num n) = true
is_number _ = false

unfoldable pub check_pow : Settings → Platform → Value → String → Bool
unfolding pow_required
check_pow settings platform payload channel =
    if pow_required settings channel
    then is_number (payload ! "pow" ! "nonce")
      && ltb 0 settings.pow_difficulty
      && leb settings.pow_difficulty (work platform payload (payload ! "pow" ! "nonce"))
    else true
