-- ===== src/Swap/Schema/Total.antt =====
-- Where validation (src/swap/schema.js) may raise an exception: at the calls of String() on fields of
-- a body that it has not yet validated.
use intercom_swap.Prelude.{true, ◌≡◌, ◌≢◌, arith}
use intercom_swap.Js.Value.{Value, ◌!◌, is_readable}
use intercom_swap.Js.Result.{throw}
use intercom_swap.Swap.Schema.Envelope.{validate_swap_envelope_shape}

-- The fields of a body that validation reads by String(): the pair, the two amounts, and the channel
-- that an invite names.
pub record IsReadable (body : Value) : Type 0 where
  pub pair : is_readable (body ! "pair") ≡ true
  pub usdt_amount : is_readable (body ! "usdt_amount") ≡ true
  pub tao_amount : is_readable (body ! "tao_amount_atomic") ≡ true
  pub channel : is_readable (body ! "invite" ! "payload" ! "channel") ≡ true

pub shape-ne-throw : (envelope : Value) → validate_swap_envelope_shape envelope ≢ throw
unfolding validate_swap_envelope_shape
shape-ne-throw envelope h = ground arith
