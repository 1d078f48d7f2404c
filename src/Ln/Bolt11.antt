-- ===== src/Ln/Bolt11.antt =====
-- src/ln/bolt11.js. A thrown Error is the `error` of a `Result`, with its message; `throw` is one
-- that the language raises. The bech32 and b4a packages are the record `Bech32`.
pub mod Words
pub mod Fields
pub mod Layout
use Prim.Native.Char.{Char, code}
use Prim.Native.String.{char_at}
use intercom_swap.Prelude.{
  ℕ, zero, suc, ◌+◌, ◌-◌, ◌*◌, ◌/◌, ◌%◌, String, Bool, true, false, not, ◌&&◌, ◌||◌, Option, none,
  some, List, [], ◌∷◌, ltb, leb, ◌==◌, if◌then◌else◌, str_eq,
}
use intercom_swap.Js.Text.{concat, trim, to_lower, is_empty, codes, is_digit, digits_value}
use intercom_swap.Js.Number.{Num, nat, is_finite, num_eq}
use intercom_swap.Js.Value.{
  Value, str, ◌!◌, is_present, truthy, to_text, to_number, big_int_of_text,
}
use intercom_swap.Js.Result.{Result, ok, error, throw, require, refuse, when, done, ◌>>=◌, ◌>>◌}

-- bech32.decode(text, limit), bech32.fromWords and b4a's bytes to hex.
pub record Bech32 : Type 0 where
  pub decode : String → ℕ → Option (String × List ℕ)
  pub from_words : List ℕ → Result (List ℕ)
  pub to_hex : List ℕ → String

pub record Decoded : Type 0 where
  pub hrp : String
  pub currency : String
  pub amount_msat : Option ℕ
  pub timestamp_unix : ℕ
  pub payment_hash_hex : Option String
  pub expiry_seconds : ℕ
  pub expires_at_unix : ℕ

-- wordsToBigInt
unfoldable pub words_value : ℕ → List ℕ → ℕ
words_value n [] = n
words_value n (w ∷ ws) = words_value (n * 32 + w) ws

-- The text before the first digit, and the rest.
unfoldable pub split_at_digit : String → String × String
split_at_digit String.[] = ("", "")
split_at_digit (String.◌∷◌ c s) =
    let (before, after) = split_at_digit s in
    if is_digit (code c) then ("", String.◌∷◌ c s) else (String.◌∷◌ c before, after)

-- The digits in front, and the rest.
unfoldable pub split_digits : List ℕ → List ℕ × List ℕ
split_digits [] = ([], [])
split_digits (c ∷ cs) =
    let (before, after) = split_digits cs in
    if is_digit c then (c ∷ before, after) else ([], c ∷ cs)

-- The multipliers of an amount, in msat.
unfoldable pub scaled_amount : ℕ → List ℕ → Result ℕ
scaled_amount digits [] = ok (digits * 100000000000)
scaled_amount digits (c ∷ []) =
    if c == b'm'
    then ok (digits * 100000000)
    else if c == b'u'
    then ok (digits * 100000)
    else if c == b'n'
    then ok (digits * 100)
    else if c == b'p'
    then (if digits % 10 == 0
        then ok (digits / 10)
        else error "Invalid pico amount (not a whole millisat)")
    else error "Invalid amount in HRP"
scaled_amount digits _ = error "Invalid amount in HRP"

unfoldable pub parse_amount : List ℕ → Result ℕ
parse_amount cs = elim (split_digits cs).0 [
  | [] ↦ error "Invalid amount in HRP"
  | d ∷ ds ↦ scaled_amount (digits_value 0 (d ∷ ds)) (split_digits cs).1
]

after_ln : String → Result String
after_ln (String.◌∷◌ l (String.◌∷◌ n s)) =
    if code l == b'l' && code n == b'n' then ok s else error "Invalid HRP"
after_ln _ = error "Invalid HRP"

-- parseHrpAmountMsat
unfoldable pub parse_hrp_amount_msat : String → Result (String × Option ℕ)
unfolding after_ln
parse_hrp_amount_msat hrp = do
  rest ← after_ln hrp
  let (currency, amount) = split_at_digit rest
  if is_empty amount
      then ok (currency, none)
      else (do n ← parse_amount (codes amount); ok (currency, some n))

unfoldable pub take : ℕ → List ℕ → List ℕ
take zero ws = []
take (suc n) [] = []
take (suc n) (w ∷ ws) = w ∷ take n ws

unfoldable pub drop : ℕ → List ℕ → List ℕ
drop zero ws = ws
drop (suc n) [] = []
drop (suc n) (w ∷ ws) = drop n ws

unfoldable pub length : List ℕ → ℕ
length [] = 0
length (w ∷ ws) = suc (length ws)

abbrev pub max_safe_integer : ℕ
max_safe_integer = 9007199254740991

-- What the tagged fields have set so far.
pub record Tags : Type 0 where
  pub payment_hash : Option String
  pub expiry : ℕ

-- The letter of a five-bit word (decodeTagChar)
abbrev pub charset : String
charset = "qpzry9x8gf2tvdw0s3jn54khce6mua7l"

-- One tagged field: p is the payment hash and x the expiry.
unfoldable pub read_tag : Bech32 → Char → List ℕ → Tags → Result Tags
read_tag bech32 tag words tags =
    if code tag == b'p'
    then (do
      bytes ← bech32.from_words words
      ok (record tags { payment_hash = some (bech32.to_hex bytes) }))
    else if code tag == b'x'
    then (do
      refuse (ltb max_safe_integer (words_value 0 words)) "Expiry too large"
      ok (record tags { expiry = words_value 0 words }))
    else ok tags

-- The loop over the fields, on the words between the timestamp and the signature. Each round
-- takes three words at least, so their number is fuel enough.
unfoldable pub read_tags : ℕ → Bech32 → List ℕ → Tags → Result Tags
read_tags zero bech32 words tags = ok tags
read_tags (suc fuel) bech32 [] tags = ok tags
read_tags (suc fuel) bech32 (tag ∷ high ∷ low ∷ rest) tags =
    let size = high * 32 + low in
    do
      require (ltb tag 32) "Invalid tag"
      refuse (ltb (length rest) size) "Truncated tagged field data"
      tags' ← read_tag bech32 (char_at charset tag) (take size rest) tags
      read_tags fuel bech32 (drop size rest) tags'
read_tags (suc fuel) bech32 words tags = error "Truncated tagged field header"

unfoldable pub decode_words : Bech32 → String → List ℕ → Result Decoded
decode_words bech32 hrp words = do
  amount ← parse_hrp_amount_msat hrp
  refuse (ltb (length words) 111) "Invoice too short"
  let timestamp = words_value 0 (take 7 words)
  refuse (timestamp == 0) "Invalid invoice timestamp"
  tags ←
      read_tags (length words) bech32 (drop 7 (take (length words - 104) words))
        (record { payment_hash = none; expiry = 3600 })
  ok (record {
    hrp = hrp;
    currency = amount.0;
    amount_msat = amount.1;
    timestamp_unix = timestamp;
    payment_hash_hex = tags.payment_hash;
    expiry_seconds = tags.expiry;
    expires_at_unix = timestamp + tags.expiry;
  })

is_blank : Value → Bool
is_blank (str s) = is_empty (trim s)
is_blank _ = true

-- decodeBolt11
unfoldable pub decode_bolt11 : Bech32 → Value → Result Decoded
unfolding is_blank
decode_bolt11 bech32 bolt11 = do
  refuse (is_blank bolt11) "bolt11 is required"
  elim (bech32.decode (to_lower (trim (to_text bolt11))) 1500) [
    | none ↦ error "Invalid bech32 invoice"
    | some parts ↦ decode_words bech32 parts.0 parts.1
  ]

-- The hash of the body, where both are there, is the one of the invoice.
abbrev same_hash : Value → Option String → Bool
same_hash want none = true
same_hash want (some got) =
    not (truthy want)
    || is_empty (to_lower (trim (to_text want)))
    || is_empty got
    || str_eq got (to_lower (trim (to_text want)))

unfoldable pub same_amount : Value → Option ℕ → Result (Unit {0})
same_amount want none = done
same_amount want (some got) = when (is_present want) (elim (big_int_of_text (to_text want)) [
  | none ↦ throw
  | some n ↦ require (num_eq (nat got) n) "bolt11 amount mismatch"
])

-- verifyBolt11MatchesInvoiceBody
unfoldable pub verify_bolt11_matches_invoice_body : Bech32 → Value → Result Decoded
verify_bolt11_matches_invoice_body bech32 body = do
  decoded ← decode_bolt11 bech32 (body ! "bolt11")
  require (same_hash (body ! "payment_hash_hex") decoded.payment_hash_hex)
      "bolt11 payment_hash mismatch"
  same_amount (body ! "amount_msat") decoded.amount_msat
  when (is_present (body ! "expires_at_unix")) do
    require (is_finite (to_number (body ! "expires_at_unix"))) "invalid expires_at_unix"
    require (num_eq (nat decoded.expires_at_unix) (to_number (body ! "expires_at_unix")))
        "bolt11 expires_at_unix mismatch"
  ok decoded
