-- ===== src/Ln/Bolt11/Layout.antt =====
-- The words of an invoice (decodeBolt11 of src/ln/bolt11.js), against the layout of BOLT 11.
use intercom_swap.Prelude.{
  ℕ, ◌+◌, ◌-◌, ◌≤◌, ◌<◌, ◌≡◌, refl, List, ◌++◌, String, Option, none, ◌↔◌, arith, sym,
}
use intercom_swap.Js.Result.{ok}
use intercom_swap.Ln.Bolt11.{
  Bech32, Decoded, Tags, take, drop, length, words_value, read_tags, parse_hrp_amount_msat,
  decode_words,
}
use intercom_swap.Ln.Bolt11.Words.{
  length-take, length-drop, length-concat, take-front, length-drop_exact, middle, middle_parts,
}
use intercom_swap.Ln.Bolt11.Fields.{Field, written, Sets, read_tags-Sets, Sets-read_tags}

-- The words are a timestamp of 7 words, whole fields and a signature of 104 words, and the invoice
-- says what the timestamp, the amount in front and the fields do; an hour is the default expiry.
pub record IsInvoice (bech32 : Bech32) (hrp : String) (words : List ℕ) (d : Decoded) : Type 0 where
  stamp : List ℕ
  fields : List Field
  signature : List ℕ
  layout : stamp ++ written fields ++ signature ≡ words
  stamp_length : length stamp ≡ 7
  signature_length : length signature ≡ 104
  some_time : 0 < words_value 0 stamp
  timestamp : d.timestamp_unix ≡ words_value 0 stamp
  amount : parse_hrp_amount_msat hrp ≡ ok (d.currency, d.amount_msat)
  sets :
      Sets bech32 fields
        (record { payment_hash = none; expiry = 3600 })
        (record { payment_hash = d.payment_hash_hex; expiry = d.expiry_seconds })
  same_hrp : d.hrp ≡ hrp
  expires_at : d.expires_at_unix ≡ d.timestamp_unix + d.expiry_seconds

abbrev before : Tags
before = record { payment_hash = none; expiry = 3600 }

module _ (bech32 : Bech32) (hrp : String) (words : List ℕ) (d : Decoded) where
  abbrev decoded : String × Option ℕ → Tags → Decoded
  decoded amount tags = record {
    hrp = hrp;
    currency = amount.0;
    amount_msat = amount.1;
    timestamp_unix = words_value 0 (take 7 words);
    payment_hash_hex = tags.payment_hash;
    expiry_seconds = tags.expiry;
    expires_at_unix = words_value 0 (take 7 words) + tags.expiry;
  }

  -- The steps of the decoder that give an invoice.
  parts :
      decode_words bech32 hrp words ≡ ok d
      → (amount : String × Option ℕ) × (parse_hrp_amount_msat hrp ≡ ok amount)
        × (111 ≤ length words)
        × (0 < words_value 0 (take 7 words))
        × (tags : Tags) × (read_tags
              (length words)
              bech32
              (drop 7 (take (length words - 104) words))
              before
            ≡ ok tags)
        × (decoded amount tags ≡ d)
  unfolding decode_words
  parts h = ground arith

  decoded-IsInvoice : decode_words bech32 hrp words ≡ ok d → IsInvoice bech32 hrp words d
  unfolding decode_words
  decoded-IsInvoice h =
      let (amount, read, long, some_time, tags, sets, same) = parts h in
      let k = length words - 104 in
      let short = length-drop 7 (take k words) in
      let (fields, fields_written, sets_tags) =
        read_tags-Sets bech32 (length words) (drop 7 (take k words)) before tags
          (omega (arith, length-take k words (omega arith))) sets in
      rw (sym same) (record {
        stamp = take 7 words;
        fields = fields;
        signature = drop k words;
        layout = rw fields_written (middle_parts 7 104 words (omega arith));
        stamp_length = length-take 7 words (omega arith);
        signature_length = omega (arith, length-drop_exact k words (omega arith));
        some_time = some_time;
        timestamp = refl;
        amount = read;
        sets = sets_tags;
        same_hrp = refl;
        expires_at = refl;
      })

  IsInvoice-decoded : IsInvoice bech32 hrp words d → decode_words bech32 hrp words ≡ ok d
  unfolding decode_words
  IsInvoice-decoded i =
      let stamp = take-front 7 i.stamp (written i.fields) i.signature i.stamp_length in
      let fields =
        middle 7 104 i.stamp (written i.fields) i.signature i.stamp_length i.signature_length in
      let total = length-concat (i.stamp ++ written i.fields) i.signature in
      let rest = length-concat i.stamp (written i.fields) in
      let read =
        Sets-read_tags bech32 (length (i.stamp ++ written i.fields ++ i.signature)) i.fields before
          (record { payment_hash = d.payment_hash_hex; expiry = d.expiry_seconds }) (omega arith)
          i.sets in
      let long : 111 ≤ length (i.stamp ++ written i.fields ++ i.signature) = omega arith in
      let told : record d {
        hrp = hrp;
        timestamp_unix = words_value 0 i.stamp;
        expires_at_unix = words_value 0 i.stamp + d.expiry_seconds;
      }
          ≡ d =
        rw (sym i.same_hrp) (rw (sym i.timestamp) (rw (sym i.expires_at) refl)) in
      rw (sym i.layout) (rw i.amount (rw stamp (rw fields (rw read (ground (arith, long, told))))))

-- The decoder reads an invoice from the words just if they are laid out as one, and just the invoice
-- that they tell: whatever the order and the number of the fields, none of them cut off or left over.
pub decode_words_iff :
    (bech32 : Bech32) (hrp : String) (words : List ℕ) (d : Decoded)
    → (decode_words bech32 hrp words ≡ ok d) ↔ IsInvoice bech32 hrp words d
decode_words_iff bech32 hrp words d =
    (decoded-IsInvoice bech32 hrp words d, IsInvoice-decoded bech32 hrp words d)
