-- ===== src/Protocol/Stringify.antt =====
-- src/util/stableStringify.js: JSON with the keys of every object in order.
use Prim.Native.Char.{Char, code}
use Prim.Native.String.{compare, char_at}
use text.Mathlib.Text.{is_lt}
use intercom_swap.Prelude.{ℕ, ◌/◌, ◌%◌, String, ltb, ◌==◌, if◌then◌else◌}
use intercom_swap.Js.Text.{concat}
use intercom_swap.Js.Number.{num_text, is_finite}
use intercom_swap.Js.Value.{
  Value, undefined, null, bool, num, str, arr, obj, Items, nil, cons, Fields, end, field,
}

hex_char : ℕ → Char
hex_char n = char_at "0123456789abcdef" n

-- How JSON.stringify writes one character inside quotes.
escape : Char → String
unfolding hex_char
escape c =
    if code c == 34
    then "\\\""
    else if code c == 92
    then "\\\\"
    else if code c == 8
    then "\\b"
    else if code c == 12
    then "\\f"
    else if code c == 10
    then "\\n"
    else if code c == 13
    then "\\r"
    else if code c == 9
    then "\\t"
    else if ltb (code c) 32
    then concat "\\u00"
        (String.◌∷◌ (hex_char (code c / 16)) (String.◌∷◌ (hex_char (code c % 16)) ""))
    else String.◌∷◌ c ""

escaped : String → String
unfolding escape
escaped String.[] = ""
escaped (String.◌∷◌ c s) = concat (escape c) (escaped s)

-- JSON.stringify of a string
quoted : String → String
unfolding escaped
quoted s = concat "\"" (concat (escaped s) "\"")

-- Object.keys(value).sort(): one key, with its text, into the ordered rest.
insert_field : String → Value → Fields → Fields
insert_field k v end = field k v end
insert_field k v (field j w fs) =
    if is_lt (compare k j) then field k v (field j w fs) else field j w (insert_field k v fs)

pub sort_fields : Fields → Fields
unfolding insert_field
sort_fields end = end
sort_fields (field k v fs) = insert_field k v (sort_fields fs)

-- The texts of the values, under the same keys; they are strings that stand for themselves.
join_pairs : Fields → String
unfolding quoted
join_pairs end = ""
join_pairs (field k (str v) end) = concat (quoted k) (concat ":" v)
join_pairs (field k (str v) fs) =
    concat (concat (quoted k) (concat ":" v)) (concat "," (join_pairs fs))
join_pairs (field k v fs) = join_pairs fs

unfoldable mutual
  unfolding quoted num_text sort_fields join_pairs

  pub stable_stringify : Value → String
  stable_stringify undefined = "null"
  stable_stringify null = "null"
  stable_stringify (bool b) = if b then "true" else "false"
  stable_stringify (num n) = if is_finite n then num_text n else "null"
  stable_stringify (str s) = quoted s
  stable_stringify (arr xs) = concat "[" (concat (stringify_items xs) "]")
  stable_stringify (obj fs) =
      concat "{" (concat (join_pairs (sort_fields (stringify_fields fs))) "}")

  -- value.map(stableStringify).join(',')
  pub stringify_items : Items → String
  stringify_items nil = ""
  stringify_items (cons v nil) = stable_stringify v
  stringify_items (cons v xs) = concat (stable_stringify v) (concat "," (stringify_items xs))

  -- Each key with the text of its value.
  pub stringify_fields : Fields → Fields
  stringify_fields end = end
  stringify_fields (field k v fs) = field k (str (stable_stringify v)) (stringify_fields fs)
