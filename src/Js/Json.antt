-- ===== src/Js/Json.antt =====
-- JSON.parse(JSON.stringify(value)): what of a value JSON carries.
use intercom_swap.Prelude.{if◌then◌else◌}
use intercom_swap.Js.Number.{is_finite}
use intercom_swap.Js.Value.{
  Value, Items, Fields, undefined, null, bool, num, str, arr, obj, nil, cons, end, field,
}

unfoldable mutual
  -- `undefined` by itself is no JSON; an item of an array that is `undefined` becomes null.
  pub json_data : Value → Value
  json_data undefined = null
  json_data null = null
  json_data (bool b) = bool b
  json_data (num n) = if is_finite n then num n else null
  json_data (str s) = str s
  json_data (arr xs) = arr (json_items xs)
  json_data (obj fs) = obj (json_fields fs)

  pub json_items : Items → Items
  json_items nil = nil
  json_items (cons v xs) = cons (json_data v) (json_items xs)

  -- A field that is `undefined` is left out.
  pub json_fields : Fields → Fields
  json_fields end = end
  json_fields (field k undefined fs) = json_fields fs
  json_fields (field k v fs) = field k (json_data v) (json_fields fs)
