-- ===== src/Integrations/Payload/Laws.antt =====
-- What `jsonValue` makes, sdk/typescript/src/integrations/openai-agents.ts.
use farfield.Base.{◌≡◌, refl, ap, Bool, true, false, ◌&&◌, arith}
use farfield.Sdk.Json.{is_finite}
use farfield.Integrations.Payload.{
  Json, null, boolean, number, str, arr, obj, opaque, Items, nil, cons, Fields, end, field,
  json_value, json_items, json_fields,
}

-- JSON proper: finite numbers, and nothing but JSON inside.
mutual
  pub is_json : Json → Bool
  is_json null = true
  is_json (boolean b) = true
  is_json (number n) = is_finite n
  is_json (str s) = true
  is_json (arr items) = items_json items
  is_json (obj fields) = fields_json fields
  is_json (opaque shown) = false

  pub items_json : Items → Bool
  items_json nil = true
  items_json (cons v items) = is_json v && items_json items

  pub fields_json : Fields → Bool
  fields_json end = true
  fields_json (field k v fields) = is_json v && fields_json fields

mutual
  unfolding is_json json_value

  value-is_json : (v : Json) → is_json (json_value v) ≡ true
  value-is_json null = refl
  value-is_json (boolean b) = refl
  value-is_json (number n) = ground arith
  value-is_json (str s) = refl
  value-is_json (arr items) = items-is_json items
  value-is_json (obj fields) = fields-is_json fields
  value-is_json (opaque shown) = refl

  items-is_json : (items : Items) → items_json (json_items items) ≡ true
  items-is_json nil = refl
  items-is_json (cons v items) = ground (arith, value-is_json v, items-is_json items)

  fields-is_json : (fields : Fields) → fields_json (json_fields fields) ≡ true
  fields-is_json end = refl
  fields-is_json (field k v fields) = ground (arith, value-is_json v, fields-is_json fields)

mutual
  unfolding is_json json_value

  value_same : (v : Json) → is_json v ≡ true → json_value v ≡ v
  value_same null h = refl
  value_same (boolean b) h = refl
  value_same (number n) h = ground arith
  value_same (str s) h = refl
  value_same (arr items) h = ap arr (items_same items h)
  value_same (obj fields) h = ap obj (fields_same fields h)
  value_same (opaque shown) h = cc

  items_same : (items : Items) → items_json items ≡ true → json_items items ≡ items
  items_same nil h = refl
  items_same (cons v items) h = ground (arith, value_same v, items_same items)

  fields_same : (fields : Fields) → fields_json fields ≡ true → json_fields fields ≡ fields
  fields_same end h = refl
  fields_same (field k v fields) h = ground (arith, value_same v, fields_same fields)

-- `jsonValue` makes JSON of every payload, and changes no payload that is JSON.
pub json_value-is_json :
    (v : Json) → (is_json (json_value v) ≡ true) × (is_json v ≡ true → json_value v ≡ v)
json_value-is_json v = (value-is_json v, value_same v)
