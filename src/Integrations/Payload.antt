-- ===== src/Integrations/Payload.antt =====
-- Values of unknown shape and `jsonValue`, `stringValue`, `payloadValue`,
-- sdk/typescript/src/integrations/openai-agents.ts. A payload is a tree: it comes from `toJSON()`
-- or from a hook's input and holds no cycles.
pub mod Laws
use Prim.Native.Nat.{◌/◌, ◌%◌}
use farfield.Base.{
  ℕ, ◌^◌, Bool, true, false, not, ◌&&◌, List, [], ◌∷◌, Option, none, some, Text, text, text_eq,
  ◌==◌, if◌then◌else◌,
}
use farfield.Sdk.Types.{Number}
use farfield.Sdk.Json.{is_finite}

mutual
  -- `opaque` is what is neither JSON nor an object, with the text that `String` makes of it.
  pub data Json : Type 0 where
    null : Json
    boolean : Bool → Json
    number : Number → Json
    str : Text → Json
    arr : Items → Json
    obj : Fields → Json
    opaque : Text → Json

  pub data Items : Type 0 where
    nil : Items
    cons : Json → Items → Items

  pub data Fields : Type 0 where
    end : Fields
    field : Text → Json → Fields → Fields

-- `String(n)` of a number that is not finite.
unfoldable pub non_finite_text : Number → Text
non_finite_text n =
    if not (n.bits % 2 ^ 52 == 0)
    then text "NaN"
    else if n.bits / 2 ^ 63 == 0
    then text "Infinity"
    else text "-Infinity"

abbrev number_value : Number → Json
number_value n = if is_finite n then number n else str (non_finite_text n)

-- `jsonValue`
unfoldable mutual
  pub json_value : Json → Json
  json_value null = null
  json_value (boolean b) = boolean b
  json_value (number n) = number_value n
  json_value (str s) = str s
  json_value (arr items) = arr (json_items items)
  json_value (obj fields) = obj (json_fields fields)
  json_value (opaque shown) = str shown

  pub json_items : Items → Items
  json_items nil = nil
  json_items (cons v items) = cons (json_value v) (json_items items)

  pub json_fields : Fields → Fields
  json_fields end = end
  json_fields (field k v fields) = field k (json_value v) (json_fields fields)

-- `payload.key`
unfoldable pub prop : Text → Fields → Option Json
prop key end = none
prop key (field k v fields) = if text_eq k key then some v else prop key fields

-- `stringValue`
unfoldable pub string_value : Option Json → Option Text
string_value (some (str (c ∷ s))) = some (c ∷ s)
string_value _ = none

-- `payloadValue`
unfoldable pub payload_value : Option Json → Fields
payload_value (some (obj fields)) = fields
payload_value _ = end

unfoldable pub is_nan : Number → Bool
is_nan n = not (is_finite n) && not (n.bits % 2 ^ 52 == 0)

-- A value as a condition. Zero is the double whose bits, but for the sign, are all 0; NaN is no
-- condition either.
unfoldable pub truthy : Option Json → Bool
truthy none = false
truthy (some null) = false
truthy (some (boolean b)) = b
truthy (some (number n)) = not (n.bits % 2 ^ 63 == 0) && not (is_nan n)
truthy (some (str [])) = false
truthy (some (str (_ ∷ _))) = true
truthy (some _) = true
