-- ===== src/Sdk/Json.antt =====
-- `encode` and `validateJson`, sdk/typescript/src/client.ts. The objects that a value refers to
-- stand in a heap, so that they can be shared and can refer to themselves. A path in an error is
-- kept as its steps; the source writes them as `$.key[index]`.
pub mod Fuel
pub mod Trees
mod Tests
use Prim.Native.Nat.{◌/◌, ◌%◌}
use farfield.Base.{
  ℕ, zero, suc, ◌+◌, ◌^◌, Bool, true, false, not, ◌||◌, List, [], ◌∷◌, ◌++◌, Option, none, some,
  Text, length, get_elem?, ◌==◌, if◌then◌else◌,
}
use farfield.Sdk.Types.{Number, Value, undefined, null, boolean, number, str, ref, opaque}

-- An array may have holes; an object whose prototype is not `Object.prototype` or null is exotic.
pub data Object : Type 0 where
  array : List (Option Value) → Object
  plain : List (Text × Value) → Object
  exotic : Object

abbrev pub Heap : Type 0
Heap = List Object

-- A reference out of the heap does not occur; it is read as an exotic object.
unfoldable pub object_at : Heap → ℕ → Object
object_at [] r = exotic
object_at (o ∷ h) zero = o
object_at (o ∷ h) (suc r) = object_at h r

-- `Number.isFinite`: the eleven exponent bits of a double are not all ones.
unfoldable pub is_finite : Number → Bool
is_finite n = not ((n.bits / 2 ^ 52) % 2 ^ 11 == 2047)

pub data PathStep : Type 0 where
  index : ℕ → PathStep
  key : Text → PathStep

pub data Defect : Type 0 where
  non_finite unsupported circular sparse not_plain : Defect

pub data Checked : Type 0 where
  valid exhausted : Checked
  invalid : List PathStep → Defect → Checked

-- The next check runs only if the one before it passed.
infixl 5 ◌andthen◌
abbrev pub ◌andthen◌ : Checked → Checked → Checked
valid andthen c = c
exhausted andthen c = exhausted
invalid path d andthen c = invalid path d

unfoldable pub mem : ℕ → List ℕ → Bool
mem r [] = false
mem r (a ∷ as') = r == a || mem r as'

module _ (check : List PathStep → Value → Checked) (path : List PathStep) where
  -- The loop over an array, from the element `i` on.
  unfoldable pub check_items : ℕ → List (Option Value) → Checked
  check_items i [] = valid
  check_items i (none ∷ items) = invalid (path ++ index i ∷ []) sparse
  check_items i (some v ∷ items) = check (path ++ index i ∷ []) v andthen check_items (i + 1) items

  -- The loop over the entries of an object.
  unfoldable pub check_fields : List (Text × Value) → Checked
  check_fields [] = valid
  check_fields ((k, v) ∷ fields) = check (path ++ key k ∷ []) v andthen check_fields fields

  unfoldable pub check_object : Object → Checked
  check_object (array items) = check_items 0 items
  check_object (plain fields) = check_fields fields
  check_object exotic = invalid path not_plain

-- `validateJson` with fuel for the calls in one another. `ancestors` is the Set at the call; the
-- `finally` takes the object out again, so that a sibling starts from the same Set.
unfoldable pub validate_json : ℕ → Heap → List ℕ → List PathStep → Value → Checked
validate_json zero h ancestors path v = exhausted
validate_json (suc fuel) h ancestors path undefined = invalid path unsupported
validate_json (suc fuel) h ancestors path null = valid
validate_json (suc fuel) h ancestors path (boolean b) = valid
validate_json (suc fuel) h ancestors path (number n) =
    if is_finite n then valid else invalid path non_finite
validate_json (suc fuel) h ancestors path (str s) = valid
validate_json (suc fuel) h ancestors path (opaque type) = invalid path unsupported
validate_json (suc fuel) h ancestors path (ref r) = elim (mem r ancestors) [
  | true ↦ invalid path circular
  | false ↦ check_object (validate_json fuel h (r ∷ ancestors)) path (object_at h r)
]

-- The check that `encode` makes of the value at a path. Each call in another adds an object of the
-- heap to `ancestors`, so the heap's size bounds their number.
unfoldable pub encode_check : Heap → List PathStep → Value → Checked
encode_check h path v = validate_json (length h + 1) h [] path v
