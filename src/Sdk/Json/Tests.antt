-- ===== src/Sdk/Json/Tests.antt =====
-- Shared, cyclic and sparse values, sdk/typescript/src/client.ts.
use farfield.Base.{ℕ, ◌≡◌, ◌≢◌, ◌↔◌, refl, true, [], ◌∷◌, none, some, text}
use farfield.Sdk.Types.{null, number, ref}
use farfield.Sdk.Json.{
  Heap, array, plain, valid, exhausted, invalid, circular, sparse, index, key, encode_check,
  validate_json, check_items, check_fields, check_object, object_at, mem, non_finite, is_finite,
}
use farfield.Sdk.Json.Fuel.{encode_check-ends}
use farfield.Sdk.Json.Trees.{is_tree, encode_check_iff}

-- Object 0 holds object 1 twice.
abbrev shared : Heap
shared = array (some (ref 1) ∷ some (ref 1) ∷ []) ∷ array (some null ∷ []) ∷ []

-- Objects 0 and 1 hold one another.
abbrev knot : Heap
knot = array (some (ref 1) ∷ []) ∷ plain ((text "up", ref 0) ∷ []) ∷ []

json_tests :
    (encode_check shared [] (ref 0) ≡ valid)
    × (encode_check knot [] (ref 0) ≡ invalid (index 0 ∷ key (text "up") ∷ []) circular)
    × (encode_check (array (none ∷ []) ∷ []) [] (ref 0) ≡ invalid (index 0 ∷ []) sparse)
    × (encode_check [] [] (number (record { bits = 0x7ff0000000000000 })) ≡ invalid [] non_finite)
    × (encode_check [] [] (number (record { bits = 0x3ff0000000000000 })) ≡ valid)
unfolding encode_check validate_json check_items check_fields check_object object_at mem is_finite
json_tests = (refl, refl, refl, refl, refl)

encode_check-ends_example : encode_check knot [] (ref 0) ≢ exhausted
encode_check-ends_example = encode_check-ends knot [] (ref 0)

encode_check_iff_example :
    (encode_check shared [] (ref 0) ≡ valid) ↔ ((depth : ℕ) × (is_tree depth shared (ref 0) ≡ true))
encode_check_iff_example = encode_check_iff shared [] (ref 0)
