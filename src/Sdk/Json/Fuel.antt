-- ===== src/Sdk/Json/Fuel.antt =====
-- `validateJson` ends: the fuel that `encode_check` gives is never used up,
-- sdk/typescript/src/client.ts.
use farfield.Base.{
  ℕ, zero, suc, ◌+◌, ◌≤◌, ◌<◌, ◌≡◌, ◌≢◌, refl, inl, inr, false, List, [], ◌∷◌, ◌++◌, Option, none,
  some, Text, length, ltb, if◌then◌else◌, arith, Bool-cases,
}
use farfield.Sdk.Types.{Value, undefined, null, boolean, number, str, ref, opaque}
use farfield.Sdk.Json.{
  Heap, Object, array, plain, exotic, object_at, PathStep, index, key, Checked, exhausted, mem,
  check_items, check_fields, check_object, validate_json, encode_check,
}

-- How many of the first `n` objects are no ancestors.
pub unvisited : ℕ → List ℕ → ℕ
unvisited zero as' = 0
unvisited (suc n) as' = (if mem n as' then 0 else 1) + unvisited n as'

unvisited-above : (n r : ℕ) (as' : List ℕ) → n ≤ r → unvisited n (r ∷ as') ≡ unvisited n as'
unfolding unvisited mem
unvisited-above zero r as' h = refl
unvisited-above (suc n) r as' h = ground (arith, unvisited-above n r as')

pub unvisited-cons :
    (n r : ℕ) (as' : List ℕ)
    → r < n
    → mem r as' ≡ false
    → unvisited n (r ∷ as') + 1 ≡ unvisited n as'
unfolding unvisited mem
unvisited-cons zero r as' h new = absurd (omega arith)
unvisited-cons (suc n) r as' h new = ground (arith, unvisited-cons n r as', unvisited-above n r as')

module _ (check : List PathStep → Value → Checked)
    (ends : (path : List PathStep) (v : Value) → check path v ≢ exhausted) where
  check_items-ends :
      (path : List PathStep) (i : ℕ) (items : List (Option Value))
      → check_items check path i items ≢ exhausted
  unfolding check_items
  check_items-ends path i [] = λ e. cc
  check_items-ends path i (none ∷ items) = λ e. cc
  check_items-ends path i (some v ∷ items) =
      ground (arith, ends (path ++ index i ∷ []) v, check_items-ends path (i + 1) items)

  check_fields-ends :
      (path : List PathStep) (fields : List (Text × Value))
      → check_fields check path fields ≢ exhausted
  unfolding check_fields
  check_fields-ends path [] = λ e. cc
  check_fields-ends path ((k, v) ∷ fields) =
      ground (arith, ends (path ++ key k ∷ []) v, check_fields-ends path fields)

  check_object-ends : (path : List PathStep) (o : Object) → check_object check path o ≢ exhausted
  unfolding check_object
  check_object-ends path (array items) = check_items-ends path 0 items
  check_object-ends path (plain fields) = check_fields-ends path fields
  check_object-ends path exotic = λ e. cc

pub object_at-above : (h : Heap) (r : ℕ) → length h ≤ r → object_at h r ≡ exotic
unfolding object_at
object_at-above [] r le = refl
object_at-above (o ∷ h) zero le = absurd (omega arith)
object_at-above (o ∷ h) (suc r) le = object_at-above h r (omega arith)

validate_json-ends :
    (fuel : ℕ) (h : Heap) (ancestors : List ℕ) (path : List PathStep) (v : Value)
    → unvisited (length h) ancestors < fuel
    → validate_json fuel h ancestors path v ≢ exhausted
unfolding validate_json check_object
validate_json-ends zero h as' path v lt = absurd (omega arith)
validate_json-ends (suc fuel) h as' path undefined lt = λ e. cc
validate_json-ends (suc fuel) h as' path null lt = λ e. cc
validate_json-ends (suc fuel) h as' path (boolean b) lt = λ e. cc
validate_json-ends (suc fuel) h as' path (number n) lt = ground arith
validate_json-ends (suc fuel) h as' path (str s) lt = λ e. cc
validate_json-ends (suc fuel) h as' path (opaque t) lt = λ e. cc
validate_json-ends (suc fuel) h as' path (ref r) lt = elim (Bool-cases (mem r as')) [
  | inl old ↦ rw (old, validate_json) (λ e. cc)
  | inr new ↦
      rw (new, validate_json)
        (elim (Bool-cases (ltb r (length h))) [
          | inl inside ↦
              check_object-ends _
                (λ path' v'.
                  validate_json-ends fuel h (r ∷ as') path' v'
                    (ground (arith, unvisited-cons (length h) r as')))
                path (object_at h r)
          | inr outside ↦ rw (object_at-above h r (ground arith), check_object) (λ e. cc)
        ])
]

pub unvisited-le : (n : ℕ) (as' : List ℕ) → unvisited n as' ≤ n
unfolding unvisited
unvisited-le zero as' = omega arith
unvisited-le (suc n) as' = ground (arith, unvisited-le n as')

-- On every heap, cyclic ones included, and every value the check ends with a verdict.
pub encode_check-ends :
    (h : Heap) (path : List PathStep) (v : Value) → encode_check h path v ≢ exhausted
unfolding encode_check
encode_check-ends h path v =
    validate_json-ends (length h + 1) h [] path v (omega (arith, unvisited-le (length h) []))
