-- ===== src/Sdk/Json/Trees.antt =====
-- What `validateJson` accepts: exactly the values that unfold to a finite JSON tree,
-- sdk/typescript/src/client.ts.
use native.Mathlib.Nat.{zero-add, suc-add}
use mathlib.Core.Bool.{true≢false}
use farfield.Base.{
  ◌-◌, sym, ◌∙◌, ℕ, zero, suc, ◌+◌, ◌≤◌, ◌<◌, ◌≡◌, ◌↔◌, refl, inl, inr, Bool, true, false, ◌&&◌,
  List, [], ◌∷◌, ◌++◌, Option, none, some, Text, length, ltb, arith, Bool-cases,
}
use farfield.Sdk.Types.{Value, undefined, null, boolean, number, str, ref, opaque}
use farfield.Sdk.Json.{
  Heap, Object, array, plain, exotic, object_at, PathStep, index, key, Checked, valid, invalid,
  circular, mem, check_items, check_fields, check_object, validate_json, encode_check, is_finite,
}
use farfield.Sdk.Json.Fuel.{unvisited, unvisited-cons, unvisited-le, object_at-above}

module _ (good : Value → Bool) where
  all_items : List (Option Value) → Bool
  all_items [] = true
  all_items (none ∷ items) = false
  all_items (some v ∷ items) = good v && all_items items

  all_fields : List (Text × Value) → Bool
  all_fields [] = true
  all_fields ((k, v) ∷ fields) = good v && all_fields fields

  all_parts : Object → Bool
  all_parts (array items) = all_items items
  all_parts (plain fields) = all_fields fields
  all_parts exotic = false

-- The value, with every reference replaced by its object, is a JSON tree whose objects are nested
-- at most `depth` deep. Nothing here remembers what was visited.
pub is_tree : ℕ → Heap → Value → Bool
is_tree depth h undefined = false
is_tree depth h null = true
is_tree depth h (boolean b) = true
is_tree depth h (number n) = is_finite n
is_tree depth h (str s) = true
is_tree depth h (opaque type) = false
is_tree zero h (ref r) = false
is_tree (suc depth) h (ref r) = all_parts (is_tree depth h) (object_at h r)

module _ (check : List PathStep → Value → Checked) (good : Value → Bool) where
  module _ (sound : (path : List PathStep) (v : Value) → check path v ≡ valid → good v ≡ true) where
    items_sound :
        (path : List PathStep) (i : ℕ) (items : List (Option Value))
        → check_items check path i items ≡ valid
        → all_items good items ≡ true
    unfolding check_items all_items
    items_sound path i [] e = refl
    items_sound path i (none ∷ items) e = cc
    items_sound path i (some v ∷ items) e =
        ground (arith, sound (path ++ index i ∷ []) v, items_sound path (i + 1) items)

    fields_sound :
        (path : List PathStep) (fields : List (Text × Value))
        → check_fields check path fields ≡ valid
        → all_fields good fields ≡ true
    unfolding check_fields all_fields
    fields_sound path [] e = refl
    fields_sound path ((k, v) ∷ fields) e =
        ground (arith, sound (path ++ key k ∷ []) v, fields_sound path fields)

    parts_sound :
        (path : List PathStep) (o : Object)
        → check_object check path o ≡ valid
        → all_parts good o ≡ true
    unfolding check_object all_parts
    parts_sound path (array items) e = items_sound path 0 items e
    parts_sound path (plain fields) e = fields_sound path fields e
    parts_sound path exotic e = cc

  module _
      (accepts : (path : List PathStep) (v : Value) → good v ≡ true → check path v ≡ valid) where
    items_accepted :
        (path : List PathStep) (i : ℕ) (items : List (Option Value))
        → all_items good items ≡ true
        → check_items check path i items ≡ valid
    unfolding check_items all_items
    items_accepted path i [] e = refl
    items_accepted path i (none ∷ items) e = cc
    items_accepted path i (some v ∷ items) e =
        ground (arith, accepts (path ++ index i ∷ []) v, items_accepted path (i + 1) items)

    fields_accepted :
        (path : List PathStep) (fields : List (Text × Value))
        → all_fields good fields ≡ true
        → check_fields check path fields ≡ valid
    unfolding check_fields all_fields
    fields_accepted path [] e = refl
    fields_accepted path ((k, v) ∷ fields) e =
        ground (arith, accepts (path ++ key k ∷ []) v, fields_accepted path fields)

    parts_accepted :
        (path : List PathStep) (o : Object)
        → all_parts good o ≡ true
        → check_object check path o ≡ valid
    unfolding check_object all_parts
    parts_accepted path (array items) e = items_accepted path 0 items e
    parts_accepted path (plain fields) e = fields_accepted path fields e
    parts_accepted path exotic e = cc

validate_json-is_tree :
    (fuel : ℕ) (h : Heap) (ancestors : List ℕ) (path : List PathStep) (v : Value)
    → validate_json fuel h ancestors path v ≡ valid
    → is_tree fuel h v ≡ true
unfolding validate_json is_tree
validate_json-is_tree zero h as' path v e = cc
validate_json-is_tree (suc fuel) h as' path undefined e = cc
validate_json-is_tree (suc fuel) h as' path null e = refl
validate_json-is_tree (suc fuel) h as' path (boolean b) e = refl
validate_json-is_tree (suc fuel) h as' path (number n) e = ground arith
validate_json-is_tree (suc fuel) h as' path (str s) e = refl
validate_json-is_tree (suc fuel) h as' path (opaque t) e = cc
validate_json-is_tree (suc fuel) h as' path (ref r) e = elim (Bool-cases (mem r as')) [
  | inl old ↦ let bad : invalid path circular ≡ valid = rw (old, validate_json) at e in cc
  | inr new ↦
      parts_sound (validate_json fuel h (r ∷ as')) (is_tree fuel h)
        (validate_json-is_tree fuel h (r ∷ as')) path (object_at h r) (rw (new, validate_json) at e)
]

module _ (good better : Value → Bool) (more : (v : Value) → good v ≡ true → better v ≡ true) where
  all_items_mono :
      (items : List (Option Value)) → all_items good items ≡ true → all_items better items ≡ true
  unfolding all_items
  all_items_mono [] e = refl
  all_items_mono (none ∷ items) e = e
  all_items_mono (some v ∷ items) e = ground (arith, more v, all_items_mono items)

  all_fields_mono :
      (fields : List (Text × Value))
      → all_fields good fields ≡ true
      → all_fields better fields ≡ true
  unfolding all_fields
  all_fields_mono [] e = refl
  all_fields_mono ((k, v) ∷ fields) e = ground (arith, more v, all_fields_mono fields)

  all_parts_mono : (o : Object) → all_parts good o ≡ true → all_parts better o ≡ true
  unfolding all_parts
  all_parts_mono (array items) e = all_items_mono items e
  all_parts_mono (plain fields) e = all_fields_mono fields e
  all_parts_mono exotic e = e

is_tree-suc :
    (depth : ℕ) (h : Heap) (v : Value) → is_tree depth h v ≡ true → is_tree (suc depth) h v ≡ true
unfolding is_tree
is_tree-suc zero h undefined e = e
is_tree-suc depth h undefined e = e
is_tree-suc depth h null e = e
is_tree-suc depth h (boolean b) e = e
is_tree-suc depth h (number n) e = e
is_tree-suc depth h (str s) e = e
is_tree-suc depth h (opaque t) e = e
is_tree-suc zero h (ref r) e = cc
is_tree-suc (suc depth) h (ref r) e =
    all_parts_mono (is_tree depth h) (is_tree (suc depth) h) (is_tree-suc depth h) (object_at h r) e

is_tree_mono :
    (depth extra : ℕ) (h : Heap) (v : Value)
    → is_tree depth h v ≡ true
    → is_tree (extra + depth) h v ≡ true
is_tree_mono depth zero h v e = rw zero-add e
is_tree_mono depth (suc extra) h v e =
    rw (suc-add extra depth) (is_tree-suc (extra + depth) h v (is_tree_mono depth extra h v e))

-- Where a tree of some depth fails, so does every smaller one.
is_tree-anti :
    (small big : ℕ) (h : Heap) (v : Value)
    → small ≤ big
    → is_tree big h v ≡ false
    → is_tree small h v ≡ false
is_tree-anti small big h v le e = elim (Bool-cases (is_tree small h v)) [
  | inl fits ↦
      let grown = is_tree_mono small (big - small) h v fits in
      let same : big - small + small ≡ big = omega arith in ground arith
  | inr fails ↦ fails
]

-- The least depth at which an object is a tree.
least_depth :
    (depth : ℕ) (h : Heap) (r : ℕ)
    → is_tree depth h (ref r) ≡ true
    → (m : ℕ) × (suc m ≤ depth) × (is_tree m h (ref r) ≡ false) × (is_tree (suc m) h (ref r) ≡ true)
unfolding is_tree
least_depth zero h r e = cc
least_depth (suc depth) h r e = elim (Bool-cases (is_tree depth h (ref r))) [
  | inl earlier ↦
      let (m, le, below, at_m) = least_depth depth h r earlier in (m, omega arith, below, at_m)
  | inr first ↦ (depth, omega arith, first, e)
]

module _ (h : Heap) where
  -- No ancestor is a tree of that depth, so none can occur in one.
  abbrev Deeper : ℕ → List ℕ → Type 0
  Deeper depth as' = (a : ℕ) → mem a as' ≡ true → is_tree depth h (ref a) ≡ false

  Deeper-cons :
      (m depth r : ℕ) (as' : List ℕ)
      → m ≤ depth
      → Deeper depth as'
      → is_tree m h (ref r) ≡ false
      → Deeper m (r ∷ as')
  unfolding mem
  Deeper-cons m depth r as' le deep fails a e =
      ground (arith, is_tree-anti m depth h (ref a) le, deep a)

  Deeper-nil : (depth : ℕ) → Deeper depth []
  unfolding mem
  Deeper-nil depth a e = cc

  inside : (m r : ℕ) → is_tree (suc m) h (ref r) ≡ true → r < length h
  unfolding is_tree all_parts
  inside m r e = elim (Bool-cases (ltb r (length h))) [
    | inl lt ↦ ground arith
    | inr ge ↦
        let out = object_at-above h r (ground arith) in let bad : false ≡ true = rw out at e in cc
  ]

  validate_json-accepts :
      (fuel depth : ℕ) (ancestors : List ℕ) (path : List PathStep) (v : Value)
      → unvisited (length h) ancestors < fuel
      → Deeper depth ancestors
      → is_tree depth h v ≡ true
      → validate_json fuel h ancestors path v ≡ valid
  unfolding validate_json is_tree
  validate_json-accepts zero depth as' path v lt deep e = absurd (omega arith)
  validate_json-accepts (suc fuel) depth as' path undefined lt deep e = cc
  validate_json-accepts (suc fuel) depth as' path null lt deep e = refl
  validate_json-accepts (suc fuel) depth as' path (boolean b) lt deep e = refl
  validate_json-accepts (suc fuel) depth as' path (number n) lt deep e = ground arith
  validate_json-accepts (suc fuel) depth as' path (str s) lt deep e = refl
  validate_json-accepts (suc fuel) depth as' path (opaque t) lt deep e = cc
  validate_json-accepts (suc fuel) depth as' path (ref r) lt deep e =
      elim (Bool-cases (mem r as')) [
        | inl old ↦ absurd (true≢false (sym e ∙ deep r old))
        | inr new ↦
            let (m, le, below, at_m) = least_depth depth h r e in
            let room = unvisited-cons (length h) r as' (inside m r at_m) new in
            rw (new, validate_json)
              (parts_accepted (validate_json fuel h (r ∷ as')) (is_tree m h)
                (λ path' v'.
                  validate_json-accepts fuel m (r ∷ as') path' v' (omega arith)
                    (Deeper-cons m depth r as' (omega arith) deep below))
                path (object_at h r) at_m)
      ]

-- The check accepts exactly the values that unfold to a JSON tree of some finite depth: all
-- numbers finite, no `undefined`, function, symbol, bigint, array hole or object with a prototype
-- of its own, and no object within itself. Objects that are shared but not cyclic are accepted.
pub encode_check_iff :
    (h : Heap) (path : List PathStep) (v : Value)
    → (encode_check h path v ≡ valid) ↔ ((depth : ℕ) × (is_tree depth h v ≡ true))
unfolding encode_check
encode_check_iff h path v = (
  λ e. (length h + 1, validate_json-is_tree (length h + 1) h [] path v e),
  λ t.
      validate_json-accepts h (length h + 1) t.0 [] path v
        (omega (arith, unvisited-le (length h) [])) (Deeper-nil h t.0) t.1,
)
