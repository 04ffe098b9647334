-- ===== src/Base/Map.antt =====
-- A `Map` from strings, and a plain object of string keys: entries in insertion order. Setting a
-- key that is there keeps its place, as in JavaScript.
use mathlib.Core.Path.{◌≡◌, refl, ◌∙◌}
use mathlib.Core.Logic.{inl, inr}
use mathlib.Core.Option.{Option, none, some}
use mathlib.Core.List.{List, [], ◌∷◌}
use native.Mathlib.Omega.{arith}
use farfield.Base.Tests.{if◌then◌else◌, or_else, Bool-cases}
use farfield.Base.Strings.{Text, text_eq, text_eq_iff}

module _ {ℓ} {V : Type ℓ} where
  unfoldable pub get : Text → List (Text × V) → Option V
  get k [] = none
  get k ((j, v) ∷ m) = if text_eq j k then some v else get k m

  unfoldable pub put : Text → V → List (Text × V) → List (Text × V)
  put k v [] = (k, v) ∷ []
  put k v ((j, w) ∷ m) = if text_eq j k then (j, v) ∷ m else (j, w) ∷ put k v m

  unfoldable pub delete : Text → List (Text × V) → List (Text × V)
  delete k [] = []
  delete k ((j, w) ∷ m) = let rest = delete k m in if text_eq j k then rest else (j, w) ∷ rest

  -- `{ ...m, ...n }`
  unfoldable pub spread : List (Text × V) → List (Text × V) → List (Text × V)
  unfolding put
  spread m [] = m
  spread m ((k, v) ∷ n) = spread (put k v m) n

  pub get-put :
      (k j : Text) (v : V) (m : List (Text × V))
      → get j (put k v m) ≡ (if text_eq k j then some v else get j m)
  unfolding get put
  get-put k j v [] = refl
  get-put k j v ((i, w) ∷ m) =
      ground (arith, text_eq_iff k j, text_eq_iff i k, text_eq_iff i j, get-put k j v m)

  pub get-delete :
      (k j : Text) (m : List (Text × V))
      → get j (delete k m) ≡ (if text_eq k j then none else get j m)
  unfolding get delete
  get-delete k j [] = ground arith
  get-delete k j ((i, w) ∷ m) =
      ground (arith, text_eq_iff k j, text_eq_iff i k, text_eq_iff i j, get-delete k j m)

  -- No key has two entries.
  abbrev pub DistinctKeys : List (Text × V) → Type ℓ
  DistinctKeys [] = Unit
  DistinctKeys ((k, v) ∷ m) = (get k m ≡ none) × DistinctKeys m

  pub put-DistinctKeys :
      (k : Text) (v : V) (m : List (Text × V)) → DistinctKeys m → DistinctKeys (put k v m)
  unfolding put get
  put-DistinctKeys k v [] d = (refl, tt)
  put-DistinctKeys k v ((j, w) ∷ m) (n, d) = elim (Bool-cases (text_eq j k)) [
    | inl same ↦ rw same (n, d)
    | inr other ↦ rw other (
      get-put k j v m ∙ ground (arith, text_eq_iff k j, text_eq_iff j k),
      put-DistinctKeys k v m d,
    )
  ]

  -- The second object's entries win.
  pub get-spread :
      (j : Text) (m n : List (Text × V))
      → DistinctKeys n
      → get j (spread m n) ≡ or_else (get j n) (get j m)
  unfolding spread get
  get-spread j m [] d = refl
  get-spread j m ((k, v) ∷ n) (new, d) =
      get-spread j (put k v m) n d ∙ ground (arith, get-put k j v m, text_eq_iff k j)

  pub spread-DistinctKeys : (m n : List (Text × V)) → DistinctKeys m → DistinctKeys (spread m n)
  unfolding spread
  spread-DistinctKeys m [] d = d
  spread-DistinctKeys m ((k, v) ∷ n) d =
      spread-DistinctKeys (put k v m) n (put-DistinctKeys k v m d)
