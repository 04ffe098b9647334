-- ===== src/Base/Sorting.antt =====
-- `sort` of an array of strings, by code units.
use mathlib.Core.Path.{◌≡◌, refl}
use mathlib.Core.Bool.{Bool, true, false, ◌&&◌, ◌||◌}
use mathlib.Core.List.{List, [], ◌∷◌}
use native.Mathlib.Omega.{arith}
use farfield.Base.Tests.{ltb, ◌==◌, if◌then◌else◌}
use farfield.Base.Strings.{Text}

-- `s <= t`
unfoldable pub text_le : Text → Text → Bool
text_le [] t = true
text_le (a ∷ s) [] = false
text_le (a ∷ s) (b ∷ t) = ltb a b || (a == b && text_le s t)

unfoldable pub insert_text : Text → List Text → List Text
insert_text s [] = s ∷ []
insert_text s (t ∷ ts) = if text_le s t then s ∷ t ∷ ts else t ∷ insert_text s ts

unfoldable pub sort_texts : List Text → List Text
sort_texts [] = []
sort_texts (s ∷ ts) = insert_text s (sort_texts ts)

text_le_antisym : (s t : Text) → text_le s t ≡ true → text_le t s ≡ true → s ≡ t
unfolding text_le
text_le_antisym [] [] h k = refl
text_le_antisym [] (b ∷ t) h k = cc
text_le_antisym (a ∷ s) [] h k = cc
text_le_antisym (a ∷ s) (b ∷ t) h k = ground (arith, text_le_antisym s t)

text_le_total : (s t : Text) → text_le s t ≡ false → text_le t s ≡ true
unfolding text_le
text_le_total [] t h = cc
text_le_total (a ∷ s) [] h = refl
text_le_total (a ∷ s) (b ∷ t) h = ground (arith, text_le_total s t)

text_le_trans : (s t u : Text) → text_le s t ≡ true → text_le t u ≡ true → text_le s u ≡ true
unfolding text_le
text_le_trans [] t u h k = refl
text_le_trans (a ∷ s) [] u h k = cc
text_le_trans (a ∷ s) (b ∷ t) [] h k = cc
text_le_trans (a ∷ s) (b ∷ t) (c ∷ u) h k = ground (arith, text_le_trans s t u)

-- The order in which two strings are put in makes no difference.
pub insert_text_comm :
    (s t : Text) (ts : List Text)
    → insert_text s (insert_text t ts) ≡ insert_text t (insert_text s ts)
unfolding insert_text
insert_text_comm s t [] = ground (arith, text_le_antisym s t, text_le_total s t)
insert_text_comm s t (u ∷ ts) = ground (
  arith,
  text_le_antisym s t,
  text_le_total s t,
  text_le_total s u,
  text_le_total t u,
  text_le_trans s t u,
  text_le_trans t s u,
  insert_text_comm s t ts,
)
