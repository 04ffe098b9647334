-- ===== src/Ui/Filter/Context.antt =====
-- The indexes around the matches, server/ui/src/lib/timeline-filter.ts.
use farfield.Base.{
  ℕ, zero, suc, ◌+◌, ◌-◌, ◌==◌, leb, ltb, ◌≡◌, ◌∙◌, Bool, true, ◌&&◌, ◌||◌, List, [], ◌∷◌, ◌++◌,
  any, arith, Bool-cases, inl, inr,
}
use farfield.Ui.Operations.{has_index}
use farfield.Ui.Filter.{add_index, add_around, add_contexts, indexes_for_context, with_context}

has_index-append :
    (set : List ℕ) (j i : ℕ) → has_index (set ++ j ∷ []) i ≡ (has_index set i || j == i)
unfolding has_index
has_index-append [] j i = ground arith
has_index-append (k ∷ set) j i = ground (arith, has_index-append set j i)

has_index-add :
    (set : List ℕ) (j i : ℕ) → has_index (add_index j set) i ≡ (has_index set i || j == i)
has_index-add set j i = elim (Bool-cases (has_index set j)) [
  | inr new ↦ rw new (has_index-append set j i)
  | inl old ↦ rw old (elim (Bool-cases (j == i)) [
    | inl same ↦ ground (arith, has_same same old)
    | inr other ↦ ground arith
  ])
]
  where
    has_same : (j == i) ≡ true → has_index set j ≡ true → has_index set i ≡ true
    has_same e h = let e' : j ≡ i = ground arith in ground arith

has_index-around :
    (turns n stop current : ℕ) (set : List ℕ) (i : ℕ)
    → has_index (add_around turns n stop current set) i
      ≡ (has_index set i || (leb current i && leb i stop && ltb i n && ltb i (current + turns)))
unfolding add_around
has_index-around zero n stop current set i = ground arith
has_index-around (suc turns) n stop current set i =
    elim (Bool-cases (leb current stop && ltb current n)) [
      | inr ends ↦ rw (ends, add_around) (ground arith)
      | inl on ↦
          rw (on, add_around)
            (has_index-around turns n stop (suc current) (add_index current set) i
              ∙ ground (arith, has_index-add set current i))
    ]

-- An index is a match or a neighbour of a match.
abbrev pub is_near : ℕ → ℕ → Bool
is_near i m = leb m (suc i) && leb i (suc m)

has_index-contexts :
    (n : ℕ) (matches set : List ℕ) (i : ℕ)
    → has_index (add_contexts n matches set) i
      ≡ (has_index set i || (ltb i n && any (is_near i) matches))
unfolding add_contexts
has_index-contexts n [] set i = ground arith
has_index-contexts n (m ∷ matches) set i =
    has_index-contexts n matches (add_around 3 n (suc m) (m - 1) set) i
    ∙ ground (arith, has_index-around 3 n (suc m) (m - 1) set i)

-- With their context, exactly those entries of the timeline are shown that match or stand next to a
-- match; no index lies outside the timeline.
pub indexes_for_context-near :
    (n : ℕ) (matches : List ℕ) (i : ℕ)
    → has_index (indexes_for_context n matches with_context) i
      ≡ (ltb i n && any (is_near i) matches)
unfolding indexes_for_context has_index
indexes_for_context-near n matches i = has_index-contexts n matches [] i
