-- ===== src/Ui/Inspector/Selection.antt =====
-- Which operations are shown for a query, server/ui/src/components/trace-inspector.tsx.
use farfield.Base.{
  ℕ, zero, suc, ◌+◌, ◌-◌, ◌<◌, ltb, leb, ◌≡◌, refl, sym, subst, ◌∙◌, Bool, true, false, ◌||◌, ◌&&◌,
  List, [], ◌∷◌, any, keep, length, arith, if◌then◌else◌, Bool-cases, inl, inr,
}
use farfield.Ui.History.{TimelineEntry}
use farfield.Ui.Operations.{TraceOperation, has_index}
use farfield.Ui.Filter.{
  ContextMode, matches_only, with_context, full, parse_timeline_query, indexes_for_context,
  all_indexes,
}
use farfield.Ui.Filter.Context.{is_near, indexes_for_context-near}
use farfield.Ui.Match.{Matching}
use farfield.Ui.Inspector.{
  Inspector, keep_indexes, matching_indexes, focused_operations, visible_operations,
  operation_matches, timeline_start, has_clauses,
}

module _ (p : TraceOperation → Bool) where
  abbrev next_matches : List TraceOperation → Bool
  next_matches [] = false
  next_matches (o ∷ _) = p o

  -- The operations that match or stand beside one that does, where the argument says whether the
  -- one before the list matches.
  pub beside : Bool → List TraceOperation → List TraceOperation
  beside before [] = []
  beside before (o ∷ operations) =
      let rest = beside (p o) operations in
      if before || p o || next_matches operations then o ∷ rest else rest

  -- What a mode shows of the operations.
  abbrev pub shown_in : ContextMode → List TraceOperation → List TraceOperation
  shown_in matches_only operations = keep p operations
  shown_in with_context operations = beside false operations
  shown_in full operations = operations

  -- The operations from an index on for which a test of the index holds.
  keep_from : (ℕ → Bool) → ℕ → List TraceOperation → List TraceOperation
  keep_from f k [] = []
  keep_from f k (o ∷ operations) =
      let rest = keep_from f (suc k) operations in if f k then o ∷ rest else rest

  keep_indexes-from :
      (set : List ℕ) (f : ℕ → Bool) (n k : ℕ) (operations : List TraceOperation)
      → ((i : ℕ) → i < n → has_index set i ≡ f i)
      → k + length operations ≡ n
      → keep_indexes set k operations ≡ keep_from f k operations
  unfolding keep_indexes keep_from
  keep_indexes-from set f n k [] h e = refl
  keep_indexes-from set f n k (o ∷ operations) h e =
      rw (h k (omega arith), keep_indexes-from set f n (suc k) operations h (omega arith)) refl

  -- A test of indexes agrees with `p` from an index on.
  Agrees : (ℕ → Bool) → ℕ → List TraceOperation → Type 0
  Agrees m k [] = m k ≡ false
  Agrees m k (o ∷ operations) = (m k ≡ p o) × Agrees m (suc k) operations

  has_index-behind :
      (j k : ℕ) (operations : List TraceOperation)
      → j < k
      → has_index (matching_indexes p k operations) j ≡ false
  unfolding has_index matching_indexes
  has_index-behind j k [] h = refl
  has_index-behind j k (o ∷ operations) h = ground (arith, has_index-behind j (suc k) operations)

  Agrees-cons :
      (j : ℕ) (set : List ℕ) (k : ℕ) (operations : List TraceOperation)
      → j < k
      → Agrees (has_index set) k operations
      → Agrees (has_index (j ∷ set)) k operations
  unfolding Agrees has_index
  Agrees-cons j set k [] h a = ground (arith, a)
  Agrees-cons j set k (o ∷ operations) h (a, as') =
      (ground (arith, a), Agrees-cons j set (suc k) operations (omega arith) as')

  Agrees-matching :
      (k : ℕ) (operations : List TraceOperation)
      → Agrees (has_index (matching_indexes p k operations)) k operations
  unfolding Agrees matching_indexes has_index
  Agrees-matching k [] = refl
  Agrees-matching k (o ∷ operations) = elim (Bool-cases (p o)) [
    | inl found ↦
        subst (λ set. Agrees (has_index set) k (o ∷ operations)) (of_found found)
          (
            ground (arith, found),
            Agrees-cons k (matching_indexes p (suc k) operations) (suc k) operations (omega arith)
                (Agrees-matching (suc k) operations),
          )
    | inr missed ↦
        subst (λ set. Agrees (has_index set) k (o ∷ operations)) (of_missed missed)
          (
            has_index-behind k (suc k) operations (omega arith) ∙ sym missed,
            Agrees-matching (suc k) operations,
          )
  ]
    where
      of_found :
          p o ≡ true
          → k ∷ matching_indexes p (suc k) operations ≡ matching_indexes p k (o ∷ operations)
      of_found h = rw h refl

      of_missed :
          p o ≡ false
          → matching_indexes p (suc k) operations ≡ matching_indexes p k (o ∷ operations)
      of_missed h = rw h refl

  keep_from-matches :
      (m : ℕ → Bool) (k : ℕ) (operations : List TraceOperation)
      → Agrees m k operations
      → keep_from m k operations ≡ keep p operations
  unfolding Agrees keep_from
  keep_from-matches m k [] a = refl
  keep_from-matches m k (o ∷ operations) (a, as') =
      rw (a, keep_from-matches m (suc k) operations as') refl

  keep_from-beside :
      (m : ℕ → Bool) (k : ℕ) (operations : List TraceOperation)
      → Agrees m k operations
      → keep_from (λ i. m (i - 1) || m i || m (suc i)) k operations ≡ beside (m (k - 1)) operations
  unfolding Agrees keep_from beside
  keep_from-beside m k [] a = refl
  keep_from-beside m k (o ∷ operations) (a, as') =
      rw (a, next m operations as', keep_from-beside m (suc k) operations as', back, a) refl
    where
      next :
          (m : ℕ → Bool) (operations : List TraceOperation)
          → Agrees m (suc k) operations
          → m (suc k) ≡ next_matches operations
      next m [] a = a
      next m (o ∷ operations) a = a.0

      back : suc k - 1 ≡ k
      back = omega arith

any-near :
    (i : ℕ) (set : List ℕ)
    → any (is_near i) set ≡ (has_index set (i - 1) || has_index set i || has_index set (suc i))
unfolding has_index
any-near i [] = refl
any-near i (m ∷ set) = ground (arith, any-near i set)

has_index-all : (n k i : ℕ) → has_index (all_indexes n k) i ≡ (leb k i && ltb i (k + n))
unfolding has_index all_indexes
has_index-all zero k i = ground arith
has_index-all (suc n) k i = ground (arith, has_index-all n (suc k) i)

module _ (p : TraceOperation → Bool) where
  keep_from-all :
      (f : ℕ → Bool) (k : ℕ) (operations : List TraceOperation)
      → ((i : ℕ) → i < k + length operations → f i ≡ true)
      → keep_from p f k operations ≡ operations
  unfolding keep_from
  keep_from-all f k [] h = refl
  keep_from-all f k (o ∷ operations) h =
      rw (h k (omega arith), keep_from-all f (suc k) operations (λ i below. h i (omega arith))) refl

  beside-first :
      (operations : List TraceOperation)
      → Agrees p (has_index (matching_indexes p 0 operations)) 0 operations
      → beside p (has_index (matching_indexes p 0 operations) 0) operations
        ≡ beside p false operations
  unfolding beside Agrees
  beside-first [] a = refl
  beside-first (o ∷ operations) (a, _) = rw a (ground arith)

  keep_indexes-shown :
      (mode : ContextMode) (operations : List TraceOperation)
      → keep_indexes
          (indexes_for_context (length operations) (matching_indexes p 0 operations) mode)
          0
          operations
        ≡ shown_in p mode operations
  unfolding indexes_for_context
  keep_indexes-shown matches_only operations =
      let set = matching_indexes p 0 operations in
      keep_indexes-from p set (has_index set) (length operations) 0 operations (λ i h. refl)
        (omega arith)
      ∙ keep_from-matches p (has_index set) 0 operations (Agrees-matching p 0 operations)
  keep_indexes-shown with_context operations =
      let set = matching_indexes p 0 operations in
      keep_indexes-from p (indexes_for_context (length operations) set with_context) _
        (length operations) 0 operations
        (λ i h. indexes_for_context-near (length operations) set i ∙ within i h (any-near i set))
        (omega arith)
      ∙ keep_from-beside p (has_index set) 0 operations (Agrees-matching p 0 operations)
      ∙ beside-first operations (Agrees-matching p 0 operations)
    where
      within :
          (i : ℕ)
          → i < length operations
          → {a b : Bool} → a ≡ b
          → (ltb i (length operations) && a) ≡ b
      within i h e = ground (arith, e)
  keep_indexes-shown full operations =
      keep_indexes-from p (all_indexes (length operations) 0) (λ i. ltb i (length operations))
        (length operations) 0 operations
        (λ i h. has_index-all (length operations) 0 i ∙ ground arith) (omega arith)
      ∙ keep_from-all (λ i. ltb i (length operations)) 0 operations (λ i h. ground arith)

-- The operations that a view shows are, for a query with clauses, those that match in the mode of
-- matches, those that match or stand directly beside one that matches in the mode of context, and
-- all that the density and the focus leave in the full mode; without clauses they are all of these.
pub visible_operations-shown :
    (matching : Matching) (s : Inspector) (entries : List TimelineEntry)
    → let parsed = parse_timeline_query matching.engine.lower s.timeline_query in
      visible_operations matching s entries
      ≡ shown_in
          (operation_matches matching parsed (timeline_start matching entries))
          (if has_clauses parsed.clauses then s.context_mode else full)
          (focused_operations matching s entries)
unfolding visible_operations
visible_operations-shown matching s entries =
    let parsed = parse_timeline_query matching.engine.lower s.timeline_query in
    keep_indexes-shown (operation_matches matching parsed (timeline_start matching entries)) _ _
