-- ===== src/Ui/Inspector/Keys.antt =====
-- The keys J and K of the timeline, server/ui/src/components/trace-inspector.tsx.
use farfield.Base.{
  ℕ, zero, suc, ◌+◌, ◌-◌, ◌<◌, leb, ltb, ◌≡◌, ◌≢◌, refl, ap, ◌∙◌, Bool, true, false, not, ◌&&◌,
  List, [], ◌∷◌, Option, none, some, Text, text_eq, text_eq_iff, text_eq_refl, length, All, arith,
  if◌then◌else◌,
}
use farfield.Ui.Operations.{TraceOperation}
use farfield.Ui.Inspector.{
  Inspector, SessionView, review, trace, find_index, find_operation, has_id, selected_of,
}

pub data Key : Type 0 where
  key_j : Key
  key_k : Key
  other_key : Key

abbrev is_trace : SessionView → Bool
is_trace review = false
is_trace trace = true

abbrev pub is_move : Key → Bool
is_move other_key = false
is_move _ = true

abbrev has_operations : List TraceOperation → Bool
has_operations [] = false
has_operations (_ ∷ _) = true

abbrev id_of : Option TraceOperation → Option Text
id_of none = none
id_of (some operation) = some operation.id

-- The index behind a key, where `none` is the index -1.
unfoldable pub next_index : Key → ℕ → Option ℕ → ℕ
next_index key_j n none = 0
next_index key_j n (some current) = if ltb (n - 1) (current + 1) then n - 1 else current + 1
next_index _ n none = 0
next_index _ n (some current) = if leb current 0 then 0 else current - 1

unfoldable pub operation_at_index : ℕ → List TraceOperation → Option TraceOperation
operation_at_index i [] = none
operation_at_index zero (operation ∷ operations) = some operation
operation_at_index (suc i) (operation ∷ operations) = operation_at_index i operations

-- `handleKeyDown`, whose target is in a field for text or not.
unfoldable pub press : Key → Bool → List TraceOperation → Inspector → Inspector
press key in_field operations s =
    let found = find_index (has_id (id_of (selected_of s.selected_id operations))) 0 operations in
    let next = operation_at_index (next_index key (length operations) found) operations in
    if is_trace s.session_view && is_move key && not in_field && has_operations operations
    then record s { selected_id = id_of next }
    else s

abbrev pub HasDistinctIds : List TraceOperation → Type 0
HasDistinctIds [] = Unit
HasDistinctIds (operation ∷ operations) =
    All (λ o. o.id ≢ operation.id) operations × HasDistinctIds operations

module _ (o : TraceOperation) where
  other-ids :
      (x : TraceOperation) (operations : List TraceOperation) (i : ℕ)
      → All (λ y. y.id ≢ x.id) operations
      → operation_at_index i operations ≡ some o
      → text_eq x.id o.id ≡ false
  unfolding operation_at_index
  other-ids x (y ∷ operations) zero (h, hs) e = ground (arith, h, e, text_eq_iff x.id o.id)
  other-ids x (y ∷ operations) (suc i) (h, hs) e = other-ids x operations i hs e
  other-ids x [] i h e = ground (arith, e)

  find_index-at :
      (operations : List TraceOperation) (i index : ℕ)
      → HasDistinctIds operations
      → operation_at_index i operations ≡ some o
      → find_index (has_id (some o.id)) index operations ≡ some (index + i)
  unfolding find_index operation_at_index
  find_index-at [] i index h e = ground (arith, e)
  find_index-at (x ∷ operations) zero index h e = ground (arith, e, text_eq_refl o.id)
  find_index-at (x ∷ operations) (suc i) index (h, hs) e =
      rw (other-ids x operations i h e)
        (find_index-at operations i (suc index) hs e ∙ ap some (omega arith))

  find_operation-at :
      (operations : List TraceOperation) (i : ℕ)
      → HasDistinctIds operations
      → operation_at_index i operations ≡ some o
      → find_operation (has_id (some o.id)) operations ≡ some o
  unfolding find_operation operation_at_index
  find_operation-at [] i h e = ground (arith, e)
  find_operation-at (x ∷ operations) zero h e = ground (arith, e, text_eq_refl o.id)
  find_operation-at (x ∷ operations) (suc i) (h, hs) e =
      rw (other-ids x operations i h e) (find_operation-at operations i hs e)

  selected_of-at :
      (operations : List TraceOperation) (i : ℕ)
      → HasDistinctIds operations
      → operation_at_index i operations ≡ some o
      → selected_of (some o.id) operations ≡ some o
  unfolding selected_of
  selected_of-at operations i h e = rw (find_operation-at operations i h e) refl

  at-lt :
      (operations : List TraceOperation) (i : ℕ)
      → operation_at_index i operations ≡ some o
      → i < length operations
  unfolding operation_at_index
  at-lt [] i e = ground (arith, e)
  at-lt (x ∷ operations) zero e = omega arith
  at-lt (x ∷ operations) (suc i) e = omega (arith, at-lt operations i e)

lt-at :
    (operations : List TraceOperation) (i : ℕ)
    → i < length operations
    → (o : TraceOperation) × (operation_at_index i operations ≡ some o)
unfolding operation_at_index
lt-at [] i h = absurd (omega arith)
lt-at (x ∷ operations) zero h = (x, refl)
lt-at (x ∷ operations) (suc i) h = lt-at operations i (omega arith)

-- The place that a key leads to.
abbrev pub neighbour : Key → ℕ → ℕ → ℕ
neighbour key_j n i = if ltb (i + 1) n then i + 1 else i
neighbour key_k n i = i - 1
neighbour other_key n i = i

next_index-neighbour :
    (key : Key) (n i : ℕ)
    → is_move key ≡ true
    → i < n
    → (next_index key n (some i) ≡ neighbour key n i) × (neighbour key n i < n)
unfolding next_index
next_index-neighbour key_j n i m h = ground arith
next_index-neighbour key_k n i m h = ground arith
next_index-neighbour other_key n i m h = ground (arith, m)

selects-at :
    (operations : List TraceOperation) (i : ℕ)
    → HasDistinctIds operations
    → i < length operations
    → selected_of (id_of (operation_at_index i operations)) operations
      ≡ operation_at_index i operations
selects-at operations i distinct h =
    let (o, e) = lt-at operations i h in rw e (selected_of-at o operations i distinct e)

lt-nil : {i : ℕ} → i < length {A = TraceOperation} [] → ⊥
lt-nil h = omega (arith, h)

press-at :
    (s : Inspector) (key : Key) (operations : List TraceOperation) (i : ℕ) (o : TraceOperation)
    → s.session_view ≡ trace
    → is_move key ≡ true
    → HasDistinctIds operations
    → operation_at_index i operations ≡ some o
    → (press key false operations (record s { selected_id = some o.id })).selected_id
      ≡ id_of (operation_at_index (next_index key (length operations) (some i)) operations)
unfolding press
press-at s key operations i o in_trace moves distinct e =
    rw
      (
        in_trace,
        moves,
        not_empty operations e,
        selected_of-at o operations i distinct e,
        find_index-at o operations i 0 distinct e,
      )
      (ap (λ k. id_of (operation_at_index (next_index key (length operations) (some k)) operations))
        (omega arith))
  where
    not_empty :
        (operations : List TraceOperation)
        → operation_at_index i operations ≡ some o
        → has_operations operations ≡ true
    not_empty [] e = absurd (lt-nil (at-lt o [] i e))
    not_empty (x ∷ operations) e = refl

-- In the trace view, where the operations shown have different ids, the key J selects the operation
-- behind the selected one, or stays on the last, and K selects the one before it, or stays on the
-- first.
pub press-selects :
    (s : Inspector) (key : Key) (operations : List TraceOperation) (i : ℕ) (o : TraceOperation)
    → s.session_view ≡ trace
    → is_move key ≡ true
    → HasDistinctIds operations
    → operation_at_index i operations ≡ some o
    → selected_of
        (press key false operations (record s { selected_id = some o.id })).selected_id
        operations
      ≡ operation_at_index (neighbour key (length operations) i) operations
press-selects s key operations i o in_trace moves distinct e =
    let (index, within) =
      next_index-neighbour key (length operations) i moves (at-lt o operations i e) in
    rw (press-at s key operations i o in_trace moves distinct e, index)
      (selects-at operations (neighbour key (length operations) i) distinct within)
