-- ===== src/Ui/Operations/Counts.antt =====
-- The records that the operations of a trace have and count, server/ui/src/lib/trace-operations.ts.
use farfield.Base.{
  ℕ, suc, ◌+◌, ◌≡◌, refl, sym, ◌∙◌, Bool, true, false, not, ◌&&◌, List, [], ◌∷◌, ◌++◌, map, concat,
  keep, Option, none, some, length, ltb, arith, if◌then◌else◌, Bool-cases, Option-cases, inl, inr,
}
use farfield.Ui.History.{TimelineEntry, Engine}
use farfield.Ui.Operations.{
  TraceOperation, has_index, find_result, take_chunks, merge_chunks, same_trace, is_call,
  is_assistant, make_operation, operation_alone, operation_at, build_operations,
  build_trace_operations,
}
use farfield.Ui.Operations.Grouping.{
  sum_of, ahead, OnlyResults, ChunksThenResults, only_results, find_result-IsFresh,
  take_chunks-AreFresh,
}

-- `operations.reduce((sum, operation) => sum + operation.groupedCount, 0)`
abbrev pub count_grouped : List TraceOperation → ℕ
count_grouped [] = 0
count_grouped (operation ∷ operations) = operation.grouped_count + count_grouped operations

-- The records of all operations, in their order.
abbrev pub entries_of : List TraceOperation → List TimelineEntry
entries_of operations = concat (map (λ operation. operation.entries) operations)

-- A record that is chosen and no message of an assistant, whose chunks are merged.
abbrev pub stays : (TimelineEntry → Bool) → TimelineEntry → Bool
stays p entry = p entry && not (is_assistant entry)

of_call :
    (b : Bool) (o : Option (ℕ × TimelineEntry)) {p : ℕ × TimelineEntry}
    → (if b then o else none) ≡ some p
    → o ≡ some p
of_call true o h = h
of_call false o h = cc

nothing : (index : ℕ) (entries : List TimelineEntry) → OnlyResults [] index entries
unfolding has_index
nothing index [] = tt
nothing index (entry ∷ entries) = (λ h. cc, nothing (suc index) entries)

none_ahead :
    (w : TimelineEntry → ℕ) (index : ℕ) (entries : List TimelineEntry)
    → ahead w [] index entries ≡ 0
unfolding has_index
none_ahead w index [] = refl
none_ahead w index (entry ∷ entries) = none_ahead w (suc index) entries

total : (TraceOperation → ℕ) → List TraceOperation → ℕ
total measure [] = 0
total measure (operation ∷ operations) = measure operation + total measure operations

module _ (engine : Engine) (w : TimelineEntry → ℕ) (measure : TraceOperation → ℕ) where
  -- A measure of operations gives each the weight of the records that it is made of.
  record Measures : Type 0 where
    alone : (entry : TimelineEntry) → measure (make_operation engine entry [] 1) ≡ w entry
    pair :
        (entry result : TimelineEntry)
        → measure (make_operation engine entry (result ∷ []) 2) ≡ w entry + w result
    merged :
        (entry : TimelineEntry) (index : ℕ) (entries : List TimelineEntry)
        → is_assistant entry ≡ true
        → let chunks = (take_chunks entry index entries).0 in
          measure (make_operation engine (merge_chunks entry chunks) [] (length (entry ∷ chunks)))
          ≡ sum_of w (entry ∷ chunks)

  -- An operation weighs its first entry and those that it consumes, of which none was.
  Consumes : List ℕ → TimelineEntry → ℕ → List TimelineEntry → TraceOperation × List ℕ → Type 0
  Consumes consumed entry index entries (operation, indices) =
      (ahead w (indices ++ consumed) index entries + w entry
        ≡ measure operation + ahead w consumed index entries)
      × ChunksThenResults (indices ++ consumed) index entries

  module _ (m : Measures) where
    alone-Consumes :
        (entry : TimelineEntry) (index : ℕ) (consumed : List ℕ) (entries : List TimelineEntry)
        → OnlyResults consumed (suc index) entries
        → Consumes consumed entry (suc index) entries (operation_alone engine entry index entries)
    unfolding operation_alone Consumes
    alone-Consumes entry index consumed entries r =
        let chunks = (take_chunks entry (suc index) entries).0 in
        elim (Bool-cases (is_assistant entry)) [
          | inr other ↦
              rw (other, operation_alone)
                (omega (arith, m.alone entry), only_results consumed _ entries r)
          | inl message ↦ elim (Bool-cases (ltb 1 (length (entry ∷ chunks)))) [
            | inl several ↦
                rw (message, several, operation_alone)
                  (let (a, c) = take_chunks-AreFresh w entry consumed (suc index) entries r in
                    (omega (arith, a, m.merged entry (suc index) entries message), c))
            | inr single ↦
                rw (message, single, operation_alone)
                  (omega (arith, m.alone entry), only_results consumed _ entries r)
          ]
        ]

    operation_at-Consumes :
        (entry : TimelineEntry) (index : ℕ) (consumed : List ℕ) (entries : List TimelineEntry)
        → OnlyResults consumed (suc index) entries
        → Consumes consumed entry
            (suc index)
            entries
            (operation_at engine entry index consumed entries)
    unfolding operation_at Consumes
    operation_at-Consumes entry index consumed entries r =
        elim (Option-cases
          (if is_call entry then find_result entry index consumed (suc index) entries else none)) [
            | inl alone ↦ rw (alone, operation_at) (alone-Consumes entry index consumed entries r)
            | inr ((found, result), h) ↦
                rw (h, operation_at)
                  (let (l, a, o) =
                      find_result-IsFresh w entry index consumed (suc index) entries found result
                        (of_call _ _ h) in
                    (
                      omega (arith, a, m.pair entry result),
                      only_results (found ∷ consumed) _ entries (o r),
                    ))
          ]

    build_operations-total :
        (index : ℕ) (consumed : List ℕ) (entries : List TimelineEntry)
        → ChunksThenResults consumed index entries
        → total measure (build_operations engine index consumed entries)
            + ahead w consumed index entries
          ≡ sum_of w entries
    unfolding build_operations total Consumes
    build_operations-total index consumed [] c = omega arith
    build_operations-total index consumed (entry ∷ entries) c =
        elim (Bool-cases (has_index consumed index)) [
          | inl old ↦
              rw (old, build_operations)
                (omega (arith, build_operations-total (suc index) consumed entries (rest c)))
          | inr new ↦
              rw (new, build_operations)
                (let step = operation_at-Consumes entry index consumed entries (results c new) in
                  omega
                    (arith, weighs step, build_operations-total (suc index) _ entries (left step)))
        ]
      where
        rest :
            ChunksThenResults consumed index (entry ∷ entries)
            → ChunksThenResults consumed (suc index) entries
        rest (inl (r, rs)) = only_results consumed (suc index) entries rs
        rest (inr (h, c)) = c

        results :
            ChunksThenResults consumed index (entry ∷ entries)
            → has_index consumed index ≡ false
            → OnlyResults consumed (suc index) entries
        results (inl (r, rs)) n = rs
        results (inr (h, c)) n = cc

        at : TraceOperation × List ℕ
        at = operation_at engine entry index consumed entries

        weighs :
            Consumes consumed entry (suc index) entries at
            → ahead w (at.1 ++ consumed) (suc index) entries + w entry
              ≡ measure at.0 + ahead w consumed (suc index) entries
        weighs step = step.0

        left :
            Consumes consumed entry (suc index) entries at
            → ChunksThenResults (at.1 ++ consumed) (suc index) entries
        left step = step.1

    build_trace_operations-total :
        (entries : List TimelineEntry)
        → total measure (build_trace_operations engine entries) ≡ sum_of w entries
    unfolding build_trace_operations
    build_trace_operations-total entries = omega (
      arith,
      build_operations-total 0 [] entries (only_results [] 0 entries (nothing 0 entries)),
      none_ahead w 0 entries,
    )

sum_of-ones : (entries : List TimelineEntry) → length entries ≡ sum_of (λ entry. 1) entries
sum_of-ones [] = refl
sum_of-ones (entry ∷ entries) = omega (arith, sum_of-ones entries)

counted : (engine : Engine) → Measures engine (λ entry. 1) (λ operation. operation.grouped_count)
unfolding make_operation
counted engine = record {
  alone = λ entry. refl;
  pair = λ entry result. refl;
  merged = λ entry index entries message. sum_of-ones (entry ∷ (take_chunks entry index entries).0);
}

total-counted :
    (operations : List TraceOperation)
    → total (λ operation. operation.grouped_count) operations ≡ count_grouped operations
unfolding total
total-counted [] = refl
total-counted (operation ∷ operations) = omega (arith, total-counted operations)

module _ (p : TimelineEntry → Bool) where
  weight : TimelineEntry → ℕ
  weight entry = if stays p entry then 1 else 0

  weight-message : (entry : TimelineEntry) → is_assistant entry ≡ true → weight entry ≡ 0
  unfolding weight
  weight-message entry message = ground arith

  weight-chunks :
      (entry : TimelineEntry) (index : ℕ) (entries : List TimelineEntry)
      → sum_of weight (take_chunks entry index entries).0 ≡ 0
  unfolding take_chunks
  weight-chunks entry index [] = refl
  weight-chunks entry index (chunk ∷ entries) =
      elim (Bool-cases (is_assistant chunk && same_trace chunk entry)) [
        | inr other ↦ rw other refl
        | inl same ↦
            (let message : is_assistant chunk ≡ true = ground arith in
              rw same (
                omega
                  (arith, weight-message chunk message, weight-chunks entry (suc index) entries)))
      ]

  had : (engine : Engine) → Measures engine weight (λ operation. sum_of weight operation.entries)
  unfolding make_operation merge_chunks
  had engine = record {
    alone = λ entry. omega arith;
    pair = λ entry result. omega arith;
    merged = λ entry index entries message. omega (
      arith,
      weight-message entry message,
      weight-message (merge_chunks entry (take_chunks entry index entries).0) message,
      weight-chunks entry index entries,
    );
  }

  sum_of-keep :
      (entries : List TimelineEntry) → sum_of weight entries ≡ length (keep (stays p) entries)
  unfolding weight
  sum_of-keep [] = refl
  sum_of-keep (entry ∷ entries) = ground (arith, sum_of-keep entries)

  sum_of-append :
      (xs ys : List TimelineEntry) → sum_of weight (xs ++ ys) ≡ sum_of weight xs + sum_of weight ys
  sum_of-append [] ys = omega arith
  sum_of-append (x ∷ xs) ys = omega (arith, sum_of-append xs ys)

  total-had :
      (operations : List TraceOperation)
      → total (λ operation. sum_of weight operation.entries) operations
        ≡ sum_of weight (entries_of operations)
  unfolding total
  total-had [] = refl
  total-had (operation ∷ operations) =
      omega (arith, total-had operations, sum_of-append operation.entries (entries_of operations))

  -- No record of a timeline is lost or shown twice, whatever calls, results and chunks it has: of
  -- the records that are no messages of an assistant, the operations together have as many of each
  -- kind as the timeline, for every test that tells records apart; and with the chunks of messages,
  -- which are merged, their counts add up to the number of the records.
  pub build_trace_operations-counts :
      (engine : Engine) (entries : List TimelineEntry)
      → let operations = build_trace_operations engine entries in
        (length (keep (stays p) (entries_of operations)) ≡ length (keep (stays p) entries))
        × (count_grouped operations ≡ length entries)
  build_trace_operations-counts engine entries =
      let operations = build_trace_operations engine entries in
      (
        sym (sum_of-keep (entries_of operations))
            ∙ (sym (total-had operations)
                ∙ (build_trace_operations-total engine weight _ (had engine) entries
                    ∙ sum_of-keep entries)),
        sym (total-counted operations)
            ∙ (build_trace_operations-total engine (λ entry. 1) _ (counted engine) entries
                ∙ sym (sum_of-ones entries)),
      )
