-- ===== src/Ui/Operations/Grouping.antt =====
-- The entries that operations consume, server/ui/src/lib/trace-operations.ts.
use farfield.Base.{
  ℕ, suc, ◌+◌, ◌≤◌, ◌<◌, ◌≡◌, ◌⊎◌, refl, sym, subst, true, false, ◌&&◌, List, [], ◌∷◌, ◌++◌, none,
  some, text, text_eq, text_eq_sound, arith, if◌then◌else◌, Bool-cases, inl, inr,
}
use farfield.Ui.History.{TimelineEntry}
use farfield.Ui.Operations.{
  has_index, find_result, take_chunks, is_result, is_assistant, is_match, ends_search, same_trace,
}

-- What entries weigh together.
abbrev pub sum_of : (TimelineEntry → ℕ) → List TimelineEntry → ℕ
sum_of w [] = 0
sum_of w (entry ∷ entries) = w entry + sum_of w entries

-- What those of the entries from an index on that are consumed weigh together.
abbrev pub ahead : (TimelineEntry → ℕ) → List ℕ → ℕ → List TimelineEntry → ℕ
ahead w consumed index [] = 0
ahead w consumed index (entry ∷ entries) =
    let rest = ahead w consumed (suc index) entries in
    if has_index consumed index then w entry + rest else rest

-- Those that are consumed are results.
abbrev pub OnlyResults : List ℕ → ℕ → List TimelineEntry → Type 0
OnlyResults consumed index [] = Unit
OnlyResults consumed index (entry ∷ entries) =
    (has_index consumed index ≡ true → is_result entry ≡ true)
    × OnlyResults consumed (suc index) entries

-- Those that are consumed are results, behind chunks that lie next.
abbrev pub ChunksThenResults : List ℕ → ℕ → List TimelineEntry → Type 0
ChunksThenResults consumed index [] = Unit
ChunksThenResults consumed index (entry ∷ entries) =
    OnlyResults consumed index (entry ∷ entries)
    ⊎ ((has_index consumed index ≡ true) × ChunksThenResults consumed (suc index) entries)

pub only_results :
    (consumed : List ℕ) (index : ℕ) (entries : List TimelineEntry)
    → OnlyResults consumed index entries
    → ChunksThenResults consumed index entries
only_results consumed index [] h = tt
only_results consumed index (entry ∷ entries) h = inl h

has_index-below :
    (i j : ℕ) (consumed : List ℕ) → i < j → has_index (i ∷ consumed) j ≡ has_index consumed j
unfolding has_index
has_index-below i j consumed h = ground arith

-- An index that lies before the entries makes no difference.
ahead-below :
    (w : TimelineEntry → ℕ) (i index : ℕ) (consumed : List ℕ) (entries : List TimelineEntry)
    → i < index
    → ahead w (i ∷ consumed) index entries ≡ ahead w consumed index entries
ahead-below w i index consumed [] h = refl
ahead-below w i index consumed (entry ∷ entries) h =
    rw
      (
        has_index-below i index consumed h,
        ahead-below w i (suc index) consumed entries (omega arith),
      )
      refl

OnlyResults-below :
    (i index : ℕ) (consumed : List ℕ) (entries : List TimelineEntry)
    → i < index
    → OnlyResults consumed index entries
    → OnlyResults (i ∷ consumed) index entries
OnlyResults-below i index consumed [] h r = tt
OnlyResults-below i index consumed (entry ∷ entries) h (r, rs) = (
  rw (has_index-below i index consumed h) r,
  OnlyResults-below i (suc index) consumed entries (omega arith) rs,
)

ChunksThenResults-below :
    (i index : ℕ) (consumed : List ℕ) (entries : List TimelineEntry)
    → i < index
    → ChunksThenResults consumed index entries
    → ChunksThenResults (i ∷ consumed) index entries
ChunksThenResults-below i index consumed [] h r = tt
ChunksThenResults-below i index consumed (entry ∷ entries) h (inl r) =
    inl (OnlyResults-below i index consumed (entry ∷ entries) h r)
ChunksThenResults-below i index consumed (entry ∷ entries) h (inr (r, rs)) = inr (
  rw (has_index-below i index consumed h) r,
  ChunksThenResults-below i (suc index) consumed entries (omega arith) rs,
)

abbrev pub IsFresh :
    (TimelineEntry → ℕ) → List ℕ → ℕ → TimelineEntry → ℕ → List TimelineEntry → Type 0
IsFresh w consumed found result index entries =
    (index ≤ found)
    × (ahead w (found ∷ consumed) index entries ≡ w result + ahead w consumed index entries)
    × (OnlyResults consumed index entries → OnlyResults (found ∷ consumed) index entries)

IsFresh-later :
    (w : TimelineEntry → ℕ) (consumed : List ℕ) (found : ℕ) (result : TimelineEntry) (index : ℕ)
    (entry : TimelineEntry) (entries : List TimelineEntry)
    → IsFresh w consumed found result (suc index) entries
    → IsFresh w consumed found result index (entry ∷ entries)
unfolding has_index
IsFresh-later w consumed found result index entry entries (l, a, o) =
    (omega arith, ground arith, λ (r, rs). (λ h. r (ground arith), o rs))

IsFresh-now :
    (w : TimelineEntry → ℕ) (consumed : List ℕ) (index : ℕ) (entry : TimelineEntry)
    (entries : List TimelineEntry)
    → has_index consumed index ≡ false
    → is_result entry ≡ true
    → IsFresh w consumed index entry index (entry ∷ entries)
unfolding has_index
IsFresh-now w consumed index entry entries n r = (
  omega arith,
  ground (arith, ahead-below w index (suc index) consumed entries),
  λ (q, rs). (λ h. r, OnlyResults-below index (suc index) consumed entries (omega arith) rs),
)

-- A result that is found is a result that was not consumed.
pub find_result-IsFresh :
    (w : TimelineEntry → ℕ) (call : TimelineEntry) (call_index : ℕ) (consumed : List ℕ) (index : ℕ)
    (entries : List TimelineEntry) (found : ℕ) (result : TimelineEntry)
    → find_result call call_index consumed index entries ≡ some (found, result)
    → IsFresh w consumed found result index entries
unfolding find_result
find_result-IsFresh w call call_index consumed index [] found result h = cc
find_result-IsFresh w call call_index consumed index (candidate ∷ entries) found result h =
    let rest = find_result-IsFresh w call call_index consumed (suc index) entries found result in
    elim (Bool-cases (has_index consumed index)) [
      | inl old ↦ later (rest (rw (old, find_result) at h))
      | inr new ↦ elim (Bool-cases (ends_search call candidate)) [
        | inl ends ↦ (let e : none ≡ some (found, result) = rw (new, ends, find_result) at h in cc)
        | inr on ↦ elim (Bool-cases (is_result candidate)) [
          | inr other ↦ later (rest (rw (new, on, other, find_result) at h))
          | inl is_one ↦ elim (Bool-cases (is_match call call_index index candidate)) [
            | inr no_match ↦ later (rest (rw (new, on, is_one, no_match, find_result) at h))
            | inl matched ↦
                (let e : some (index, candidate) ≡ some (found, result) =
                    rw (new, on, is_one, matched, find_result) at h in
                  now (ground arith) (ground arith) new is_one)
          ]
        ]
      ]
    ]
  where
    later :
        IsFresh w consumed found result (suc index) entries
        → IsFresh w consumed found result index (candidate ∷ entries)
    later = IsFresh-later w consumed found result index candidate entries

    now :
        index ≡ found
        → candidate ≡ result
        → has_index consumed index ≡ false
        → is_result candidate ≡ true
        → IsFresh w consumed found result index (candidate ∷ entries)
    now e c n r =
        subst (λ k. IsFresh w consumed k result index (candidate ∷ entries)) e
          (subst (λ x. IsFresh w consumed index x index (candidate ∷ entries)) c
            (IsFresh-now w consumed index candidate entries n r))

has_index-here : (i : ℕ) (consumed : List ℕ) → has_index (i ∷ consumed) i ≡ true
unfolding has_index
has_index-here i consumed = ground arith

no-result : (entry : TimelineEntry) → is_assistant entry ≡ true → is_result entry ≡ false
unfolding text text_eq
no-result entry a = rw (text_eq_sound entry.history_record.kind (text "message.assistant") a) refl

-- The chunks of a message are consumed, and none of them was.
abbrev pub AreFresh :
    (TimelineEntry → ℕ) → List ℕ → ℕ → List TimelineEntry → List TimelineEntry × List ℕ → Type 0
AreFresh w consumed index entries (chunks, indices) =
    (ahead w (indices ++ consumed) index entries ≡ sum_of w chunks + ahead w consumed index entries)
    × ChunksThenResults (indices ++ consumed) index entries

take_chunks-nil : (entry : TimelineEntry) (index : ℕ) → take_chunks entry index [] ≡ ([], [])
unfolding take_chunks
take_chunks-nil entry index = refl

take_chunks-stop :
    (entry chunk : TimelineEntry) (index : ℕ) (entries : List TimelineEntry)
    → (is_assistant chunk && same_trace chunk entry) ≡ false
    → take_chunks entry index (chunk ∷ entries) ≡ ([], [])
unfolding take_chunks
take_chunks-stop entry chunk index entries h = rw h refl

take_chunks-on :
    (entry chunk : TimelineEntry) (index : ℕ) (entries : List TimelineEntry)
    → (is_assistant chunk && same_trace chunk entry) ≡ true
    → take_chunks entry index (chunk ∷ entries) ≡ (
      chunk ∷ (take_chunks entry (suc index) entries).0,
      index ∷ (take_chunks entry (suc index) entries).1,
    )
unfolding take_chunks
take_chunks-on entry chunk index entries h = rw h refl

pub take_chunks-AreFresh :
    (w : TimelineEntry → ℕ) (entry : TimelineEntry) (consumed : List ℕ) (index : ℕ)
    (entries : List TimelineEntry)
    → OnlyResults consumed index entries
    → AreFresh w consumed index entries (take_chunks entry index entries)
take_chunks-AreFresh w entry consumed index [] r =
    subst (AreFresh w consumed index []) (sym (take_chunks-nil entry index)) (omega arith, tt)
take_chunks-AreFresh w entry consumed index (chunk ∷ entries) (r, rs) =
    elim (Bool-cases (is_assistant chunk && same_trace chunk entry)) [
      | inr other ↦
          subst (AreFresh w consumed index (chunk ∷ entries))
            (sym (take_chunks-stop entry chunk index entries other)) (omega arith, inl (r, rs))
      | inl same ↦
          subst (AreFresh w consumed index (chunk ∷ entries))
            (sym (take_chunks-on entry chunk index entries same))
            (let (a, c) = take_chunks-AreFresh w entry consumed (suc index) entries rs in
              let indices = (take_chunks entry (suc index) entries).1 in
              let n : has_index consumed index ≡ false = ground (arith, no-result chunk, r) in
              (
                (rw
                    (
                      has_index-here index (indices ++ consumed),
                      n,
                      ahead-below w index (suc index) (indices ++ consumed) entries (omega arith),
                    )
                    (omega (arith, a))),
                inr (
                  has_index-here index (indices ++ consumed),
                  ChunksThenResults-below index (suc index) (indices ++ consumed) entries
                      (omega arith) c,
                ),
              ))
    ]
