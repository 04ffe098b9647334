-- ===== src/Integrations/OpenAi/Cache.antt =====
-- The trace cache and the buffer of spans, sdk/typescript/src/integrations/openai-agents.ts.
use farfield.Base.{
  ℕ, suc, ◌+◌, ◌≤◌, ◌≡◌, refl, false, ◌||◌, List, [], ◌∷◌, ◌++◌, none, some, Text, text, text_eq,
  text_eq_iff, length, length-append, mem_text, add_text, Bool-cases, Option-cases, inl, inr, arith,
}
use farfield.Base.Map.{get, put, delete, get-delete, DistinctKeys, put-DistinctKeys}
use farfield.Integrations.Payload.{Fields}
use farfield.Integrations.OpenAiBuffer.{
  Exporter, evict, remember, note_traces, note_spans, names_trace, spans_of, keys, add_all,
  buffered_spans,
}

pub evict-le : (max : ℕ) (ts : List (Text × Fields)) → length (evict max ts) ≤ max
unfolding evict
evict-le max [] = omega arith
evict-le max (t ∷ ts) = ground (arith, evict-le max ts)

-- The cache holds no more traces than it may.
abbrev pub IsBounded : Exporter → Type 0
IsBounded e = length e.traces ≤ e.max_trace_cache

pub note_traces-IsBounded :
    (payloads : List Fields) (e : Exporter) (new : List Text)
    → IsBounded e
    → IsBounded (note_traces payloads e new).0
unfolding note_traces remember
note_traces-IsBounded [] e new b = b
note_traces-IsBounded (payload ∷ payloads) e new b =
    elim (Option-cases (names_trace (text "trace") (text "id") payload)) [
      | inl skip ↦ rw (skip, note_traces) (note_traces-IsBounded payloads e new b)
      | inr (id, names) ↦
          rw (names, note_traces) (note_traces-IsBounded payloads _ _ (evict-le _ _))
    ]

-- Nothing but the cache has changed.
pub note_traces-keeps :
    (payloads : List Fields) (e : Exporter) (new : List Text)
    → ((note_traces payloads e new).0.pending ≡ e.pending)
      × ((note_traces payloads e new).0.spans_committed ≡ e.spans_committed)
      × ((note_traces payloads e new).0.failed_exports ≡ e.failed_exports)
unfolding note_traces
note_traces-keeps [] e new = (refl, refl, refl)
note_traces-keeps (payload ∷ payloads) e new =
    elim (Option-cases (names_trace (text "trace") (text "id") payload)) [
      | inl skip ↦ rw (skip, note_traces) (note_traces-keeps payloads e new)
      | inr (id, names) ↦ rw (names, note_traces) (note_traces-keeps payloads _ _)
    ]

-- The spans of an export that name a trace.
unfoldable pub spans_given : List Fields → ℕ
spans_given [] = 0
spans_given (payload ∷ payloads) =
    elim (names_trace (text "trace.span") (text "trace_id") payload) [
      | none ↦ spans_given payloads
      | some id ↦ suc (spans_given payloads)
    ]

buffered-put :
    (id : Text) (spans : List Fields) (pending : List (Text × List Fields))
    → buffered_spans (put id spans pending) + length (spans_of id pending)
      ≡ buffered_spans pending + length spans
unfolding buffered_spans put get
buffered-put id spans [] = omega arith
buffered-put id spans ((j, old) ∷ pending) = elim (Bool-cases (text_eq j id)) [
  | inl same ↦ rw same (omega arith)
  | inr other ↦ rw other (omega (arith, buffered-put id spans pending))
]

pub note_spans-buffers :
    (payloads : List Fields) (pending : List (Text × List Fields))
    → buffered_spans (note_spans payloads pending) ≡ buffered_spans pending + spans_given payloads
unfolding note_spans spans_given
note_spans-buffers [] pending = omega arith
note_spans-buffers (payload ∷ payloads) pending =
    elim (Option-cases (names_trace (text "trace.span") (text "trace_id") payload)) [
      | inl skip ↦ rw (skip, note_spans, spans_given) (note_spans-buffers payloads pending)
      | inr (id, names) ↦
          rw (names, note_spans, spans_given)
            (omega (
              arith,
              buffered-put id (spans_of id pending ++ payload ∷ []) pending,
              length-append (spans_of id pending) (payload ∷ []),
              note_spans-buffers payloads (put id (spans_of id pending ++ payload ∷ []) pending),
            ))
    ]

pub note_spans-DistinctKeys :
    (payloads : List Fields) (pending : List (Text × List Fields))
    → DistinctKeys pending
    → DistinctKeys (note_spans payloads pending)
unfolding note_spans
note_spans-DistinctKeys [] pending d = d
note_spans-DistinctKeys (payload ∷ payloads) pending d =
    elim (Option-cases (names_trace (text "trace.span") (text "trace_id") payload)) [
      | inl skip ↦ rw (skip, note_spans) (note_spans-DistinctKeys payloads pending d)
      | inr (id, names) ↦
          rw (names, note_spans)
            (note_spans-DistinctKeys payloads _ (put-DistinctKeys id _ pending d))
    ]

pub delete-DistinctKeys :
    (id : Text) (pending : List (Text × List Fields))
    → DistinctKeys pending
    → DistinctKeys (delete id pending)
unfolding delete
delete-DistinctKeys id [] d = tt
delete-DistinctKeys id ((j, spans) ∷ pending) (n, d) = elim (Bool-cases (text_eq j id)) [
  | inl same ↦ rw same (delete-DistinctKeys id pending d)
  | inr other ↦ rw other (ground (arith, get-delete id j pending), delete-DistinctKeys id pending d)
]

delete-none :
    (id : Text) (pending : List (Text × List Fields))
    → get id pending ≡ none
    → delete id pending ≡ pending
unfolding delete get
delete-none id [] n = refl
delete-none id ((j, spans) ∷ pending) n = ground (arith, delete-none id pending)

-- The spans of a trace that leave the buffer.
pub buffered-delete :
    (id : Text) (pending : List (Text × List Fields))
    → DistinctKeys pending
    → buffered_spans pending ≡ buffered_spans (delete id pending) + length (spans_of id pending)
unfolding buffered_spans delete get
buffered-delete id [] d = refl
buffered-delete id ((j, spans) ∷ pending) (n, d) = elim (Bool-cases (text_eq j id)) [
  | inl same ↦
      let e : get id pending ≡ none = ground (arith, text_eq_iff j id) in
      rw (same, delete-none id pending e) (omega arith)
  | inr other ↦ rw other (omega (arith, buffered-delete id pending d))
]

-- Every trace of the buffer is in the list.
abbrev pub Covers : List Text → List (Text × List Fields) → Type 0
Covers ids pending = (k : Text) → mem_text k ids ≡ false → get k pending ≡ none

pub Covers-nil : (pending : List (Text × List Fields)) → Covers [] pending → pending ≡ []
unfolding get mem_text
Covers-nil [] c = refl
Covers-nil ((j, spans) ∷ pending) c =
    let n : get j ((j, spans) ∷ pending) ≡ none = c j refl in ground (arith, text_eq_iff j j, n)

pub delete-Covers :
    (id : Text) (ids : List Text) (pending : List (Text × List Fields))
    → Covers (id ∷ ids) pending
    → Covers ids (delete id pending)
unfolding mem_text
delete-Covers id ids pending c k out = ground (arith, get-delete id k pending, c k)

mem-append :
    (k s : Text) (us : List Text) → mem_text k (us ++ s ∷ []) ≡ (mem_text k us || text_eq s k)
unfolding mem_text
mem-append k s [] = ground arith
mem-append k s (u ∷ us) = ground (arith, mem-append k s us)

mem-add_text :
    (k s : Text) (ts : List Text) → mem_text k (add_text s ts) ≡ (mem_text k ts || text_eq s k)
unfolding add_text
mem-add_text k s ts = elim (Bool-cases (mem_text s ts)) [
  | inl old ↦ rw old (ground (arith, text_eq_iff s k))
  | inr new ↦ rw new (mem-append k s ts)
]

mem-add_all :
    (k : Text) (ss ts : List Text) → mem_text k (add_all ss ts) ≡ (mem_text k ts || mem_text k ss)
unfolding add_all mem_text
mem-add_all k [] ts = ground arith
mem-add_all k (s ∷ ss) ts = ground (arith, mem-add_all k ss (add_text s ts), mem-add_text k s ts)

get-keys :
    (k : Text) (pending : List (Text × List Fields))
    → mem_text k (keys pending) ≡ false
    → get k pending ≡ none
unfolding mem_text get
get-keys k [] h = refl
get-keys k ((j, spans) ∷ pending) h = ground (arith, get-keys k pending)

pub add_all-Covers :
    (pending : List (Text × List Fields)) (new : List Text)
    → Covers (add_all (keys pending) new) pending
add_all-Covers pending new k out =
    ground (arith, mem-add_all k (keys pending) new, get-keys k pending)
