-- ===== src/Integrations/OpenAiBuffer.antt =====
-- sdk/typescript/src/integrations/openai-agents.ts: the exporter's state, its cache of traces and its
-- buffer of spans.
use farfield.Base.{
  ℕ, ◌+◌, Bool, false, List, [], ◌∷◌, ◌++◌, Option, none, some, Text, text, text_eq, get_or, length,
  ltb, add_text, if◌then◌else◌,
}
use farfield.Base.Map.{get, put, delete}
use farfield.Sdk.Client.{Result, ok, fault, type_error}
use farfield.Integrations.Payload.{Json, str, Fields, prop, string_value}

pub record Exporter : Type 0 where
  pub default_agent : Option Text
  pub max_trace_cache : ℕ
  pub traces : List (Text × Fields)
  pub pending : List (Text × List Fields)
  pub traces_committed : ℕ
  pub spans_committed : ℕ
  pub failed_exports : ℕ
  pub last_error : Option Text

-- The constructor, with the options that are given.
unfoldable pub new_exporter : Option Text → Option ℕ → Result Exporter
new_exporter default_agent max_trace_cache =
    let max = get_or max_trace_cache 8192 in
    if ltb max 1
    then fault (type_error (text "farfield: maxTraceCache must be positive"))
    else ok (record {
      default_agent = default_agent;
      max_trace_cache = max;
      traces = [];
      pending = [];
      traces_committed = 0;
      spans_committed = 0;
      failed_exports = 0;
      last_error = none;
    })

abbrev is_text : Text → Option Json → Bool
is_text s (some (str t)) = text_eq t s
is_text s _ = false

-- `payload.object === s`, and the trace that the payload names.
unfoldable pub names_trace : Text → Text → Fields → Option Text
names_trace object key payload =
    if is_text object (prop (text "object") payload) then string_value (prop key payload) else none

-- The `while` loop over the cache.
unfoldable pub evict : ℕ → List (Text × Fields) → List (Text × Fields)
evict max [] = []
evict max (t ∷ ts) = let rest = evict max ts in if ltb max (length (t ∷ ts)) then rest else t ∷ ts

-- A trace moves to the end of the cache.
unfoldable pub remember : ℕ → Text → Fields → List (Text × Fields) → List (Text × Fields)
remember max id payload traces = evict max (put id payload (delete id traces))

-- The first loop of `export`, with the traces that are new.
unfoldable pub note_traces : List Fields → Exporter → List Text → Exporter × List Text
note_traces [] e new = (e, new)
note_traces (payload ∷ payloads) e new = elim (names_trace (text "trace") (text "id") payload) [
  | none ↦ note_traces payloads e new
  | some id ↦
      note_traces payloads (record e { traces = remember e.max_trace_cache id payload e.traces })
        (add_text id new)
]

abbrev pub spans_of : Text → List (Text × List Fields) → List Fields
spans_of id pending = get_or (get id pending) []

-- The second loop of `export`.
unfoldable pub note_spans : List Fields → List (Text × List Fields) → List (Text × List Fields)
note_spans [] pending = pending
note_spans (payload ∷ payloads) pending =
    elim (names_trace (text "trace.span") (text "trace_id") payload) [
      | none ↦ note_spans payloads pending
      | some id ↦ note_spans payloads (put id (spans_of id pending ++ payload ∷ []) pending)
    ]

abbrev pub keys {ℓ} : {V : Type ℓ} → List (Text × V) → List Text
keys [] = []
keys ((k, v) ∷ m) = k ∷ keys m

-- `new Set([...a, ...b])` from a Set.
unfoldable pub add_all : List Text → List Text → List Text
add_all [] set = set
add_all (s ∷ more) set = add_all more (add_text s set)

-- `bufferedSpans` of `stats`
unfoldable pub buffered_spans : List (Text × List Fields) → ℕ
buffered_spans [] = 0
buffered_spans ((id, spans) ∷ more) = length spans + buffered_spans more

pub record Stats : Type 0 where
  pub traces : ℕ
  pub spans : ℕ
  pub buffered_spans : ℕ
  pub cached_traces : ℕ
  pub failed_exports : ℕ
  pub last_error : Option Text

-- `stats`
unfoldable pub exporter_stats : Exporter → Stats
exporter_stats e = record {
  traces = e.traces_committed;
  spans = e.spans_committed;
  buffered_spans = buffered_spans e.pending;
  cached_traces = length e.traces;
  failed_exports = e.failed_exports;
  last_error = e.last_error;
}
