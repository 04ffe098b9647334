-- ===== src/Integrations/OpenAi.antt =====
-- sdk/typescript/src/integrations/openai-agents.ts: the exporter for the OpenAI Agents SDK. What
-- the client makes of the events of a commit, and what the caller's signal says before it, are
-- given by turns.
pub mod Cache
pub mod Runs
pub mod Spans
pub mod Flushes
pub mod Segments
mod Tests
use farfield.Base.{
  ℕ, zero, suc, ◌+◌, Bool, true, false, not, List, [], ◌∷◌, ◌++◌, map, Option, none, some, Text,
  text, text_eq, get_or, or_else, length, ltb, take, join, mem_text, add_text, if◌then◌else◌,
}
use farfield.Base.Map.{get, put, delete}
use farfield.Base.Sorting.{sort_texts}
use farfield.Sdk.Types.{Value, Scope, Event, WireEvent, Moment, stamp}
use farfield.Sdk.Client.{Result, ok, fault, Fault, type_error, raised, ◌>>=◌, ◌>>◌}
use farfield.Integrations.Payload.{
  Json, null, str, arr, obj, Fields, end, field, json_value, prop, string_value, payload_value,
  truthy,
}
use farfield.Integrations.Ids.{external_id, record_id}
use farfield.Integrations.Claude.{present}
use farfield.Integrations.OpenAiEvents.{
  Env, default_workflow, span_kind, trace_event, span_type, span_agent, span_tool, span_event,
  segment_id,
}
use farfield.Integrations.OpenAiBuffer.{
  Exporter, new_exporter, names_trace, evict, remember, note_traces, spans_of, note_spans, keys,
  add_all, buffered_spans, Stats, exporter_stats,
}

abbrev is_none {ℓ} : {A : Type ℓ} → Option A → Bool
is_none none = true
is_none (some _) = false

-- A turn of the loops of `export` and `flush`.
pub record Turn : Type 0 where
  pub aborted : Option Text
  pub prepare : List Event → Result (List WireEvent)
  pub send : Text → List WireEvent → Result (Unit {0})

-- `throwIfAborted`
abbrev pub throw_if_aborted : Option Text → Result (Unit {0})
throw_if_aborted none = ok tt
throw_if_aborted (some reason) = fault (raised reason)

-- `exportPayload`
unfoldable pub export_payload : Json → Result Fields
export_payload (obj fields) = ok fields
export_payload _ =
    fault (type_error (text "farfield: OpenAI Agents toJSON() must return an object"))

unfoldable pub export_payloads : List Json → Result (List Fields)
export_payloads [] = ok []
export_payloads (item ∷ items) = do
  payload ← export_payload item
  payloads ← export_payloads items
  ok (payload ∷ payloads)

abbrev default_trace : Text → Fields
default_trace id =
    field (text "object") (str (text "trace"))
      (field (text "id") (str id) (field (text "workflow_name") (str default_workflow) end))

-- A loop goes on behind a commit that has not thrown.
unfoldable pub then_go_on :
    Exporter × Result (Unit {0})
    → (Exporter → Exporter × Result (Unit {0}))
    → Exporter × Result (Unit {0})
then_go_on (e, ok _) rest = rest e
then_go_on (e, fault thrown) rest = (e, fault thrown)

module _ (env : Env) where
  open env use {sha256, place, stringify, describe}

  abbrev trace_id_of : Fields → Text
  trace_id_of trace = get_or (string_value (prop (text "id") trace)) (text "unknown")

  -- The events of a commit.
  unfoldable pub commit_events : Exporter → Fields → List Fields → Bool → List Event
  commit_events e trace spans include =
      let trace_id = trace_id_of trace in
      let conversation =
        external_id sha256 (get_or (string_value (prop (text "group_id") trace)) trace_id)
          (text "conv_openai_") in
      let workflow = get_or (string_value (prop (text "workflow_name") trace)) default_workflow in
      let of_spans = map (span_event env e.default_agent conversation workflow) spans in
      if include
      then trace_event env e.default_agent trace_id conversation workflow trace ∷ of_spans
      else of_spans

  abbrev count : Bool → ℕ
  count true = 1
  count false = 0

  -- What a commit leaves behind, when its request has ended.
  unfoldable pub committed :
      Exporter → List Fields → Bool → Result (Unit {0}) → Exporter × Result (Unit {0})
  committed e spans include (ok _) = (
    record e {
      traces_committed = e.traces_committed + count include;
      spans_committed = e.spans_committed + length spans;
    },
    ok tt,
  )
  committed e spans include (fault thrown) = (
    record e { failed_exports = e.failed_exports + 1; last_error = some (describe thrown) },
    fault thrown,
  )

  abbrev deliver : Turn → List Event → Result (Unit {0})
  deliver turn events = do
    prepared ← turn.prepare events
    turn.send (segment_id env prepared) prepared

  -- `#commitBatch`
  unfoldable pub commit_batch :
      Turn → Exporter → Fields → List Fields → Bool → Exporter × Result (Unit {0})
  commit_batch turn e trace spans include = elim (commit_events e trace spans include) [
    | [] ↦ (e, ok tt)
    | event ∷ events ↦ committed e spans include (deliver turn (event ∷ events))
  ]

  -- One round of the last loop of `export`, behind its test of the signal.
  unfoldable pub export_one : Turn → List Text → Text → Exporter → Exporter × Result (Unit {0})
  export_one turn new id e =
      commit_batch turn (record e { pending = delete id e.pending })
        (get_or (get id e.traces) (default_trace id)) (spans_of id e.pending) (mem_text id new)

  unfoldable pub export_ready :
      (ℕ → Turn) → List Text → List Text → Exporter → Exporter × Result (Unit {0})
  export_ready turn new [] e = (e, ok tt)
  export_ready turn new (id ∷ ready) e = elim (turn (length ready)).aborted [
    | some reason ↦ (e, fault (raised reason))
    | none ↦
        then_go_on (export_one (turn (length ready)) new id e)
          (λ e'. export_ready turn new ready e')
  ]

  -- The loops of `export` behind the reading of its items.
  unfoldable pub export_noted : (ℕ → Turn) → List Fields → Exporter → Exporter × Result (Unit {0})
  export_noted turn payloads e =
      let (noted, new) = note_traces payloads e [] in
      let spanned = record noted { pending = note_spans payloads noted.pending } in
      export_ready turn new (add_all (keys spanned.pending) new) spanned

  -- `export`; turns are counted by the traces that are left.
  unfoldable pub export :
      (ℕ → Turn) → Option Text → List Json → Exporter → Exporter × Result (Unit {0})
  export turn aborted items e = elim (throw_if_aborted aborted >> export_payloads items) [
    | fault thrown ↦ (e, fault thrown)
    | ok payloads ↦ export_noted turn payloads e
  ]

  -- The loop of `flush` over the spans that were pending.
  unfoldable pub flush_pending :
      (ℕ → Turn) → List (Text × List Fields) → Exporter → Exporter × Result (Unit {0})
  flush_pending turn [] e = (e, ok tt)
  flush_pending turn ((id, spans) ∷ more) e = elim (turn (length more)).aborted [
    | some reason ↦ (e, fault (raised reason))
    | none ↦
        then_go_on
          (commit_batch (turn (length more)) e (get_or (get id e.traces) (default_trace id)) spans
            (is_none (get id e.traces)))
          (λ e'. flush_pending turn more e')
  ]

  -- `flush`
  unfoldable pub flush_exporter : (ℕ → Turn) → Exporter → Exporter × Result (Unit {0})
  flush_exporter turn e = flush_pending turn e.pending (record e { pending = [] })

  -- `shutdown`
  unfoldable pub shutdown_exporter : (ℕ → Turn) → Exporter → Exporter × Result (Unit {0})
  shutdown_exporter turn e =
      let (e', result) = flush_exporter turn e in (record e' { traces = [] }, result)
