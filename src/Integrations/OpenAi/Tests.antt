-- ===== src/Integrations/OpenAi/Tests.antt =====
-- The exporter on small inputs, sdk/typescript/src/integrations/openai-agents.ts.
use farfield.Base.{◌≡◌, refl, [], ◌∷◌, none, some, Text, text, text_eq, mem_text, add_text, arith}
use farfield.Base.Map.{get, put, delete}
use farfield.Sdk.Types.{Value, WireEvent}
use farfield.Sdk.Client.{ok, fault, raised, ◌>>◌}
use farfield.Integrations.Payload.{Json, str, obj, Fields, end, field, prop, string_value}
use farfield.Integrations.OpenAi.{
  Turn, commit_events, committed, commit_batch, export_one, then_go_on, export_ready, export_noted,
  export, export_payload, export_payloads, throw_if_aborted, flush_pending, flush_exporter,
}
use farfield.Integrations.OpenAiEvents.{Env, segment_id}
use farfield.Integrations.OpenAiBuffer.{
  Exporter, note_traces, note_spans, names_trace, remember, evict, add_all, buffered_spans,
}
use farfield.Integrations.OpenAi.Spans.{IsExport, export-IsExport}
use farfield.Integrations.OpenAi.Flushes.{IsEmptied, flush_exporter-IsEmptied, flush_exporter-lost}
use farfield.Integrations.OpenAi.Segments.{segment_id-Perm}
use farfield.Integrations.OpenAi.Runs.{FlushRun}
use mathlib.Core.List.{Permᴰ}

abbrev env : Env
env = record {
  sha256 = λ s. s;
  place = λ j. Value.null;
  stringify = λ f. [];
  describe = λ f. text "failed";
}

abbrev fresh : Exporter
fresh = record {
  default_agent = none;
  max_trace_cache = 1;
  traces = [];
  pending = [];
  traces_committed = 0;
  spans_committed = 0;
  failed_exports = 0;
  last_error = none;
}

abbrev accepting : Turn
accepting = record { aborted = none; prepare = λ es. ok []; send = λ id es. ok tt }

abbrev rejecting : Turn
rejecting = record {
  aborted = none;
  prepare = λ es. ok [];
  send = λ id es. fault (raised (text "no"));
}

abbrev given_trace : Fields
given_trace = field (text "object") (str (text "trace")) (field (text "id") (str (text "t1")) end)

abbrev a_trace : Json
a_trace = obj given_trace

abbrev a_span : Fields
a_span =
    field (text "object") (str (text "trace.span"))
      (field (text "id") (str (text "s1")) (field (text "trace_id") (str (text "t1")) end))

computes : Unit {0}
unfolding get put delete text text_eq mem_text add_text prop string_value commit_events committed
    commit_batch export_one then_go_on export_ready export_noted export export_payload
    export_payloads note_traces note_spans names_trace remember evict add_all buffered_spans
    flush_pending flush_exporter
computes = tt

-- A trace and its span are committed in one request.
export_test :
    ((export env (λ n. accepting) none (a_trace ∷ obj a_span ∷ []) fresh).0.traces_committed ≡ 1)
    × ((export env (λ n. accepting) none (a_trace ∷ obj a_span ∷ []) fresh).0.spans_committed ≡ 1)
unfolding computes
export_test = (refl, refl)

-- A request that fails loses them.
rejected_test :
    ((export env (λ n. rejecting) none (a_trace ∷ obj a_span ∷ []) fresh).0.failed_exports ≡ 1)
    × ((export env (λ n. rejecting) none (a_trace ∷ obj a_span ∷ []) fresh).0.pending ≡ [])
unfolding computes
rejected_test = (refl, refl)

export-IsExport_example :
    IsExport env
      (λ n. accepting)
      (throw_if_aborted none >> export_payloads (a_trace ∷ obj a_span ∷ []))
      fresh
      (export env (λ n. accepting) none (a_trace ∷ obj a_span ∷ []) fresh)
export-IsExport_example =
    export-IsExport env (λ n. accepting) none (a_trace ∷ obj a_span ∷ []) fresh (omega arith, tt)

abbrev waiting : Exporter
waiting = record fresh { pending = (text "t1", a_span ∷ []) ∷ [] }

abbrev aborting : Turn
aborting = record accepting { aborted = some (text "stop") }

flush_exporter-IsEmptied_example :
    IsEmptied env waiting (flush_exporter env (λ n. accepting) waiting)
    × FlushRun env
        (λ n. accepting)
        waiting
        waiting.pending
        (flush_exporter env (λ n. accepting) waiting).1
flush_exporter-IsEmptied_example = flush_exporter-IsEmptied env (λ n. accepting) waiting

flush_exporter-lost_example :
    (flush_exporter env (λ n. aborting) waiting
      ≡ (record waiting { pending = [] }, fault (raised (text "stop"))))
    × (flush_exporter env (λ n. accepting) (flush_exporter env (λ n. aborting) waiting).0
        ≡ (record waiting { pending = [] }, ok tt))
flush_exporter-lost_example =
    flush_exporter-lost env (λ n. aborting) (λ n. accepting) waiting (text "t1") (a_span ∷ []) []
      (text "stop") refl refl

abbrev wire : Text → WireEvent
wire id = record {
  id = id;
  conversation_id = text "c";
  kind = text "k";
  content = Value.null;
  occurred_at = text "t";
  sequence = none;
  trace_id = none;
  span_id = none;
  parent_id = none;
  agent = none;
  tool = none;
  status = none;
  tags = [];
}

segment_id-Perm_example :
    segment_id env (wire (text "b") ∷ wire (text "a") ∷ [])
    ≡ segment_id env (wire (text "a") ∷ wire (text "b") ∷ [])
segment_id-Perm_example =
    segment_id-Perm env (wire (text "b") ∷ wire (text "a") ∷ [])
      (wire (text "a") ∷ wire (text "b") ∷ []) (Permᴰ.swap refl refl)
