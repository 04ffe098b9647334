-- ===== src/Integrations/OpenAiEvents.antt =====
-- sdk/typescript/src/integrations/openai-agents.ts: the events that are made of traces and spans,
-- and the id of their segment.
use farfield.Base.{
  List, [], ◌∷◌, ◌++◌, map, Option, none, some, Text, text, text_eq, get_or, or_else, take, join,
  if◌then◌else◌,
}
use farfield.Base.Map.{get}
use farfield.Base.Sorting.{sort_texts}
use farfield.Sdk.Types.{Value, Event, WireEvent, Moment, stamp}
use farfield.Sdk.Client.{Fault}
use farfield.Integrations.Payload.{
  Json, str, obj, Fields, end, field, json_value, prop, string_value, payload_value, truthy,
}
use farfield.Integrations.Ids.{record_id}
use farfield.Integrations.Claude.{present}

abbrev started : Option Text → Option Moment
started none = none
started (some at) = some (stamp at)

-- What the exporter calls and does not implement: SHA-256 in hexadecimal, the layout of a tree in
-- the heap, `JSON.stringify`, and the message of an error.
pub record Env : Type 0 where
  pub sha256 : Text → Text
  pub place : Json → Value
  pub stringify : Fields → Text
  pub describe : Fault → Text

abbrev pub default_workflow : Text
default_workflow = text "OpenAI Agent workflow"

abbrev known_kinds : List (Text × Text)
known_kinds =
    (text "agent", text "agent.invoke")
    ∷ (text "task", text "agent.task")
    ∷ (text "turn", text "agent.turn")
    ∷ (text "generation", text "model.generation")
    ∷ (text "response", text "model.generation")
    ∷ (text "function", text "tool.execution")
    ∷ (text "mcp_tools", text "tool.execution")
    ∷ (text "handoff", text "agent.handoff")
    ∷ (text "guardrail", text "guardrail")
    ∷ (text "transcription", text "voice.transcription")
    ∷ (text "speech", text "voice.synthesis")
    ∷ (text "speech_group", text "voice.session")
    ∷ (text "custom", text "trace.span")
    ∷ []

-- `spanKind`, for types that are no properties of `Object.prototype`.
unfoldable pub span_kind : Text → Text
span_kind type = take 128 (get_or (get type known_kinds) (text "openai." ++ type))

module _ (env : Env) where
  open env use {sha256, place, stringify, describe}

  abbrev content_of : Text → Text → Fields → Value
  content_of schema key payload =
      place (obj (field (text "schema") (str schema) (field key (json_value (obj payload)) end)))

  -- The event of a trace.
  unfoldable pub trace_event : Option Text → Text → Text → Text → Fields → Event
  trace_event default_agent trace_id conversation workflow trace = record {
    scope = record {
      conversation_id = some conversation;
      trace_id = some trace_id;
      span_id = none;
      parent_id = none;
      agent = default_agent;
      tags = some (
          (text "farfield.source", text "openai-agents")
          ∷ (text "workflow", take 1024 workflow)
          ∷ []);
    };
    kind = text "agent.trace";
    content = content_of (text "farfield.openai_agents.trace.v1") (text "trace") trace;
    id = some (record_id sha256 (text "openai_trace_") trace_id);
    occurred_at = none;
    sequence = none;
    tool = none;
    status = none;
  }

  -- The type of a span, which a custom span may name in its data.
  unfoldable pub span_type : Fields → Text
  span_type data' =
      let raw = get_or (string_value (prop (text "type") data')) (text "custom") in
      let custom = payload_value (prop (text "data") data') in
      if text_eq raw (text "custom")
      then get_or (string_value (prop (text "sdk_span_type") custom)) raw
      else raw

  unfoldable pub span_agent : Option Text → Text → Fields → Option Text
  span_agent default_agent type data' =
      let custom = payload_value (prop (text "data") data') in
      if text_eq type (text "agent")
      then or_else (string_value (prop (text "name") data')) default_agent
      else if text_eq type (text "turn")
      then or_else (string_value (prop (text "agent_name") custom)) default_agent
      else default_agent

  unfoldable pub span_tool : Text → Fields → Option Text
  span_tool type data' =
      if text_eq type (text "function")
      then string_value (prop (text "name") data')
      else if text_eq type (text "mcp_tools")
      then string_value (prop (text "server") data')
      else none

  -- `#spanEvent`
  unfoldable pub span_event : Option Text → Text → Text → Fields → Event
  span_event default_agent conversation workflow span =
      let data' = payload_value (prop (text "span_data") span) in
      let type = span_type data' in
      let span_id = string_value (prop (text "id") span) in
      record {
        scope = record {
          conversation_id = some conversation;
          trace_id = string_value (prop (text "trace_id") span);
          span_id = span_id;
          parent_id = string_value (prop (text "parent_id") span);
          agent = present (span_agent default_agent type data');
          tags = some (
              (text "farfield.source", text "openai-agents")
              ∷ (text "openai.span.type", take 1024 type)
              ∷ (text "workflow", take 1024 workflow)
              ∷ []);
        };
        kind = span_kind type;
        content = content_of (text "farfield.openai_agents.span.v1") (text "span") span;
        id =
            some
              (record_id sha256 (text "openai_span_") (get_or span_id (sha256 (stringify span))));
        occurred_at = started (string_value (prop (text "started_at") span));
        sequence = none;
        tool = span_tool type data';
        status = some (if truthy (prop (text "error") span) then text "error" else text "ok");
      }

  -- The id of a segment depends on the ids of its events alone.
  unfoldable pub segment_id : List WireEvent → Text
  segment_id prepared =
      text "openai_" ++ sha256 (join (text "\n") (sort_texts (map (λ e. e.id) prepared)))
