-- ===== src/Integrations/Claude.antt =====
-- sdk/typescript/src/integrations/claude-agent-sdk.ts: capture hooks for the Claude Agent SDK.
-- A hook's input is a tree with the two properties that the SDK types; `place` lays a tree out in
-- the heap, as the runtime does.
pub mod Hooks
mod Tests
use farfield.Base.{
  ℕ, Bool, true, false, List, [], ◌∷◌, ◌++◌, map, Option, none, some, Text, String, text, get_or,
  or_else, is_truthy, is_present, take, if◌then◌else◌,
}
use farfield.Base.Map.{get}
use farfield.Sdk.Types.{Value, Scope, Event}
use farfield.Sdk.Client.{Result, ok, fault, Fault, type_error, raised, require, ◌>>=◌, ◌>>◌}
use farfield.Sdk.Processor.{Processor, Prepared, Submitted, submit, submit_prepared}
use farfield.Integrations.Payload.{
  Json, null, str, obj, Fields, end, field, json_value, prop, string_value,
}
use farfield.Integrations.Ids.{valid_id, external_id, safe_optional_id}

-- `CLAUDE_AGENT_HOOK_EVENTS`
abbrev pub hook_events : List Text
hook_events = map text (
    "PreToolUse" ∷ "PostToolUse" ∷ "PostToolUseFailure" ∷ "PostToolBatch" ∷ "Notification"
    ∷ "UserPromptSubmit" ∷ "UserPromptExpansion" ∷ "SessionStart" ∷ "SessionEnd" ∷ "Stop"
    ∷ "StopFailure" ∷ "SubagentStart" ∷ "SubagentStop" ∷ "PreCompact" ∷ "PostCompact"
    ∷ "PermissionRequest" ∷ "PermissionDenied" ∷ "Setup" ∷ "TeammateIdle" ∷ "TaskCreated"
    ∷ "TaskCompleted" ∷ "Elicitation" ∷ "ElicitationResult" ∷ "ConfigChange" ∷ "WorktreeCreate"
    ∷ "WorktreeRemove" ∷ "InstructionsLoaded" ∷ "CwdChanged" ∷ "FileChanged" ∷ "DirectoryAdded"
    ∷ "MessageDisplay" ∷ [])

abbrev entry : String → String → Text × Text
entry key value = (text key, text value)

abbrev kinds : List (Text × Text)
kinds =
    entry "UserPromptSubmit" "message.user"
    ∷ entry "UserPromptExpansion" "message.expansion"
    ∷ entry "PreToolUse" "tool.call"
    ∷ entry "PostToolUse" "tool.result"
    ∷ entry "PostToolUseFailure" "tool.result"
    ∷ entry "PostToolBatch" "tool.batch"
    ∷ entry "PermissionRequest" "tool.permission"
    ∷ entry "PermissionDenied" "tool.permission"
    ∷ entry "SessionStart" "conversation.session.start"
    ∷ entry "SessionEnd" "conversation.session.end"
    ∷ entry "Stop" "agent.stop"
    ∷ entry "StopFailure" "agent.stop"
    ∷ entry "SubagentStart" "agent.subagent.start"
    ∷ entry "SubagentStop" "agent.subagent.stop"
    ∷ entry "PreCompact" "conversation.compact"
    ∷ entry "PostCompact" "conversation.compacted"
    ∷ entry "Notification" "agent.notification"
    ∷ entry "Setup" "agent.setup"
    ∷ entry "TeammateIdle" "agent.teammate.idle"
    ∷ entry "TaskCreated" "agent.task.created"
    ∷ entry "TaskCompleted" "agent.task.completed"
    ∷ entry "Elicitation" "agent.elicitation"
    ∷ entry "ElicitationResult" "agent.elicitation.result"
    ∷ entry "ConfigChange" "agent.config"
    ∷ entry "WorktreeCreate" "workspace.worktree.created"
    ∷ entry "WorktreeRemove" "workspace.worktree.removed"
    ∷ entry "InstructionsLoaded" "agent.instructions"
    ∷ entry "CwdChanged" "workspace.cwd"
    ∷ entry "FileChanged" "workspace.file"
    ∷ entry "DirectoryAdded" "workspace.directory"
    ∷ entry "MessageDisplay" "message.display"
    ∷ []

abbrev statuses : List (Text × Text)
statuses =
    entry "PreToolUse" "running"
    ∷ entry "PostToolUse" "ok"
    ∷ entry "PostToolUseFailure" "error"
    ∷ entry "PermissionDenied" "denied"
    ∷ entry "SessionStart" "running"
    ∷ entry "SessionEnd" "ok"
    ∷ entry "Stop" "ok"
    ∷ entry "StopFailure" "error"
    ∷ entry "SubagentStart" "running"
    ∷ entry "SubagentStop" "ok"
    ∷ entry "TaskCreated" "running"
    ∷ entry "TaskCompleted" "ok"
    ∷ []

-- `hookKind`; the event names of the SDK are no properties of `Object.prototype`.
unfoldable pub hook_kind : Text → Text
hook_kind event = get_or (get event kinds) (text "agent.hook")

-- `hookStatus`
unfoldable pub hook_status : Text → Option Text
hook_status event = get event statuses

pub record HookInput : Type 0 where
  pub hook_event_name : Text
  pub session_id : Text
  pub payload : Fields

abbrev or_null : Option Text → Json
or_null none = null
or_null (some s) = str s

abbrev when : Bool → Text → Option Text
when true s = some s
when false s = none

abbrev pub missing_session : Fault
missing_session = type_error (text "farfield: Claude Agent hook input is missing session_id")

-- `...(s ? { key: s } : {})`
abbrev pub present : Option Text → Option Text
present (some (c ∷ s)) = some (c ∷ s)
present _ = none

module _ (sha256 : Text → Text) (place : Json → Value) where
  abbrev pub tool_use_id : HookInput → Option Text → Option Text
  tool_use_id input callback_id =
      or_else (string_value (prop (text "tool_use_id") input.payload)) callback_id

  abbrev pub agent_id : HookInput → Option Text
  agent_id input = string_value (prop (text "agent_id") input.payload)

  -- The span of the tool's use, else of the agent.
  unfoldable pub span_of : HookInput → Option Text → Option Text
  span_of input callback_id =
      safe_optional_id sha256 (or_else (tool_use_id input callback_id) (agent_id input))
        (text "span_claude_")

  -- A tool's use has the agent for its parent.
  unfoldable pub parent_of : HookInput → Option Text → Option Text
  parent_of input callback_id =
      if is_present (tool_use_id input callback_id)
      then safe_optional_id sha256 (agent_id input) (text "span_claude_")
      else none

  -- The object that `eventFromHook` returns.
  unfoldable pub hook_event : HookInput → Option Text → Option Text → Event
  hook_event input callback_id default_agent = record {
    scope = record {
      conversation_id = some (external_id sha256 input.session_id (text "conv_claude_"));
      trace_id = when (valid_id input.session_id) input.session_id;
      span_id = span_of input callback_id;
      parent_id = parent_of input callback_id;
      agent =
          present (or_else (string_value (prop (text "agent_type") input.payload)) default_agent);
      tags = some (
          (text "farfield.source", text "claude-agent-sdk")
          ∷ (text "claude.hook.event", take 1024 input.hook_event_name)
          ∷ []);
    };
    kind = hook_kind input.hook_event_name;
    content = place (
        obj (
          field (text "schema") (str (text "farfield.claude_agent_sdk.hook.v1")) (
            field (text "hook") (json_value (obj input.payload))
              (field (text "callback_tool_use_id") (or_null callback_id) end))));
    id = none;
    occurred_at = none;
    sequence = none;
    tool = string_value (prop (text "tool_name") input.payload);
    status = hook_status input.hook_event_name;
  }

  -- `eventFromHook`
  unfoldable pub event_from_hook : HookInput → Option Text → Option Text → Result Event
  event_from_hook input callback_id default_agent = do
    require (is_truthy input.session_id) missing_session
    ok (hook_event input callback_id default_agent)

  -- `capture` up to the await of `submit`: the event that is submitted. An aborted signal throws
  -- its reason first.
  unfoldable pub capture_hook : Option Text → HookInput → Option Text → Option Text → Result Event
  capture_hook (some reason) input callback_id default_agent = fault (raised reason)
  capture_hook none input callback_id default_agent =
      event_from_hook input callback_id default_agent

pub record Matcher : Type 0 where
  pub timeout : Option ℕ

-- `matchers`: each event has one matcher, whose hook is `capture`.
unfoldable pub matchers : Option ℕ → List (Text × List Matcher)
matchers timeout = map (λ event. (event, record { timeout = timeout } ∷ [])) hook_events
