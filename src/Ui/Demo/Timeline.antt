-- ===== src/Ui/Demo/Timeline.antt =====
-- The timeline of a demonstration's session, server/ui/src/lib/demo-data.ts.
use farfield.Base.{
  ℕ, zero, suc, ◌+◌, ◌-◌, ◌*◌, ◌==◌, Bool, true, false, ◌&&◌, ◌||◌, List, [], ◌∷◌, ◌++◌, Option,
  none, some, Text, text, text_eq, get_or, decimal, if◌then◌else◌,
}
use farfield.Integrations.Payload.{Json, boolean, number, str}
use farfield.Ui.Demo.{
  Failure, Scenario, Clock, dashless, cycled, provider_for_model, object, texts, count, tool_input,
  tool_result,
}

abbrev pub terminal_of : Option Failure → Option Failure
terminal_of none = none
terminal_of (some failure) = if failure.terminal then some failure else none

abbrev ends_badly : Scenario → Bool
ends_badly scenario = has_some (terminal_of scenario.failure)
  where
    has_some : Option Failure → Bool
    has_some none = false
    has_some (some _) = true

-- `middleKinds`
abbrev middle_kinds : List Text
middle_kinds =
    text "model.reasoning"
    ∷ text "tool.call"
    ∷ text "tool.result"
    ∷ text "model.response"
    ∷ text "message.assistant"
    ∷ text "tool.call"
    ∷ text "tool.result"
    ∷ text "test.evidence"
    ∷ []

-- The kinds that the loop pushes: so many, from an index on.
unfoldable pub fill_kinds : ℕ → ℕ → List Text
fill_kinds zero index = []
fill_kinds (suc n) index = get_or (cycled index middle_kinds) [] ∷ fill_kinds n (suc index)

-- `kinds`
unfoldable pub kinds_of : Scenario → List Text
kinds_of scenario =
    (text "agent.turn.started" ∷ text "message.user" ∷ text "model.request" ∷ [])
    ++ (fill_kinds (scenario.records - 2 - 3) 0
        ++ text "message.assistant" ∷ text "agent.turn.completed" ∷ [])

-- What the callback of `map` keeps between two entries.
pub record Progress : Type 0 where
  pub active_tool : Text
  pub tool_call_count : ℕ
  pub active_tool_call : ℕ
  pub pending_failure_narration : Bool
  pub failed_tool : Option Text

abbrev has_kind : Text → Text → Bool
has_kind kind s = text_eq kind s

-- `failureToolCall`, of so many calls.
abbrev pub failure_tool_call : ℕ → Option Failure → Option ℕ
failure_tool_call total none = none
failure_tool_call total (some failure) = some (get_or failure.tool_call total)

abbrev is_call_number : Option ℕ → ℕ → Bool
is_call_number none n = false
is_call_number (some m) n = n == m

-- The change behind a `tool.call`.
unfoldable pub note_call : Scenario → Text → Progress → Progress
note_call scenario kind p =
    if has_kind kind (text "tool.call")
    then record p {
      active_tool = get_or (cycled p.tool_call_count scenario.tools) [];
      tool_call_count = p.tool_call_count + 1;
      active_tool_call = p.tool_call_count + 1;
    }
    else p

-- `toolFailed`
abbrev pub tool_failed : Option ℕ → Text → Progress → Bool
tool_failed failing kind p =
    has_kind kind (text "tool.result") && is_call_number failing p.active_tool_call

-- `narratesFailure`
abbrev pub narrates_failure : Text → Progress → Bool
narrates_failure kind p = has_kind kind (text "message.assistant") && p.pending_failure_narration

-- The changes behind the two tests.
unfoldable pub note_failure : Option ℕ → Text → Progress → Progress
note_failure failing kind p =
    let narrates = narrates_failure kind p in
    let q : Progress =
      if tool_failed failing kind p
      then record p { pending_failure_narration = true; failed_tool = some p.active_tool }
      else p in
    if narrates then record q { pending_failure_narration = false; failed_tool = none } else q

-- `status`
unfoldable pub demo_status : Scenario → Bool → Text → Option Text
demo_status scenario failed kind =
    if failed || (has_kind kind (text "agent.turn.completed") && ends_badly scenario)
    then some (text "failed")
    else if has_kind kind (text "agent.turn.started")
    then some (text "running")
    else if has_kind kind (text "agent.turn.completed") || has_kind kind (text "tool.result")
    then some (text "complete")
    else none

module _ (clock : Clock) where
  open clock use {double, occurred, recorded, size}

  abbrev pub bold : Text → Text
  bold s = text "**" ++ (s ++ text "**")

  abbrev error_of : Failure → Json
  error_of failure =
      object ((text "code", str failure.code) ∷ (text "message", str failure.message) ∷ [])

  abbrev usage_of : Scenario → Json
  usage_of scenario = object (
      (text "input_tokens", count clock (18400 + scenario.records * 211))
      ∷ (text "output_tokens", count clock (2100 + scenario.records * 43))
      ∷ (
        text "output_tokens_details",
        object ((text "reasoning_tokens", count clock (720 + scenario.records * 9)) ∷ []),
      )
      ∷ (text "cache_read_input_tokens", count clock 6200)
      ∷ (text "service_tier", str (text "standard"))
      ∷ [])

  -- The content of the end of a turn.
  unfoldable pub turn_content : Scenario → Json
  turn_content scenario = elim (terminal_of scenario.failure) [
    | none ↦
        object
          ((text "stop_reason", str (text "end_turn")) ∷ (text "usage", usage_of scenario) ∷ [])
    | some failure ↦ object (
        (text "stop_reason", str (text "error"))
        ∷ (text "error", error_of failure)
        ∷ (text "usage", usage_of scenario)
        ∷ [])
  ]

  -- `contentForKind`; 0.94 by its bits.
  unfoldable pub content_for_kind : Text → Scenario → ℕ → Text → Bool → Json
  content_for_kind kind scenario index tool failed =
      let named = dashless scenario.slug in
      let model_fields =
        (text "model", str scenario.model)
        ∷ (text "provider", str (provider_for_model scenario.model))
        ∷ [] in
      if has_kind kind (text "agent.turn.started")
      then object
          ((text "prompt_name", str scenario.slug) ∷ (text "objective", str scenario.prompt) ∷ [])
      else if has_kind kind (text "message.user")
      then object ((text "text", str scenario.prompt) ∷ [])
      else if has_kind kind (text "model.request")
      then object (
          model_fields
          ++ ((text "max_tokens", count clock 4096)
              ∷ (text "message_count", count clock (4 + index))
              ∷ (text "tools", texts scenario.tools)
              ∷ []))
      else if has_kind kind (text "model.reasoning")
      then object (
          (text "type", str (text "reasoning"))
          ∷ (
            text "text",
            str (
                text "Checking the captured evidence and constraints for "
                ++ (named ++ text " before the next action.")),
          )
          ∷ (text "token_count", count clock (320 + index * 7))
          ∷ [])
      else if has_kind kind (text "model.response")
      then object (model_fields ++ ((text "stop_reason", str (text "tool_use")) ∷ []))
      else if has_kind kind (text "tool.call")
      then object
          ((text "name", str tool) ∷ (text "input", tool_input clock tool scenario index) ∷ [])
      else if has_kind kind (text "tool.result")
      then tool_result clock tool scenario index failed
      else if has_kind kind (text "test.evidence")
      then object (
          (text "check", str (text "evidence-" ++ decimal (index + 1)))
          ∷ (text "passed", boolean true)
          ∷ (text "confidence", number (record { bits = 0x3fee147ae147ae14 }))
          ∷ [])
      else if has_kind kind (text "message.assistant")
      then object (
          (
            text "text",
            str (
                text "Checkpoint "
                ++ (decimal (index + 1)
                    ++ (text ": evidence reconciled for "
                        ++ (bold named
                            ++ text ". Continuing with the remaining verification steps.")))),
          )
          ∷ [])
      else if has_kind kind (text "agent.turn.completed")
      then turn_content scenario
      else object ((text "name", str kind) ∷ (text "index", count clock index) ∷ [])
