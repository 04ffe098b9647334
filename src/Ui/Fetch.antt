-- ===== src/Ui/Fetch.antt =====
-- server/ui/src/lib/history.ts: how the viewer asks the server. The network is a function of the
-- address.
pub mod Client
pub mod Shown
mod Tests
use farfield.Base.{
  ℕ, Bool, true, false, List, ◌++◌, Option, none, some, Text, text, decimal, get_or, if◌then◌else◌,
}
use farfield.Sdk.Request.{is_success}
use farfield.Ui.History.{TimelineEntry}
use farfield.Ui.App.{ConversationSummary, Answer, loaded, broken, aborted}
use farfield.Ui.Demo.{Scenario, Clock}
use farfield.Ui.Demo.Entries.{demo_conversations, demo_timeline, is_demo_mode}

-- What the engine makes of a body: `JSON.parse`, with `none` for what it throws on, and the message
-- of that error; whether a value is null; and `value.error?.message` of one that is not.
pub record Engine (J : Type 0) : Type 0 where
  pub parse : Text → Option J
  pub unexpected : Text → Text
  pub is_null : J → Bool
  pub message_of : J → Option Text

-- What `fetch` gives: a response with its body, an error with its message, or the AbortError.
pub data Reply : Type 0 where
  responded : (status : ℕ) (body : Text) → Reply
  unreached : (message : Text) → Reply
  abandoned : Reply

module _ {J : Type 0} (engine : Engine J) where
  -- `readJSON`
  unfoldable pub read_json : ℕ → Text → Answer J
  read_json status body = elim (engine.parse body) [
    | none ↦ broken (engine.unexpected body)
    | some value ↦
        if is_success status
        then loaded value
        else if engine.is_null value
        then broken (text "Cannot read properties of null (reading 'error')")
        else broken
            (get_or (engine.message_of value) (text "Request failed with " ++ decimal status))
  ]

  unfoldable pub answered : Reply → Answer J
  answered (responded status body) = read_json status body
  answered (unreached message) = broken message
  answered abandoned = aborted

-- A value of the server as the type that the viewer gives it.
unfoldable pub as_type : {J A : Type 0} → (J → A) → Answer J → Answer A
as_type typed (loaded value) = loaded (typed value)
as_type typed (broken message) = broken message
as_type typed aborted = aborted

module _ {J : Type 0} (engine : Engine J) (time_of : Text → ℕ) (clock : Clock)
    (scenarios : List Scenario) (parameters : List (Text × Text)) (network : Text → Reply) where
  -- `fetchConversations`
  unfoldable pub fetch_conversations :
      (J → List ConversationSummary) → Answer (List ConversationSummary)
  fetch_conversations typed =
      if is_demo_mode parameters
      then loaded (demo_conversations time_of clock scenarios)
      else as_type typed (answered engine (network (text "/v1/history/conversations?limit=100")))

  -- `fetchTimeline`
  unfoldable pub fetch_timeline :
      (Text → Text) → (J → List TimelineEntry) → Text → Answer (List TimelineEntry)
  fetch_timeline encode_component typed id =
      if is_demo_mode parameters
      then loaded (demo_timeline clock scenarios id)
      else as_type typed (
          answered engine (
            network
              (text "/v1/history/conversations/" ++ (encode_component id ++ text "/timeline"))))
