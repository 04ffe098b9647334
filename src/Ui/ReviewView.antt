-- ===== src/Ui/ReviewView.antt =====
-- server/ui/src/components/conversation-review.tsx: what the review of a conversation shows.
pub mod Shown
mod Tests
use farfield.Base.{
  ℕ, ltb, ◌==◌, Bool, true, false, not, ◌&&◌, ◌||◌, List, [], ◌∷◌, ◌++◌, Option, none, some, Text,
  text, text_eq, starts_with, is_truthy, mem_text, add_text, any, keep, length, join, decimal,
  last?, get_or, if◌then◌else◌,
}
use farfield.Integrations.Payload.{Json}
use farfield.Ui.History.{TimelineEntry, Engine, as_object, as_text, prop_of, is_reasoning_entry}
use farfield.Ui.Review.{
  Role, user, assistant, ReviewMessageBlock, ReviewActivityBlock, ReviewBlock, message, activity,
  build_review_blocks,
}
use farfield.Ui.Format.{format_duration}

pub record Review : Type 0 where
  pub expanded_activities : List Text
  pub expanded_messages : List Text

-- The effect behind other entries, and the first state.
abbrev pub collapsed : Review
collapsed = record { expanded_activities = []; expanded_messages = [] }

-- `set.delete`
unfoldable pub delete_text : Text → List Text → List Text
delete_text s [] = []
delete_text s (t ∷ ts) = let rest = delete_text s ts in if text_eq t s then rest else t ∷ rest

-- `onToggle`
unfoldable pub toggle : Text → List Text → List Text
toggle id set = if mem_text id set then delete_text id set else add_text id set

unfoldable pub toggle_message : Text → Review → Review
toggle_message id s = record s { expanded_messages = toggle id s.expanded_messages }

unfoldable pub toggle_activity : Text → Review → Review
toggle_activity id s = record s { expanded_activities = toggle id s.expanded_activities }

-- An entry that is no start or end of a turn.
abbrev pub is_content : TimelineEntry → Bool
is_content entry = not (starts_with entry.history_record.kind (text "agent.turn."))

-- The test of `visibleBlocks`.
abbrev pub is_visible : ReviewBlock → Bool
is_visible (message block) = true
is_visible (activity block) = any is_content block.entries

-- `messages`
unfoldable pub messages_of : List ReviewBlock → List ReviewMessageBlock
messages_of [] = []
messages_of (message block ∷ blocks) = block ∷ messages_of blocks
messages_of (activity block ∷ blocks) = messages_of blocks

abbrev is_assistant : ReviewMessageBlock → Bool
is_assistant block = is_role block.role
  where
    is_role : Role → Bool
    is_role user = false
    is_role assistant = true

-- `latestAssistant`
unfoldable pub latest_assistant : List ReviewBlock → Option ReviewMessageBlock
latest_assistant blocks = last? (keep is_assistant (messages_of blocks))

-- The title of a message, where `complete` says whether the session is.
unfoldable pub message_label : Bool → ReviewMessageBlock → Text
message_label complete block =
    if is_assistant block
    then (if block.is_latest_assistant
        then (if complete then text "Final response" else text "Latest agent response")
        else text "Agent response")
    else text "User prompt"

-- A number of things, with an s but for one.
abbrev counted : ℕ → Text → Text
counted n noun = decimal n ++ (b' ' ∷ (noun ++ (if n == 1 then [] else text "s")))

abbrev part : ℕ → Text → List Text
part n shown = if n == 0 then [] else shown ∷ []

abbrev summary_parts : ReviewActivityBlock → List Text
summary_parts block =
    part block.tool_calls (counted block.tool_calls (text "tool call"))
    ++ (part block.tool_results (counted block.tool_results (text "result"))
        ++ (part block.reasoning_events (decimal block.reasoning_events ++ text " reasoning")
            ++ (part block.model_events (counted block.model_events (text "model event"))
                ++ part block.errors (counted block.errors (text "error")))))

-- `summary`
unfoldable pub activity_summary : ReviewActivityBlock → Text
activity_summary block =
    let parts = join (text " · ") (summary_parts block) in
    if is_truthy parts then parts else counted (length block.entries) (text "record")

-- The duration of an activity.
unfoldable pub activity_duration : ReviewActivityBlock → Text
activity_duration block = shown_for block.duration
  where
    shown_for : Option ℕ → Text
    shown_for none = text "instant"
    shown_for (some n) = if n == 0 then text "instant" else format_duration (some n)

abbrev pub activity_title : ReviewActivityBlock → Text
activity_title block = if block.errors == 0 then text "Activity" else text "Activity issue"

-- `JSON.stringify(value, null, 2)` is given.
module _ (engine : Engine) (stringify : Json → Text) where
  -- `messageText`
  unfoldable pub message_text : TimelineEntry → Text
  message_text entry =
      get_or (as_text (prop_of (text "text") (as_object (some entry.content))))
        (stringify entry.content)

  -- Whether a message is cut until it is expanded: `long`.
  abbrev pub is_long : ReviewMessageBlock → Bool
  is_long block = ltb 1800 (length (message_text block.entry))

  -- `visibleBlocks`
  unfoldable pub visible_blocks : List TimelineEntry → List ReviewBlock
  visible_blocks entries = keep is_visible (build_review_blocks engine entries)

  -- The line below the title.
  unfoldable pub review_header : List TimelineEntry → Text
  review_header entries =
      let messages = length (messages_of (build_review_blocks engine entries)) in
      let reasoning = length (keep (is_reasoning_entry engine) entries) in
      counted messages (text "message")
      ++ ((if reasoning == 0 then [] else text " · " ++ counted reasoning (text "reasoning record"))
          ++ text " · captured content shown verbatim")
