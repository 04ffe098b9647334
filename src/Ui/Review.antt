-- ===== src/Ui/Review.antt =====
-- server/ui/src/lib/conversation-review.ts: the blocks of a conversation.
pub mod Blocks
use farfield.Base.{
  ℕ, ◌-◌, Bool, true, false, not, ◌&&◌, ◌||◌, List, [], ◌∷◌, ◌++◌, Option, none, some, Text, text,
  text_eq, starts_with, mem_text, option_eq, get_or, length, keep, last?, if◌then◌else◌,
}
use farfield.Ui.History.{TimelineEntry, Engine, has_kind, is_reasoning_entry}
use farfield.Ui.History.Analysis.{find_last, lowered, add_present}

pub data Role : Type 0 where
  user : Role
  assistant : Role

pub record ReviewMessageBlock : Type 0 where
  pub id : Text
  pub entry : TimelineEntry
  pub role : Role
  pub is_latest_assistant : Bool

pub record ReviewActivityBlock : Type 0 where
  pub id : Text
  pub entries : List TimelineEntry
  pub duration : Option ℕ
  pub tool_calls : ℕ
  pub tool_results : ℕ
  pub model_events : ℕ
  pub reasoning_events : ℕ
  pub errors : ℕ
  pub tools : List Text

pub data ReviewBlock : Type 0 where
  message : ReviewMessageBlock → ReviewBlock
  activity : ReviewActivityBlock → ReviewBlock

-- `isMessage`
unfoldable pub is_message : TimelineEntry → Bool
is_message entry = has_kind (text "message.user") entry || has_kind (text "message.assistant") entry

-- `Math.max(0, stop - start)`; NaN is none.
abbrev pub duration_between : Option ℕ → Option ℕ → Option ℕ
duration_between (some start) (some stop) = some (stop - start)
duration_between _ _ = none

-- `status === "error" || status === "failed" || status === "cancelled"`
abbrev pub is_error : Text → Bool
is_error status =
    text_eq status (text "error")
    || text_eq status (text "failed")
    || text_eq status (text "cancelled")

abbrev count : (TimelineEntry → Bool) → List TimelineEntry → ℕ
count p entries = length (keep p entries)

-- The tools that have a name, as a Set.
unfoldable pub tools_of : List TimelineEntry → List Text → List Text
tools_of [] set = set
tools_of (entry ∷ entries) set = tools_of entries (add_present entry.history_record.tool set)

module _ (engine : Engine) where
  open engine use {get_time}

  -- `hasError`
  unfoldable pub has_error : TimelineEntry → Bool
  has_error entry = elim (lowered engine entry.history_record.status) [
    | none ↦ false
    | some status ↦ is_error status
  ]

  abbrev is_model_event : TimelineEntry → Bool
  is_model_event entry =
      starts_with entry.history_record.kind (text "model.") && not (is_reasoning_entry engine entry)

  -- `activityBlock`, of entries that are given as the first one and the others.
  unfoldable pub activity_block : TimelineEntry → List TimelineEntry → ReviewActivityBlock
  activity_block first others =
      let entries = first ∷ others in
      let last = get_or (last? entries) first in
      record {
        id = text "activity:" ++ (first.history_record.id ++ (text ":" ++ last.history_record.id));
        entries = entries;
        duration =
            duration_between (get_time first.history_record.occurred_at)
              (get_time last.history_record.occurred_at);
        tool_calls = count (has_kind (text "tool.call")) entries;
        tool_results = count (has_kind (text "tool.result")) entries;
        model_events = count is_model_event entries;
        reasoning_events = count (is_reasoning_entry engine) entries;
        errors = count has_error entries;
        tools = tools_of entries [];
      }

  -- `flushActivity`, without the reset of the entries that are pending.
  unfoldable pub flush_activity : List TimelineEntry → List ReviewBlock → List ReviewBlock
  flush_activity [] blocks = blocks
  flush_activity (entry ∷ entries) blocks = blocks ++ activity (activity_block entry entries) ∷ []

  abbrev pub message_block : Option Text → TimelineEntry → ReviewMessageBlock
  message_block latest entry = record {
    id = entry.history_record.id;
    entry = entry;
    role = if has_kind (text "message.user") entry then user else assistant;
    is_latest_assistant = option_eq (some entry.history_record.id) latest;
  }

  -- The loop, with the entries that are pending and the blocks, and the flush behind it.
  unfoldable pub build_blocks :
      Option Text → List TimelineEntry → List TimelineEntry → List ReviewBlock → List ReviewBlock
  build_blocks latest [] pending blocks = flush_activity pending blocks
  build_blocks latest (entry ∷ entries) pending blocks =
      if not (is_message entry)
      then build_blocks latest entries (pending ++ entry ∷ []) blocks
      else build_blocks latest entries []
          (flush_activity pending blocks ++ message (message_block latest entry) ∷ [])

  abbrev pub id_of : Option TimelineEntry → Option Text
  id_of none = none
  id_of (some entry) = some entry.history_record.id

  -- `buildReviewBlocks`
  unfoldable pub build_review_blocks : List TimelineEntry → List ReviewBlock
  build_review_blocks entries =
      build_blocks (id_of (find_last (has_kind (text "message.assistant")) entries)) entries [] []
