-- ===== src/Ui/History/Analysis.antt =====
-- `analyzeSession`, server/ui/src/lib/history.ts.
pub mod Status
pub mod Tallies
use farfield.Base.{
  ℕ, ◌-◌, leb, Bool, true, false, not, ◌&&◌, ◌||◌, List, [], ◌∷◌, map, Option, none, some, Text,
  text, is_truthy, is_present, mem_text, add_text, get_or, or_else, length, keep, any, last?,
  if◌then◌else◌,
}
use farfield.Sdk.Types.{Number}
use farfield.Integrations.Payload.{Json, Fields, prop}
use farfield.Ui.History.{
  TimelineEntry, Engine, has_kind, as_object, as_text, as_number, prop_of, first_number,
  is_reasoning_entry,
}

-- Whole numbers: `negsuc n` is -(n + 1).
pub data ℤ : Type 0 where
  pos : ℕ → ℤ
  negsuc : ℕ → ℤ

pub data SessionStatus : Type 0 where
  complete : SessionStatus
  running : SessionStatus
  failed : SessionStatus
  captured : SessionStatus

-- `SessionAnalysis`
pub record SessionAnalysis : Type 0 where
  pub status : SessionStatus
  pub duration : Option ℤ
  pub turns : ℕ
  pub tool_calls : ℕ
  pub model_calls : ℕ
  pub input_tokens : Number
  pub output_tokens : Number
  pub reasoning_tokens : Number
  pub cache_read_tokens : Number
  pub reasoning_events : ℕ
  pub prompt : Option Text
  pub models : List Text
  pub traces : List Text

-- The variables of the loop.
pub record Tally : Type 0 where
  pub input_tokens : Number
  pub output_tokens : Number
  pub reasoning_tokens : Number
  pub cache_read_tokens : Number
  pub prompt : Option Text
  pub models : List Text
  pub traces : List Text

-- `[...entries].reverse().find(p)`
unfoldable pub find_last : (TimelineEntry → Bool) → List TimelineEntry → Option TimelineEntry
find_last p [] = none
find_last p (entry ∷ entries) = or_else (find_last p entries) (if p entry then some entry else none)

abbrev pub is_completed : TimelineEntry → Bool
is_completed = has_kind (text "agent.turn.completed")

abbrev pub is_failure : Text → Bool
is_failure status = mem_text status (text "failed" ∷ text "error" ∷ text "cancelled" ∷ [])

-- `if (s) set.add(s)`
abbrev pub add_present : Option Text → List Text → List Text
add_present (some (c ∷ s)) set = add_text (c ∷ s) set
add_present _ set = set

abbrev pub add_found : Option Text → List Text → List Text
add_found none set = set
add_found (some s) set = add_text s set

abbrev pub requested_model : TimelineEntry → Fields → Option Text
requested_model entry content =
    if has_kind (text "model.request") entry then as_text (prop (text "model") content) else none

abbrev pub user_text : TimelineEntry → Fields → Option Text
user_text entry content =
    if has_kind (text "message.user") entry then as_text (prop (text "text") content) else none

unfoldable pub minus : ℕ → ℕ → ℤ
minus a b = if leb b a then pos (a - b) else negsuc (b - a - 1)

-- The difference of two times; NaN is none.
abbrev elapsed : Option ℕ → Option ℕ → Option ℤ
elapsed (some start) (some stop) = some (minus stop start)
elapsed _ _ = none

abbrev count_kind : Text → List TimelineEntry → ℕ
count_kind kind entries = length (keep (has_kind kind) entries)

module _ (engine : Engine) where
  open engine use {lower, get_time, add, zero_number}

  abbrev pub lowered : Option Text → Option Text
  lowered none = none
  lowered (some s) = some (lower s)

  -- The statuses that are not empty, lowered, as a Set.
  unfoldable pub statuses_of : List TimelineEntry → List Text → List Text
  statuses_of [] set = set
  statuses_of (entry ∷ entries) set =
      statuses_of entries (add_present (lowered entry.history_record.status) set)

  unfoldable pub status_of : List TimelineEntry → SessionStatus
  status_of entries =
      let statuses = statuses_of entries [] in
      elim (find_last is_completed entries) [
        | some terminal ↦
            if is_failure (get_or (lowered terminal.history_record.status) [])
            then failed
            else complete
        | none ↦
            if any is_failure statuses
            then failed
            else if mem_text (text "running") statuses
            then running
            else captured
      ]

  abbrev number_or_zero : Option Number → Number
  number_or_zero n = get_or n zero_number

  -- The usage of a turn that is completed.
  unfoldable pub add_usage : Option Fields → Tally → Tally
  add_usage usage t =
      let output_details = as_object (prop_of (text "output_tokens_details") usage) in
      let completion_details = as_object (prop_of (text "completion_tokens_details") usage) in
      let input_details = as_object (prop_of (text "input_tokens_details") usage) in
      record t {
        input_tokens =
            add t.input_tokens (number_or_zero (as_number (prop_of (text "input_tokens") usage)));
        output_tokens =
            add t.output_tokens (number_or_zero (as_number (prop_of (text "output_tokens") usage)));
        reasoning_tokens = add t.reasoning_tokens (
            number_or_zero (
              first_number (
                prop_of (text "reasoning_tokens") usage
                ∷ prop_of (text "reasoning_tokens") output_details
                ∷ prop_of (text "reasoning_tokens") completion_details
                ∷ [])));
        cache_read_tokens = add t.cache_read_tokens (
            number_or_zero (
              first_number (
                prop_of (text "cache_read_input_tokens") usage
                ∷ prop_of (text "cached_input_tokens") usage
                ∷ prop_of (text "cached_tokens") input_details
                ∷ [])));
      }

  -- A turn of the loop behind its test of the content.
  unfoldable pub tally_content : TimelineEntry → Fields → Tally → Tally
  tally_content entry content t =
      let read = record t {
        prompt =
            if is_present t.prompt then t.prompt else or_else (user_text entry content) t.prompt;
        models = add_found (requested_model entry content) t.models;
      } in
      if is_completed entry then add_usage (as_object (prop (text "usage") content)) read else read

  -- A turn of the loop.
  unfoldable pub tally_entry : TimelineEntry → Tally → Tally
  tally_entry entry t =
      let traced = record t { traces = add_present entry.history_record.trace_id t.traces } in
      elim (as_object (some entry.content)) [
        | none ↦ traced
        | some content ↦ tally_content entry content traced
      ]

  -- The loop.
  unfoldable pub tally : List TimelineEntry → Tally → Tally
  tally [] t = t
  tally (entry ∷ entries) t = tally entries (tally_entry entry t)

  abbrev pub no_tally : Tally
  no_tally = record {
    input_tokens = zero_number;
    output_tokens = zero_number;
    reasoning_tokens = zero_number;
    cache_read_tokens = zero_number;
    prompt = none;
    models = [];
    traces = [];
  }

  -- `duration`
  unfoldable pub session_duration : List TimelineEntry → Option ℤ
  session_duration [] = some (pos 0)
  session_duration (entry ∷ entries) =
      let start = entry.history_record.occurred_at in
      let stop = (get_or (last? entries) entry).history_record.occurred_at in
      if is_truthy start && is_truthy stop
      then elapsed (get_time start) (get_time stop)
      else some (pos 0)

  -- `analyzeSession`
  unfoldable pub analyze_session : List TimelineEntry → SessionAnalysis
  analyze_session entries =
      let t = tally entries no_tally in
      record {
        status = status_of entries;
        duration = session_duration entries;
        turns = count_kind (text "agent.turn.started") entries;
        tool_calls = count_kind (text "tool.call") entries;
        model_calls = count_kind (text "model.request") entries;
        input_tokens = t.input_tokens;
        output_tokens = t.output_tokens;
        reasoning_tokens = t.reasoning_tokens;
        cache_read_tokens = t.cache_read_tokens;
        reasoning_events = length (keep (is_reasoning_entry engine) entries);
        prompt = t.prompt;
        models = t.models;
        traces = t.traces;
      }
