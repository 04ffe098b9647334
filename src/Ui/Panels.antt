-- ===== src/Ui/Panels.antt =====
-- server/ui/src/components/trace-inspector.tsx: the panels that show an operation and its records.
-- A panel is what it shows, without the markup around it.
pub mod Detail
pub mod Results
mod Tests
use farfield.Base.{
  ℕ, suc, ◌+◌, ◌-◌, ◌==◌, ltb, Bool, true, false, not, ◌&&◌, ◌||◌, List, [], ◌∷◌, ◌++◌, map, Option,
  none, some, Text, text, text_eq, option_eq, is_truthy, is_present, get_or, or_else, take, length,
  decimal, if◌then◌else◌,
}
use farfield.Sdk.Types.{Number}
use farfield.Integrations.Payload.{
  Json, null, boolean, number, str, arr, obj, opaque, Items, nil, cons, Fields,
}
use farfield.Ui.History.{
  TimelineEntry, Engine, Category, tool, as_object, prop_of, as_text, as_number, has_items,
  count_items, has_kind, is_reasoning_entry, reasoning_text_for_entry, string_of,
}
use farfield.Ui.Operations.{TraceOperation}
use farfield.Ui.Format.{format_duration, short_id}

-- `ValueCell`: a label and the text that is shown for a value.
pub record Cell : Type 0 where
  pub label : Text
  pub shown : Text

-- A result of a search, with its link and age.
pub record Evidence : Type 0 where
  pub title : Text
  pub url : Option Text
  pub age : Option Text

pub data Panel : Type 0 where
  code : Json → Panel
  reasoning_panel : (tokens : Option Number) (body : Option Text) (content : Json) → Panel
  message_panel : (is_input : Bool) (body : Text) → Panel
  query_panel : (badge query : Text) → Panel
  input_panel : (badge : Text) (input : Json) → Panel
  evidence_panel : (results : ℕ) (shown : List Evidence) (additional : ℕ) → Panel
  output_panel : (failed : Bool) (badge : Text) (content : Json) → Panel
  request_panel : (provider : Option Text) (cells : List Cell) → Panel
  response_panel : List Cell → Panel
  turn_panel : (stop : Option Text) (ended : Bool) (cells : List Cell) → Panel

-- What the engine does beside the viewer's other calls: `JSON.stringify` and `Intl` of a number.
pub record Printing : Type 0 where
  pub engine : Engine
  pub stringify : Json → Text
  pub format_number : Number → Text

-- `value ?? other`
abbrev pub coalesce : Option Json → Option Json → Option Json
coalesce none other = other
coalesce (some null) other = other
coalesce (some value) other = some value

-- A text that is there and not empty.
abbrev if_present : Option Text → Option Text
if_present value = if is_present value then value else none

-- `array.map(asObject).filter(Boolean)`
unfoldable pub objects_of : Items → List Fields
objects_of nil = []
objects_of (cons (obj fields) items) = fields ∷ objects_of items
objects_of (cons _ items) = objects_of items

-- A result, at its index.
abbrev pub evidence_of : ℕ → Fields → Evidence
evidence_of index fields = record {
  title =
      get_or (as_text (prop_of (text "title") (some fields)))
        (text "Result " ++ decimal (index + 1));
  url = as_text (prop_of (text "url") (some fields));
  age = as_text (prop_of (text "page_age") (some fields));
}

unfoldable pub evidence_from : ℕ → List Fields → List Evidence
evidence_from index [] = []
evidence_from index (fields ∷ results) =
    evidence_of index fields ∷ evidence_from (suc index) results

-- The panel of results: the first eight, and how many more there are.
unfoldable pub evidence_panel_of : Items → Panel
evidence_panel_of items =
    let results = objects_of items in
    evidence_panel (length results) (evidence_from 0 (take 8 results)) (length results - 8)

abbrev is_failed_status : Option Text → Bool
is_failed_status status =
    option_eq status (some (text "error"))
    || option_eq status (some (text "failed"))
    || option_eq status (some (text "cancelled"))

module _ (printing : Printing) where
  open printing use {engine, stringify, format_number}

  -- `display` of `ValueCell`
  unfoldable pub display : Option Json → Text
  display none = text "—"
  display (some null) = text "—"
  display (some (arr items)) = stringify (arr items)
  display (some (obj fields)) = stringify (obj fields)
  display (some value) = string_of engine value

  abbrev cell : Text → Option Json → Cell
  cell label value = record { label = label; shown = display value }

  abbrev tokens_of : Option Number → Option Json
  tokens_of none = none
  tokens_of (some n) = some (str (format_number n ++ text " tokens"))

  abbrev items_shown : Option Items → Text
  items_shown none = text "0"
  items_shown (some items) = decimal (count_items items)

  unfoldable pub request_cells : Fields → List Cell
  request_cells fields =
      let content = some fields in
      cell (text "Model") (prop_of (text "model") content)
      ∷ cell (text "Max output") (tokens_of (as_number (prop_of (text "max_tokens") content)))
      ∷ cell (text "Messages") (prop_of (text "message_count") content)
      ∷ record {
        label = text "Tools available";
        shown = items_shown (has_items (prop_of (text "tools") content));
      }
      ∷ []

  unfoldable pub response_cells : TimelineEntry → Fields → List Cell
  response_cells entry fields =
      let content = some fields in
      cell (text "Model") (prop_of (text "model") content)
      ∷ cell (text "Stop reason") (prop_of (text "stop_reason") content)
      ∷ cell (text "Provider") (prop_of (text "provider") content)
      ∷ record {
        label = text "Status";
        shown = get_or entry.history_record.status (text "returned");
      }
      ∷ []

  -- The reasoning tokens of a turn: from one of two details, or from the usage itself.
  abbrev reasoning_tokens : Option Fields → Option Json
  reasoning_tokens usage =
      coalesce
        (coalesce
          (prop_of (text "reasoning_tokens")
            (as_object (prop_of (text "output_tokens_details") usage)))
          (prop_of (text "reasoning_tokens")
            (as_object (prop_of (text "completion_tokens_details") usage))))
        (prop_of (text "reasoning_tokens") usage)

  unfoldable pub turn_cells : Option Fields → List Cell
  turn_cells usage =
      cell (text "Input tokens") (prop_of (text "input_tokens") usage)
      ∷ cell (text "Output tokens") (prop_of (text "output_tokens") usage)
      ∷ cell (text "Reasoning tokens") (reasoning_tokens usage)
      ∷ cell (text "Cache read") (prop_of (text "cache_read_input_tokens") usage)
      ∷ cell (text "Service tier") (prop_of (text "service_tier") usage)
      ∷ []

  abbrev badge_of_call : TimelineEntry → Fields → Text
  badge_of_call entry fields = get_or entry.history_record.tool (
      string_of engine
        (get_or (coalesce (prop_of (text "name") (some fields)) none) (str (text "tool"))))

  -- The panel of a `tool.call`.
  unfoldable pub call_panel : TimelineEntry → Fields → Panel
  call_panel entry fields =
      let input = prop_of (text "input") (some fields) in
      elim (as_text (prop_of (text "query") (as_object input))) [
        | some query ↦ query_panel (badge_of_call entry fields) query
        | none ↦
            input_panel (badge_of_call entry fields) (get_or (coalesce input none) (obj fields))
      ]

  -- The panel of a `tool.result`.
  unfoldable pub result_panel : TimelineEntry → Fields → Panel
  result_panel entry fields = elim (has_items (prop_of (text "content") (some fields))) [
    | some items ↦ evidence_panel_of items
    | none ↦
        output_panel (is_failed_status entry.history_record.status)
          (get_or entry.history_record.status (text "returned")) entry.content
  ]

  -- The panel of the end of a turn.
  unfoldable pub turn_panel_of : Fields → Panel
  turn_panel_of fields =
      let stop = as_text (prop_of (text "stop_reason") (some fields)) in
      turn_panel stop (option_eq stop (some (text "end_turn")))
        (turn_cells (as_object (prop_of (text "usage") (some fields))))

  -- The panels behind the one of reasoning, by the kind of the record.
  unfoldable pub panel_of_kind : TimelineEntry → Fields → Panel
  panel_of_kind entry fields =
      let body = as_text (prop_of (text "text") (some fields)) in
      let is_input = has_kind (text "message.user") entry in
      if (is_input || has_kind (text "message.assistant") entry) && has_text body
      then message_panel is_input (get_or body [])
      else if has_kind (text "tool.call") entry
      then call_panel entry fields
      else if has_kind (text "tool.result") entry
      then result_panel entry fields
      else if has_kind (text "model.request") entry
      then request_panel (as_text (prop_of (text "provider") (some fields))) (request_cells fields)
      else if has_kind (text "model.response") entry
      then response_panel (response_cells entry fields)
      else if has_kind (text "agent.turn.completed") entry
      then turn_panel_of fields
      else code entry.content
    where
      has_text : Option Text → Bool
      has_text none = false
      has_text (some _) = true

  -- `PrettyContent`
  unfoldable pub pretty_content : TimelineEntry → Panel
  pretty_content entry = elim (as_object (some entry.content)) [
    | none ↦ code entry.content
    | some fields ↦
        if is_reasoning_entry engine entry
        then reasoning_panel (as_number (prop_of (text "token_count") (some fields)))
            (if_present (reasoning_text_for_entry entry)) entry.content
        else panel_of_kind entry fields
  ]
