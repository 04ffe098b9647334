-- ===== src/Ui/History.antt =====
-- server/ui/src/lib/history.ts: the records of a timeline and what the viewer reads in them. What
-- the JavaScript engine does to strings and numbers beyond comparing them is given.
pub mod Analysis
use farfield.Base.{
  ℕ, suc, ◌==◌, Bool, true, false, not, ◌&&◌, ◌||◌, List, [], ◌∷◌, ◌++◌, map, Option, none, some,
  Text, text, text_eq, starts_with, includes, is_truthy, is_present, mem_text, add_text, get_or,
  or_else, length, keep, any, last?, take, join, decimal, if◌then◌else◌,
}
use farfield.Sdk.Types.{Number, Tags}
use farfield.Integrations.Payload.{
  Json, null, boolean, number, str, arr, obj, opaque, Items, nil, cons, Fields, end, field, prop,
}

-- `HistoryRecord`, without `schema_version` and the fields of `content` but its size.
pub record HistoryRecord : Type 0 where
  pub id : Text
  pub conversation_id : Text
  pub kind : Text
  pub occurred_at : Text
  pub recorded_at : Text
  pub sequence : Option Number
  pub trace_id : Option Text
  pub span_id : Option Text
  pub parent_id : Option Text
  pub agent : Option Text
  pub tool : Option Text
  pub status : Option Text
  pub tags : Tags
  pub size : Number

pub record TimelineEntry : Type 0 where
  pub history_record : HistoryRecord
  pub content : Json

-- The engine: `toLowerCase`, the time of a date in milliseconds from the earliest date that there
-- is, or none for NaN, `String` of a number, the sum of two numbers, and 0.
pub record Engine : Type 0 where
  pub lower : Text → Text
  pub get_time : Text → Option ℕ
  pub number_text : Number → Text
  pub add : Number → Number → Number
  pub zero_number : Number

-- `entry.record.kind === s`
abbrev pub has_kind : Text → TimelineEntry → Bool
has_kind s entry = text_eq entry.history_record.kind s

-- `asObject`, also of what is missing.
unfoldable pub as_object : Option Json → Option Fields
as_object (some (obj fields)) = some fields
as_object _ = none

-- `object?.key`
abbrev pub prop_of : Text → Option Fields → Option Json
prop_of key none = none
prop_of key (some fields) = prop key fields

-- `typeof value === "string"`
abbrev pub as_text : Option Json → Option Text
as_text (some (str s)) = some s
as_text _ = none

abbrev pub as_number : Option Json → Option Number
as_number (some (number n)) = some n
as_number _ = none

abbrev pub has_items : Option Json → Option Items
has_items (some (arr items)) = some items
has_items _ = none

unfoldable pub count_items : Items → ℕ
count_items nil = 0
count_items (cons v items) = suc (count_items items)

-- The first of the keys that holds a string.
unfoldable pub first_text : List Text → Option Fields → Option Text
first_text [] content = none
first_text (key ∷ keys) content = or_else (as_text (prop_of key content)) (first_text keys content)

-- `reasoningTextForEntry`
unfoldable pub reasoning_text_for_entry : TimelineEntry → Option Text
reasoning_text_for_entry entry =
    first_text (text "text" ∷ text "reasoning" ∷ text "thinking" ∷ text "summary" ∷ [])
      (as_object (some entry.content))

-- `firstNumber`
unfoldable pub first_number : List (Option Json) → Option Number
first_number [] = none
first_number (v ∷ values) = or_else (as_number v) (first_number values)

pub data Category : Type 0 where
  message : Category
  model : Category
  tool : Category
  agent : Category
  test : Category
  event : Category

-- `eventCategory`
unfoldable pub event_category : Text → Category
event_category kind =
    if starts_with kind (text "message.")
    then message
    else if starts_with kind (text "model.")
    then model
    else if starts_with kind (text "tool.")
    then tool
    else if starts_with kind (text "agent.")
    then agent
    else if starts_with kind (text "test.")
    then test
    else event

abbrev dotted : List Text → Text
dotted parts = join (text " · ") parts

-- `text || other`
abbrev text_or : Text → Text → Text
text_or [] other = other
text_or (c ∷ s) other = c ∷ s

abbrev texts_of : List (Option Text) → List Text
texts_of [] = []
texts_of (none ∷ values) = texts_of values
texts_of (some s ∷ values) = s ∷ texts_of values

module _ (engine : Engine) where
  open engine use {lower, get_time, number_text, add, zero_number}

  -- `String(value)`; null is an empty text inside an array.
  unfoldable mutual
    pub string_of : Json → Text
    string_of null = text "null"
    string_of (boolean b) = if b then text "true" else text "false"
    string_of (number n) = number_text n
    string_of (str s) = s
    string_of (arr items) = join (text ",") (item_texts items)
    string_of (obj fields) = text "[object Object]"
    string_of (opaque shown) = shown

    pub item_texts : Items → List Text
    item_texts nil = []
    item_texts (cons null items) = [] ∷ item_texts items
    item_texts (cons v items) = string_of v ∷ item_texts items

  -- `isReasoningEntry`
  unfoldable pub is_reasoning_entry : TimelineEntry → Bool
  is_reasoning_entry entry =
      let kind = lower entry.history_record.kind in
      let type =
        lower (get_or (as_text (prop_of (text "type") (as_object (some entry.content)))) []) in
      includes kind (text "reasoning")
      || includes kind (text "thinking")
      || text_eq type (text "reasoning")
      || text_eq type (text "thinking")

  abbrev shown_field : Text × Json → Text
  shown_field (key, value) = key ++ (text ": " ++ string_of value)

  -- `Object.entries(content).filter(([key]) => key !== "encrypted_content")`
  unfoldable pub shown_fields : Fields → List Text
  shown_fields end = []
  shown_fields (field key value fields) =
      let rest = shown_fields fields in
      if text_eq key (text "encrypted_content") then rest else shown_field (key, value) ∷ rest

  -- What a template makes of `value ?? …`.
  abbrev named : Option Json → Option Text
  named none = none
  named (some null) = none
  named (some v) = some (string_of v)

  abbrev tool_called : TimelineEntry → Fields → Text
  tool_called entry content =
      get_or (as_text (prop_of (text "query") (as_object (prop (text "input") content)))) (
        get_or (or_else entry.history_record.tool (named (prop (text "name") content)))
          (text "Tool")
        ++ text " called")

  abbrev fallback : Fields → Text
  fallback content =
      get_or (as_text (prop (text "prompt_name") content))
        (text_or (dotted (take 2 (shown_fields content))) (text "Structured event"))

  abbrev two_texts : Text → Text → Text → Fields → Text
  two_texts a b other content =
      text_or (dotted (texts_of (as_text (prop a content) ∷ as_text (prop b content) ∷ []))) other

  abbrev results_returned : Items → Text
  results_returned items =
      let n = count_items items in
      decimal n ++ (text " result" ++ ((if n == 1 then [] else text "s") ++ text " returned"))

  -- `previewForEntry` of an object.
  unfoldable pub preview_of : TimelineEntry → Fields → Text
  preview_of entry content = get_or (as_text (prop (text "text") content)) (
      if has_kind (text "tool.call") entry
      then tool_called entry content
      else if has_kind (text "tool.result") entry
      then elim (has_items (prop (text "content") content)) [
        | some items ↦ results_returned items
        | none ↦
            get_or (as_text (prop_of (text "message") (as_object (prop (text "error") content))))
              (fallback content)
      ]
      else if has_kind (text "model.request") entry
      then two_texts (text "model") (text "provider") (text "Model request") content
      else if has_kind (text "model.response") entry
      then two_texts (text "model") (text "stop_reason") (text "Model response") content
      else fallback content)

  -- `String(value ?? "No content")`
  abbrev shown_content : Json → Text
  shown_content null = text "No content"
  shown_content v = string_of v

  -- `previewForEntry`
  unfoldable pub preview_for_entry : TimelineEntry → Text
  preview_for_entry entry = elim (as_object (some entry.content)) [
    | none ↦ shown_content entry.content
    | some fields ↦ preview_of entry fields
  ]
