-- ===== src/Ui/Operations.antt =====
-- server/ui/src/lib/trace-operations.ts: the operations of a trace. What `structuredClone` copies is equal to what it is given.
pub mod Grouping
pub mod Counts
pub mod Views
use farfield.Base.{
  ℕ, suc, ◌+◌, ◌-◌, ◌==◌, leb, ltb, Bool, true, false, not, ◌&&◌, ◌||◌, List, [], ◌∷◌, ◌++◌, map,
  Option, none, some, Text, text, text_eq, option_eq, is_present, is_truthy, mem_text, get_or,
  or_else, length, get_elem?, keep, any, last?, join, if◌then◌else◌,
}
use farfield.Integrations.Payload.{Json, str, obj, Fields, end, field, prop}
use farfield.Ui.History.{
  TimelineEntry, Engine, Category, tool, test, has_kind, as_object, as_text, prop_of, first_text,
  event_category, is_reasoning_entry, preview_for_entry,
}
use farfield.Ui.History.Analysis.{lowered}
use farfield.Ui.Titles.{event_title}
use farfield.Ui.Review.{is_error, duration_between}

pub record TraceOperation : Type 0 where
  pub id : Text
  pub category : Category
  pub title : Text
  pub summary : Text
  pub entries : List TimelineEntry
  pub primary : TimelineEntry
  pub started_at : Text
  pub ended_at : Text
  pub duration : Option ℕ
  pub status : Option Text
  pub grouped_count : ℕ

-- `toolUseID`; an empty id is a string too, and ends the search.
unfoldable pub tool_use_id : TimelineEntry → Option Text
tool_use_id entry =
    first_text (text "tool_use_id" ∷ text "call_id" ∷ text "id" ∷ [])
      (as_object (some entry.content))

abbrev pub is_call : TimelineEntry → Bool
is_call = has_kind (text "tool.call")

abbrev pub is_result : TimelineEntry → Bool
is_result = has_kind (text "tool.result")

abbrev pub is_assistant : TimelineEntry → Bool
is_assistant = has_kind (text "message.assistant")

abbrev same_tool : TimelineEntry → TimelineEntry → Bool
same_tool a b = option_eq a.history_record.tool b.history_record.tool

abbrev pub same_trace : TimelineEntry → TimelineEntry → Bool
same_trace a b = option_eq a.history_record.trace_id b.history_record.trace_id

-- `callID && candidateID && callID === candidateID`
abbrev ids_match : Option Text → Option Text → Bool
ids_match a b = is_present a && is_present b && option_eq a b

-- `consumed.has(index)`
unfoldable pub has_index : List ℕ → ℕ → Bool
has_index [] i = false
has_index (j ∷ consumed) i = j == i || has_index consumed i

-- `idsMatch || toolsMatch || index === callIndex + 1`
unfoldable pub is_match : TimelineEntry → ℕ → ℕ → TimelineEntry → Bool
is_match call call_index index candidate =
    ids_match (tool_use_id call) (tool_use_id candidate)
    || (same_tool candidate call && same_trace candidate call)
    || index == suc call_index

abbrev pub ends_search : TimelineEntry → TimelineEntry → Bool
ends_search call candidate = is_call candidate && same_tool candidate call

-- The loop of `matchingToolResult` from an index, over the entries from it on.
unfoldable pub find_result :
    TimelineEntry → ℕ → List ℕ → ℕ → List TimelineEntry → Option (ℕ × TimelineEntry)
find_result call call_index consumed index [] = none
find_result call call_index consumed index (candidate ∷ entries) =
    let more = find_result call call_index consumed (suc index) entries in
    if has_index consumed index
    then more
    else if ends_search call candidate
    then none
    else if not (is_result candidate)
    then more
    else if is_match call call_index index candidate
    then some (index, candidate)
    else more

-- The `while` loop over the chunks of an assistant, from an index on: the chunks, and their indices.
unfoldable pub take_chunks : TimelineEntry → ℕ → List TimelineEntry → List TimelineEntry × List ℕ
take_chunks entry next [] = ([], [])
take_chunks entry next (chunk ∷ entries) =
    let (chunks, indices) = take_chunks entry (suc next) entries in
    if is_assistant chunk && same_trace chunk entry
    then (chunk ∷ chunks, next ∷ indices)
    else ([], [])

abbrev text_of_chunk : TimelineEntry → Option Text
text_of_chunk chunk = as_text (prop_of (text "text") (as_object (some chunk.content)))

-- The texts of chunks, one behind the other.
unfoldable pub join_chunks : List TimelineEntry → Text
join_chunks [] = []
join_chunks (chunk ∷ chunks) = get_or (text_of_chunk chunk) [] ++ join_chunks chunks

-- `{ ...fields, key: value }`
unfoldable pub set_field : Text → Json → Fields → Fields
set_field key value end = field key value end
set_field key value (field k v fields) =
    if text_eq k key then field k value fields else field k v (set_field key value fields)

-- The first chunk with the text of all.
unfoldable pub merge_chunks : TimelineEntry → List TimelineEntry → TimelineEntry
merge_chunks entry chunks = record entry {
  content = obj (
      set_field (text "text") (str (join_chunks (entry ∷ chunks)))
        (get_or (as_object (some entry.content)) end));
}

module _ (engine : Engine) where
  unfoldable pub lowered_statuses : List TimelineEntry → List Text
  lowered_statuses [] = []
  lowered_statuses (entry ∷ entries) =
      let rest = lowered_statuses entries in
      let status = lowered engine entry.history_record.status in
      if is_present status then get_or status [] ∷ rest else rest

  -- `operationStatus`
  unfoldable pub operation_status : List TimelineEntry → Option Text
  operation_status entries =
      let statuses = lowered_statuses entries in
      if any is_error statuses then some (text "error") else last? statuses

  unfoldable pub find_entry : (TimelineEntry → Bool) → List TimelineEntry → Option TimelineEntry
  find_entry p [] = none
  find_entry p (entry ∷ entries) = if p entry then some entry else find_entry p entries

  abbrev preview_of_result : Option TimelineEntry → List Text
  preview_of_result none = []
  preview_of_result (some entry) = preview_for_entry engine entry ∷ []

  -- `makeOperation`, of entries that are given as the first one and the others.
  unfoldable pub make_operation : TimelineEntry → List TimelineEntry → ℕ → TraceOperation
  make_operation primary others grouped_count =
      let entries = primary ∷ others in
      let last = get_or (last? entries) primary in
      record {
        id = join (text "::") (map (λ e. e.history_record.id) entries);
        category = event_category primary.history_record.kind;
        title = event_title engine primary;
        summary = join (text " · ") (
            keep is_truthy (
              preview_for_entry engine primary ∷ preview_of_result (find_entry is_result entries)));
        entries = entries;
        primary = primary;
        started_at = primary.history_record.occurred_at;
        ended_at = last.history_record.occurred_at;
        duration =
            duration_between (engine.get_time primary.history_record.occurred_at)
              (engine.get_time last.history_record.occurred_at);
        status = operation_status entries;
        grouped_count = grouped_count;
      }

  -- The operation of an entry that is no call with a result, and the indices that it consumes.
  unfoldable pub operation_alone : TimelineEntry → ℕ → List TimelineEntry → TraceOperation × List ℕ
  operation_alone entry index entries =
      let (chunks, indices) = take_chunks entry (suc index) entries in
      if is_assistant entry && ltb 1 (length (entry ∷ chunks))
      then (make_operation (merge_chunks entry chunks) [] (length (entry ∷ chunks)), indices)
      else (make_operation entry [] 1, [])

  -- The operation that begins with an entry, and the indices that it consumes. The chunks of a
  -- single assistant message are none, and consume none.
  unfoldable pub operation_at :
      TimelineEntry → ℕ → List ℕ → List TimelineEntry → TraceOperation × List ℕ
  operation_at entry index consumed entries =
      elim (if is_call entry then find_result entry index consumed (suc index) entries else none) [
        | some (result_index, result) ↦ (make_operation entry (result ∷ []) 2, result_index ∷ [])
        | none ↦ operation_alone entry index entries
      ]

  -- The loop of `buildTraceOperations` from an index, over the entries from it on.
  unfoldable pub build_operations : ℕ → List ℕ → List TimelineEntry → List TraceOperation
  build_operations index consumed [] = []
  build_operations index consumed (entry ∷ entries) =
      if has_index consumed index
      then build_operations (suc index) consumed entries
      else let (operation, indices) = operation_at entry index consumed entries in
        operation ∷ build_operations (suc index) (indices ++ consumed) entries

  -- `buildTraceOperations`
  unfoldable pub build_trace_operations : List TimelineEntry → List TraceOperation
  build_trace_operations entries = build_operations 0 [] entries

  -- `rawTraceOperations`
  unfoldable pub raw_trace_operations : List TimelineEntry → List TraceOperation
  raw_trace_operations entries = map (λ entry. make_operation entry [] 1) entries
