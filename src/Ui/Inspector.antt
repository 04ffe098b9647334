-- ===== src/Ui/Inspector.antt =====
-- server/ui/src/components/trace-inspector.tsx: the state of a session's view, what it shows of
-- the timeline, and what its controls do. The markup, the focus of the query's field and the
-- clipboard are left out.
pub mod Address
pub mod Selection
pub mod Keys
pub mod Opening
mod Tests
use farfield.Base.{
  ℕ, String, suc, ◌+◌, ◌-◌, ltb, ◌==◌, Bool, true, false, not, ◌||◌, List, [], ◌∷◌, Option, none,
  some, Text, text, text_eq, option_eq, is_truthy, trim, any, keep, or_else, length, if◌then◌else◌,
}
use farfield.Base.Map.{get, delete}
use farfield.Ui.History.{TimelineEntry, has_kind}
use farfield.Ui.Operations.{TraceOperation, build_trace_operations, raw_trace_operations, has_index}
use farfield.Ui.Operations.Views.{
  TraceDensity, overview, full_trace, all_records, TraceFocus, everything, tools, reasoning, slow,
  errors, operations_for_density, operation_matches_focus,
}
use farfield.Ui.Filter.{
  ContextMode, matches_only, with_context, full, FilterClause, ParsedTimelineQuery,
  parse_timeline_query, indexes_for_context,
}
use farfield.Ui.Match.{Matching, timeline_entry_matches}

-- `queryActive`
abbrev pub has_clauses : List FilterClause → Bool
has_clauses [] = false
has_clauses (_ ∷ _) = true

pub data SessionView : Type 0 where
  review : SessionView
  trace : SessionView

pub data DetailTab : Type 0 where
  rendered : DetailTab
  json : DetailTab

pub record Inspector : Type 0 where
  pub session_view : SessionView
  pub selected_id : Option Text
  pub timeline_query : Text
  pub context_mode : ContextMode
  pub density : TraceDensity
  pub focus : TraceFocus
  pub suggestion_index : ℕ
  pub detail_tab : DetailTab

-- The parameters of the page's address, in order.
abbrev pub Parameters : Type 0
Parameters = List (Text × Text)

-- `searchParams.set`: the first of the name gets the value, and its others go.
unfoldable pub set_parameter : Text → Text → Parameters → Parameters
set_parameter k v [] = (k, v) ∷ []
set_parameter k v ((j, w) ∷ m) =
    if text_eq j k then (j, v) ∷ delete k m else (j, w) ∷ set_parameter k v m

abbrev is_value : String → Option Text → Bool
is_value s value = option_eq value (some (text s))

-- `initialContextMode`
unfoldable pub initial_context_mode : Parameters → ContextMode
initial_context_mode m =
    let value = get (text "timeline_context") m in
    if is_value "matches" value
    then matches_only
    else if is_value "full" value
    then full
    else with_context

-- `initialDensity`
unfoldable pub initial_density : Parameters → TraceDensity
initial_density m =
    if is_value "records" (get (text "trace_density") m) then all_records else full_trace

-- `initialFocus`
unfoldable pub initial_focus : Parameters → TraceFocus
initial_focus m =
    let value = get (text "trace_focus") m in
    if is_value "tools" value
    then tools
    else if is_value "reasoning" value
    then reasoning
    else if is_value "slow" value
    then slow
    else if is_value "errors" value
    then errors
    else everything

-- `initialSessionView`
unfoldable pub initial_session_view : Parameters → SessionView
initial_session_view m = if is_value "trace" (get (text "session_view") m) then trace else review

abbrev query_of : Option Text → Text
query_of none = []
query_of (some query) = query

-- The state of a view that is opened at an address.
unfoldable pub opened : Parameters → Inspector
opened m = record {
  session_view = initial_session_view m;
  selected_id = none;
  timeline_query = query_of (get (text "timeline") m);
  context_mode = initial_context_mode m;
  density = initial_density m;
  focus = initial_focus m;
  suggestion_index = 0;
  detail_tab = rendered;
}

-- The parameter that a part of the state is written to: it is deleted for the default.
abbrev pub write_parameter : String → Option Text → Parameters → Parameters
write_parameter k none m = delete (text k) m
write_parameter k (some v) m = set_parameter (text k) v m

abbrev pub query_value : Text → Option Text
query_value query = if is_truthy (trim query) then some (trim query) else none

abbrev pub context_value : ContextMode → Option Text
context_value matches_only = some (text "matches")
context_value with_context = none
context_value full = some (text "full")

abbrev pub density_value : TraceDensity → Option Text
density_value overview = some (text "overview")
density_value full_trace = none
density_value all_records = some (text "records")

abbrev pub focus_value : TraceFocus → Option Text
focus_value everything = none
focus_value tools = some (text "tools")
focus_value reasoning = some (text "reasoning")
focus_value slow = some (text "slow")
focus_value errors = some (text "errors")

abbrev pub view_value : SessionView → Option Text
view_value review = none
view_value trace = some (text "trace")

-- The effect that keeps the address in step with the state.
unfoldable pub sync_address : Inspector → Parameters → Parameters
sync_address s m =
    let with_query = write_parameter "timeline" (query_value s.timeline_query) m in
    let with_mode = write_parameter "timeline_context" (context_value s.context_mode) with_query in
    let with_density = write_parameter "trace_density" (density_value s.density) with_mode in
    let with_focus = write_parameter "trace_focus" (focus_value s.focus) with_density in
    let with_view = write_parameter "session_view" (view_value s.session_view) with_focus in
    delete (text "review_density") with_view

-- The effect behind another conversation.
unfoldable pub conversation_changed : Inspector → Inspector
conversation_changed s = record s { selected_id = none; detail_tab = rendered }

-- `openEntryInTrace`
unfoldable pub open_entry_in_trace : TimelineEntry → Inspector → Inspector
open_entry_in_trace entry s = record {
  session_view = trace;
  selected_id = some entry.history_record.id;
  timeline_query = [];
  context_mode = full;
  density = all_records;
  focus = everything;
  suggestion_index = s.suggestion_index;
  detail_tab = rendered;
}

-- A click on an operation of the run map.
unfoldable pub select_on_map : TraceOperation → Inspector → Inspector
select_on_map operation s = record s {
  density = full_trace;
  focus = everything;
  selected_id = some operation.id;
}

-- A click on an operation of the timeline.
unfoldable pub select_operation : TraceOperation → Inspector → Inspector
select_operation operation s = record s { selected_id = some operation.id; detail_tab = rendered }

-- The members of a list whose index is in the set, from an index on.
unfoldable pub keep_indexes : List ℕ → ℕ → List TraceOperation → List TraceOperation
keep_indexes set index [] = []
keep_indexes set index (operation ∷ operations) =
    let rest = keep_indexes set (suc index) operations in
    if has_index set index then operation ∷ rest else rest

unfoldable pub find_operation :
    (TraceOperation → Bool) → List TraceOperation → Option TraceOperation
find_operation p [] = none
find_operation p (operation ∷ operations) =
    let rest = find_operation p operations in if p operation then some operation else rest

abbrev first_operation : List TraceOperation → Option TraceOperation
first_operation [] = none
first_operation (operation ∷ operations) = some operation

-- `findIndex`, from an index on; `none` for -1.
unfoldable pub find_index : (TraceOperation → Bool) → ℕ → List TraceOperation → Option ℕ
find_index p index [] = none
find_index p index (operation ∷ operations) =
    let rest = find_index p (suc index) operations in if p operation then some index else rest

abbrev pub has_id : Option Text → TraceOperation → Bool
has_id none operation = false
has_id (some id) operation = text_eq operation.id id

-- `selected`, among the operations that are shown.
unfoldable pub selected_of : Option Text → List TraceOperation → Option TraceOperation
selected_of id operations = or_else (find_operation (has_id id) operations) (
    or_else
      (find_operation (λ operation. has_kind (text "message.user") operation.primary) operations)
      (first_operation operations))

-- `matchingIndexes`, from an index on.
unfoldable pub matching_indexes : (TraceOperation → Bool) → ℕ → List TraceOperation → List ℕ
matching_indexes p index [] = []
matching_indexes p index (operation ∷ operations) =
    let rest = matching_indexes p (suc index) operations in
    if p operation then index ∷ rest else rest

module _ (matching : Matching) where
  open matching use {engine}

  -- `densityOperations`
  unfoldable pub density_operations : List TimelineEntry → TraceDensity → List TraceOperation
  density_operations entries all_records = raw_trace_operations engine entries
  density_operations entries density =
      operations_for_density (build_trace_operations engine entries) density

  -- `focusedOperations`
  unfoldable pub focused_operations : Inspector → List TimelineEntry → List TraceOperation
  focused_operations s entries =
      keep (λ operation. operation_matches_focus engine operation s.focus)
        (density_operations entries s.density)

  -- `timelineStart`
  unfoldable pub timeline_start : List TimelineEntry → Option ℕ
  timeline_start [] = some 0
  timeline_start (entry ∷ entries) = engine.get_time entry.history_record.occurred_at

  abbrev pub operation_matches : ParsedTimelineQuery → Option ℕ → TraceOperation → Bool
  operation_matches parsed start operation =
      any (λ entry. timeline_entry_matches matching entry parsed start) operation.entries

  -- `visibleOperations`
  unfoldable pub visible_operations : Inspector → List TimelineEntry → List TraceOperation
  visible_operations s entries =
      let operations = focused_operations s entries in
      let parsed = parse_timeline_query engine.lower s.timeline_query in
      let found =
        matching_indexes (operation_matches parsed (timeline_start entries)) 0 operations in
      let mode = if has_clauses parsed.clauses then s.context_mode else full in
      keep_indexes (indexes_for_context (length operations) found mode) 0 operations

  -- `selected`
  unfoldable pub selected : Inspector → List TimelineEntry → Option TraceOperation
  selected s entries = selected_of s.selected_id (visible_operations s entries)

  -- The counts that the buttons of the focus show.
  unfoldable pub focus_counts : Inspector → List TimelineEntry → TraceFocus → ℕ
  focus_counts s entries everything = length (density_operations entries s.density)
  focus_counts s entries focus = length (
      keep (λ operation. operation_matches_focus engine operation focus)
        (density_operations entries s.density))
