-- ===== src/Ui/Match.antt =====
-- server/ui/src/lib/timeline-filter.ts: whether an entry matches a query.
pub mod Negation
mod Tests
use Prim.Native.Nat.{◌/◌, ◌%◌}
use farfield.Base.{
  ℕ, ◌^◌, ◌==◌, leb, ltb, Bool, true, false, not, ◌&&◌, ◌||◌, List, [], ◌∷◌, ◌++◌, map, Option,
  none, some, Text, text, text_eq, starts_with, includes, is_truthy, is_present, mem_text, add_text,
  trim, is_space, all, any, get_or, join, drop, if◌then◌else◌,
}
use farfield.Base.Map.{get}
use farfield.Base.Sorting.{sort_texts}
use farfield.Sdk.Types.{Number, Tags}
use farfield.Sdk.Json.{is_finite}
use farfield.Integrations.Payload.{Json, is_nan}
use farfield.Ui.History.{TimelineEntry, Engine, as_object, as_text, as_number, prop_of}
use farfield.Ui.Filter.{
  ComparisonOperator, contains, eq, gt, gte, lt, lte, FilterClause, ParsedTimelineQuery, is_in_line,
}
pub use farfield.Ui.Compare.{Matching}
use farfield.Ui.Compare.{compare_number, numeric_value, compare_text}

-- `modelForEntry`
unfoldable pub model_for_entry : TimelineEntry → Option Text
model_for_entry entry = as_text (prop_of (text "model") (as_object (some entry.content)))

-- `...Object.entries(tags).flat()`
unfoldable pub flat_tags : Tags → List (Option Text)
flat_tags [] = []
flat_tags ((key, value) ∷ tags) = some key ∷ some value ∷ flat_tags tags

-- `.filter(Boolean)`
unfoldable pub present_texts : List (Option Text) → List Text
present_texts [] = []
present_texts (value ∷ values) =
    let rest = present_texts values in if is_present value then get_or value [] ∷ rest else rest

module _ (matching : Matching) where
  open matching use {engine, difference, stringify}

  abbrev number_of : Option Json → Number
  number_of value = get_or (as_number value) engine.zero_number

  -- `tokensForEntry`
  unfoldable pub tokens_for_entry : TimelineEntry → Number
  tokens_for_entry entry =
      let usage = as_object (prop_of (text "usage") (as_object (some entry.content))) in
      engine.add
        (engine.add
          (engine.add engine.zero_number (number_of (prop_of (text "input_tokens") usage)))
          (number_of (prop_of (text "output_tokens") usage)))
        (number_of (prop_of (text "cache_read_input_tokens") usage))

  -- `entrySearchText`
  unfoldable pub entry_search_text : TimelineEntry → Text
  entry_search_text entry =
      let r = entry.history_record in
      engine.lower (
        join (text " ") (
          present_texts (
            (some r.kind ∷ r.agent ∷ r.tool ∷ r.status ∷ r.trace_id ∷ model_for_entry entry ∷ [])
            ++ (flat_tags r.tags ++ some (stringify entry.content) ∷ []))))

  -- The text of a record that a field names, as in `fieldMatches` and `observedFilterValues`.
  unfoldable pub text_of_field : Text → TimelineEntry → Option Text
  text_of_field field entry =
      let r = entry.history_record in
      if text_eq field (text "kind")
      then some r.kind
      else if text_eq field (text "agent")
      then r.agent
      else if text_eq field (text "tool")
      then r.tool
      else if text_eq field (text "model")
      then model_for_entry entry
      else if text_eq field (text "status")
      then r.status
      else r.trace_id

  -- The field `has`.
  unfoldable pub has_target : Text → TimelineEntry → Bool
  has_target target entry =
      let r = entry.history_record in
      if text_eq target (text "trace")
      then is_present r.trace_id
      else if text_eq target (text "tags")
      then has_some r.tags
      else if text_eq target (text "tool")
      then is_present r.tool
      else if text_eq target (text "agent")
      then is_present r.agent
      else if text_eq target (text "status")
      then is_present r.status
      else false
    where
      has_some : Tags → Bool
      has_some [] = false
      has_some (_ ∷ _) = true

  -- `fieldMatches`, from the time of the first entry on.
  unfoldable pub field_matches : TimelineEntry → FilterClause → Option ℕ → Bool
  field_matches entry clause start = elim clause.field [
    | none ↦ false
    | some field ↦
        let r = entry.history_record in
        let number = numeric_value matching clause.value field in
        if text_eq field (text "has")
        then has_target (engine.lower clause.value) entry
        else if starts_with field (text "tag.")
        then compare_text matching (get (drop 4 field) r.tags) clause.value clause.operator
        else if text_eq field (text "offset")
        then compare_number (difference (engine.get_time r.occurred_at) start) clause.operator
            number
        else if text_eq field (text "size")
        then compare_number r.size clause.operator number
        else if text_eq field (text "tokens")
        then compare_number (tokens_for_entry entry) clause.operator number
        else compare_text matching (text_of_field field entry) clause.value clause.operator
  ]

  -- A clause without its sign.
  unfoldable pub clause_holds : TimelineEntry → Option ℕ → FilterClause → Bool
  clause_holds entry start clause = elim clause.field [
    | none ↦ includes (entry_search_text entry) (engine.lower clause.value)
    | some _ ↦ field_matches entry clause start
  ]

  abbrev pub clause_matches : TimelineEntry → Option ℕ → FilterClause → Bool
  clause_matches entry start clause =
      let matches = clause_holds entry start clause in
      if clause.negated then not matches else matches

  -- `timelineEntryMatches`
  unfoldable pub timeline_entry_matches : TimelineEntry → ParsedTimelineQuery → Option ℕ → Bool
  timeline_entry_matches entry parsed start = all (clause_matches entry start) parsed.clauses

  abbrev observed_value : Text → TimelineEntry → Option Text
  observed_value field entry =
      if mem_text field (
        text "kind" ∷ text "agent" ∷ text "tool" ∷ text "model" ∷ text "status" ∷ text "trace" ∷ [])
      then text_of_field field entry
      else if starts_with field (text "tag.")
      then get (drop 4 field) entry.history_record.tags
      else none

  unfoldable pub observe : Text → List TimelineEntry → List Text → List Text
  observe field [] values = values
  observe field (entry ∷ entries) values =
      let value = observed_value field entry in
      observe field entries (if is_present value then add_text (get_or value []) values else values)

  -- `observedFilterValues`
  unfoldable pub observed_filter_values : List TimelineEntry → Text → List Text
  observed_filter_values entries field = sort_texts (observe field entries [])
