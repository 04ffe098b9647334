-- ===== src/Ui/Query.antt =====
-- server/ui/src/components/trace-inspector.tsx: how the timeline's query is edited, by filters that
-- are added, by suggestions, and by the keys of its field.
pub mod Adding
mod Tests
use Prim.Native.Nat.{◌%◌}
use farfield.Base.{
  ℕ, suc, ◌+◌, ◌-◌, ◌==◌, Bool, true, false, not, ◌&&◌, ◌||◌, List, [], ◌∷◌, ◌++◌, map, Option,
  none, some, Text, text, text_eq, starts_with, includes, is_truthy, is_space, trim, mem_text,
  add_text, any, keep, drop, take, length, if◌then◌else◌,
}
use farfield.Sdk.Types.{Tags}
use farfield.Ui.History.{TimelineEntry, Engine}
use farfield.Ui.Filter.{filter_fields, quote_filter_value, split_colon}
use farfield.Ui.Match.{Matching, observed_filter_values}

-- `appendQueryToken`
unfoldable pub append_query_token : Text → Text → Text
append_query_token query token =
    let normalized = trim query in
    if is_truthy normalized then normalized ++ b' ' ∷ token else token

-- A unit in front of the first part.
abbrev pub add_unit : ℕ → List Text → List Text
add_unit c [] = (c ∷ []) ∷ []
add_unit c (part ∷ parts) = (c ∷ part) ∷ parts

-- `s.split(/\s+/)`, whose argument says whether the last unit was white space.
unfoldable pub split_spaces : Bool → Text → List Text
split_spaces after [] = [] ∷ []
split_spaces after (c ∷ s) =
    let rest = split_spaces (is_space c) s in
    if is_space c then (if after then rest else [] ∷ rest) else add_unit c rest

abbrev pub token_of : Text → Text → Text
token_of field value = field ++ b':' ∷ quote_filter_value value

-- `addFilter`
unfoldable pub add_filter : Text → Text → Text → Text
add_filter field value current =
    let token = token_of field value in
    if mem_text token (split_spaces false current)
    then current
    else append_query_token current token

-- The word at the end of a query: `/(?:^|\s)([^\s]*)$/`.
unfoldable pub last_word : Text → Text
last_word [] = []
last_word (c ∷ s) =
    let rest = last_word s in if any is_space s then rest else if is_space c then s else c ∷ s

-- The query without its last word and the white space before it: `replace(/(?:^|\s)[^\s]*$/, "")`.
unfoldable pub drop_last_word : Text → Text
drop_last_word [] = []
drop_last_word (c ∷ s) = let rest = drop_last_word s in if any is_space s then c ∷ rest else []

abbrev ends_with_colon : Text → Bool
ends_with_colon [] = false
ends_with_colon (c ∷ []) = c == b':'
ends_with_colon (_ ∷ c ∷ s) = ends_with_colon (c ∷ s)

-- The query that `applySuggestion` makes.
unfoldable pub apply_suggestion : Text → Text → Text
apply_suggestion value current =
    let before = trim (drop_last_word current) in
    before
    ++ ((if is_truthy before then text " " else [])
        ++ (value ++ (if ends_with_colon value then [] else text " ")))

pub record Suggestion : Type 0 where
  pub value : Text
  pub label : Text
  pub hint : Text

unfoldable pub tag_fields : Tags → List Text → List Text
tag_fields [] fields = fields
tag_fields ((key, _) ∷ tags) fields = tag_fields tags (add_text (text "tag." ++ key) fields)

unfoldable pub all_tag_fields : List TimelineEntry → List Text → List Text
all_tag_fields [] fields = fields
all_tag_fields (entry ∷ entries) fields =
    all_tag_fields entries (tag_fields entry.history_record.tags fields)

-- `observedFields`
unfoldable pub observed_fields : List TimelineEntry → List Text
observed_fields entries = filter_fields ++ all_tag_fields entries []

-- `replace(/^"|"$/g, "")`
unfoldable pub strip_quotes : Text → Text
strip_quotes s = drop_end (if starts_with s (text "\"") then drop 1 s else s)
  where
    drop_end : Text → Text
    drop_end [] = []
    drop_end (c ∷ []) = if c == b'"' then [] else c ∷ []
    drop_end (c ∷ d ∷ s) = c ∷ drop_end (d ∷ s)

-- The values that are suggested for a field without looking at the entries.
unfoldable pub fixed_values : Text → Option (List Text)
fixed_values field =
    if text_eq field (text "has")
    then some (text "trace" ∷ text "tags" ∷ text "tool" ∷ text "agent" ∷ text "status" ∷ [])
    else if text_eq field (text "offset")
    then some (text ">1s" ∷ text ">5s" ∷ text ">30s" ∷ text ">1m" ∷ [])
    else if text_eq field (text "size")
    then some (text ">1kb" ∷ text ">10kb" ∷ text ">1mb" ∷ [])
    else if text_eq field (text "tokens")
    then some (text ">1k" ∷ text ">10k" ∷ text ">100k" ∷ [])
    else none

abbrev sign_of : Text → Text
sign_of current = if starts_with current (text "-") then text "-" else []

-- The suggestion of a field.
abbrev suggest_field : Text → Text → Suggestion
suggest_field current field = record {
  value = sign_of current ++ (field ++ text ":");
  label = field ++ text ":";
  hint = text "field";
}

-- The suggestion of a value.
abbrev suggest_value : Text → Text → Text → Suggestion
suggest_value current field value = record {
  value = sign_of current ++ token_of field value;
  label = value;
  hint = field;
}

module _ (matching : Matching) where
  open matching use {engine}

  unfoldable pub suggestions_of_word :
      Text → Option (Text × Text) → List TimelineEntry → List Suggestion
  suggestions_of_word current none entries =
      let normalized = if starts_with current (text "-") then drop 1 current else current in
      map (suggest_field current) (
        take 7 (keep (λ field. includes field (engine.lower normalized)) (observed_fields entries)))
  suggestions_of_word current (some (field, after)) entries =
      let partial = engine.lower (strip_quotes after) in
      let values : List Text = elim (fixed_values field) [
        | none ↦ observed_filter_values matching entries field
        | some values ↦ values
      ] in
      map (suggest_value current field)
        (take 7 (keep (λ value. includes (engine.lower value) partial) values))

  -- `suggestions`
  unfoldable pub suggestions : Text → List TimelineEntry → List Suggestion
  suggestions query entries =
      let current = last_word query in
      let normalized = if starts_with current (text "-") then drop 1 current else current in
      suggestions_of_word current (split_colon normalized) entries

-- The keys of the query's field that move among the suggestions.
unfoldable pub arrow_down : ℕ → ℕ → ℕ
arrow_down n index = if n == 0 then index else (index + 1) % n

unfoldable pub arrow_up : ℕ → ℕ → ℕ
arrow_up n index = if n == 0 then index else (index + n - 1) % n
