-- ===== src/Ui/Filter.antt =====
-- server/ui/src/lib/timeline-filter.ts: the queries of the timeline, and the indexes that are shown
-- around the matches.
pub mod Tokens
pub mod Quoting
pub mod Context
mod Tests
use farfield.Base.{
  ℕ, zero, suc, ◌+◌, ◌-◌, ◌==◌, leb, ltb, Bool, true, false, not, ◌&&◌, ◌||◌, List, [], ◌∷◌, ◌++◌,
  Option, none, some, Text, text, is_truthy, starts_with, mem_text, is_space, trim, any, all,
  length, drop, last?, or_else, if◌then◌else◌,
}
use farfield.Ui.Operations.{has_index}

pub data ComparisonOperator : Type 0 where
  contains : ComparisonOperator
  eq : ComparisonOperator
  gt : ComparisonOperator
  gte : ComparisonOperator
  lt : ComparisonOperator
  lte : ComparisonOperator

-- `FilterClause`: a clause with a field is one of type "field", and one without of type "text".
pub record FilterClause : Type 0 where
  pub raw : Text
  pub negated : Bool
  pub field : Option Text
  pub operator : ComparisonOperator
  pub value : Text

pub record ParsedTimelineQuery : Type 0 where
  pub clauses : List FilterClause
  pub errors : List Text

-- `if (current) tokens.push(current)`, with the tokens that follow.
abbrev pub push_token : Text → List Text → List Text
push_token [] tokens = tokens
push_token (c ∷ s) tokens = (c ∷ s) ∷ tokens

-- The loop of `tokenize`, and whether a quote is open at its end.
unfoldable pub tokenize_from : Text → Text → Bool → List Text × Bool
tokenize_from [] current quoted = (push_token current [], quoted)
tokenize_from (c ∷ s) current quoted =
    let quotes = c == b'"' in
    let ends = not quotes && (is_space c && not quoted) in
    let (tokens, open_quote) =
      tokenize_from s (if ends then [] else current ++ c ∷ [])
        (if quotes then not quoted else quoted) in
    (if ends then push_token current tokens else tokens, open_quote)

-- `tokenize`
unfoldable pub tokenize : Text → List Text × Bool
tokenize query = tokenize_from (trim query) [] false

unfoldable pub drop_last : Text → Text
drop_last [] = []
drop_last (c ∷ []) = []
drop_last (c ∷ d ∷ s) = c ∷ drop_last (d ∷ s)

abbrev is_quote : Option ℕ → Bool
is_quote none = false
is_quote (some c) = c == b'"'

-- `unquote`
unfoldable pub unquote : Text → Text
unquote [] = []
unquote (c ∷ s) = if c == b'"' && is_quote (last? (c ∷ s)) then drop_last s else c ∷ s

abbrev pub filter_fields : List Text
filter_fields =
    text "kind"
    ∷ text "agent"
    ∷ text "tool"
    ∷ text "model"
    ∷ text "status"
    ∷ text "trace"
    ∷ text "offset"
    ∷ text "size"
    ∷ text "tokens"
    ∷ text "has"
    ∷ []

-- `isFilterField`
unfoldable pub is_filter_field : Text → Bool
is_filter_field value = mem_text value filter_fields || starts_with value (text "tag.")

-- What `.` matches.
abbrev pub is_in_line : ℕ → Bool
is_in_line c = not (c == 10 || c == 13 || c == 0x2028 || c == 0x2029)

-- `.+` up to the end.
abbrev is_line : Text → Bool
is_line s = is_truthy s && all is_in_line s

abbrev after_prefix : Text → ComparisonOperator → Text → Option (ComparisonOperator × Text)
after_prefix prefix operator s =
    let rest = drop (length prefix) s in
    if starts_with s prefix && is_line rest then some (operator, rest) else none

-- The match of `/^(>=|<=|>|<|=)(.+)$/`: the first alternative with something behind it.
unfoldable pub comparison : Text → Option (ComparisonOperator × Text)
comparison s = or_else (after_prefix (text ">=") gte s) (
    or_else (after_prefix (text "<=") lte s) (
      or_else (after_prefix (text ">") gt s)
        (or_else (after_prefix (text "<") lt s) (after_prefix (text "=") eq s))))

-- What lies before and behind the first colon.
unfoldable pub split_colon : Text → Option (Text × Text)
split_colon [] = none
split_colon (c ∷ s) =
    let rest = split_colon s in
    if c == b':'
    then some ([], s)
    else elim rest [ none ↦ none | some (name, value) ↦ some (c ∷ name, value) ]

pub data Parsed : Type 0 where
  clause : FilterClause → Parsed
  skipped : Parsed
  wrong : Text → Parsed

abbrev pub text_clause : Text → Bool → Text → Parsed
text_clause raw negated [] = skipped
text_clause raw negated (c ∷ value) =
    clause (record {
      raw = raw;
      negated = negated;
      field = none;
      operator = contains;
      value = c ∷ value;
    })

abbrev pub field_clause : Text → Bool → Text → ComparisonOperator → Text → Parsed
field_clause raw negated field operator value = clause (record {
  raw = raw;
  negated = negated;
  field = some field;
  operator = operator;
  value = value;
})

-- A clause of a field with what stands behind the colon, unquoted.
unfoldable pub parse_value : Text → Bool → Text → Text → Parsed
parse_value raw negated field [] = wrong (text "Add a value after " ++ (field ++ text ":."))
parse_value raw negated field (c ∷ value) = elim (comparison (c ∷ value)) [
  | none ↦ field_clause raw negated field contains (c ∷ value)
  | some (operator, compared) ↦ field_clause raw negated field operator compared
]

module _ (lower : Text → Text) where
  unfoldable pub parse_field : Text → Bool → Text → Text → Parsed
  parse_field raw negated name value =
      let field = lower name in
      if not (is_filter_field field)
      then wrong (text "Unknown field “" ++ (field ++ text "”."))
      else parse_value raw negated field (unquote value)

  -- A token without its sign.
  unfoldable pub parse_token : Text → Bool → Text → Parsed
  parse_token raw negated token = elim (split_colon token) [
    | none ↦ text_clause raw negated (unquote token)
    | some (name, value) ↦
        if is_truthy name
        then parse_field raw negated name value
        else text_clause raw negated (unquote token)
  ]

  -- A turn of the loop of `parseTimelineQuery`.
  unfoldable pub parse_raw : Text → Parsed
  parse_raw raw =
      let negated = starts_with raw (text "-") in
      parse_token raw negated (if negated then drop 1 raw else raw)

  -- The loop: the clauses and errors of the tokens, in order.
  unfoldable pub parse_tokens : List Text → ParsedTimelineQuery
  parse_tokens [] = record { clauses = []; errors = [] }
  parse_tokens (raw ∷ tokens) =
      let rest = parse_tokens tokens in
      elim (parse_raw raw) [
        | clause c ↦ record rest { clauses = c ∷ rest.clauses }
        | skipped ↦ rest
        | wrong message ↦ record rest { errors = message ∷ rest.errors }
      ]

  -- `parseTimelineQuery`
  unfoldable pub parse_timeline_query : Text → ParsedTimelineQuery
  parse_timeline_query query =
      let (tokens, open_quote) = tokenize query in
      let parsed = parse_tokens tokens in
      if open_quote
      then record parsed {
        errors = text "Close the open quote to apply this query." ∷ parsed.errors;
      }
      else parsed

-- `value.replaceAll('"', '\\"')`
unfoldable pub escape_quotes : Text → Text
escape_quotes [] = []
escape_quotes (c ∷ s) = let rest = escape_quotes s in if c == b'"' then 92 ∷ c ∷ rest else c ∷ rest

-- `quoteFilterValue`
unfoldable pub quote_filter_value : Text → Text
quote_filter_value value =
    if any is_space value then b'"' ∷ (escape_quotes value ++ b'"' ∷ []) else value

pub data ContextMode : Type 0 where
  matches_only : ContextMode
  with_context : ContextMode
  full : ContextMode

abbrev pub add_index : ℕ → List ℕ → List ℕ
add_index i set = if has_index set i then set else set ++ i ∷ []

-- The loop around a match: at most three turns, from the entry before it on.
unfoldable pub add_around : ℕ → ℕ → ℕ → ℕ → List ℕ → List ℕ
add_around zero n stop current set = set
add_around (suc turns) n stop current set =
    if leb current stop && ltb current n
    then add_around turns n stop (suc current) (add_index current set)
    else set

unfoldable pub add_contexts : ℕ → List ℕ → List ℕ → List ℕ
add_contexts n [] set = set
add_contexts n (i ∷ matches) set = add_contexts n matches (add_around 3 n (suc i) (i - 1) set)

unfoldable pub all_indexes : ℕ → ℕ → List ℕ
all_indexes zero i = []
all_indexes (suc n) i = i ∷ all_indexes n (suc i)

-- `indexesForContext`
unfoldable pub indexes_for_context : ℕ → List ℕ → ContextMode → List ℕ
indexes_for_context n matches full = all_indexes n 0
indexes_for_context n matches matches_only = matches
indexes_for_context n matches with_context = add_contexts n matches []
