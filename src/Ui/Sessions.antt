-- ===== src/Ui/Sessions.antt =====
-- The list of sessions and their titles: server/ui/src/components/session-list.tsx, titleFromID of
-- server/ui/src/lib/utils.ts and promptTitle of server/ui/src/components/trace-inspector.tsx.
pub mod TitleBounds
mod Tests
use farfield.Base.{
  ℕ, zero, suc, ◌+◌, ◌-◌, ltb, leb, ◌==◌, Bool, true, false, not, ◌&&◌, ◌||◌, List, [], ◌∷◌, ◌++◌,
  map, Option, none, some, Text, text, text_eq, starts_with, includes, is_truthy, is_present,
  get_or, trim, is_space, mem_text, any, all, keep, drop, take, length, join, if◌then◌else◌,
}
use farfield.Ui.App.{ConversationSummary}

pub data SummaryStatus : Type 0 where
  complete : SummaryStatus
  captured : SummaryStatus
  evidence : SummaryStatus

-- `summaryStatus`
unfoldable pub summary_status : ConversationSummary → SummaryStatus
summary_status conversation =
    if any (λ kind. text_eq kind (text "agent.turn.completed")) conversation.kinds
    then complete
    else if any (λ kind. starts_with kind (text "message.")) conversation.kinds
    then captured
    else evidence

pub data FilterKind : Type 0 where
  all_kinds : FilterKind
  agent_kind : FilterKind
  test_kind : FilterKind

-- `typeMatches`
unfoldable pub type_matches : FilterKind → ConversationSummary → Bool
type_matches all_kinds conversation = true
type_matches agent_kind conversation =
    any (λ kind. starts_with kind (text "agent.")) conversation.kinds
type_matches test_kind conversation =
    any (λ kind. starts_with kind (text "test.")) conversation.kinds

-- `toLowerCase` is given.
module _ (lower : Text → Text) where
  -- `textMatches`, for the query without its case.
  unfoldable pub text_matches : Text → ConversationSummary → Bool
  text_matches normalized conversation =
      not (is_truthy normalized)
      || includes (lower conversation.id) normalized
      || any (λ agent. includes (lower agent) normalized) conversation.agents

  -- `filtered`
  unfoldable pub filtered_sessions :
      Text → FilterKind → List ConversationSummary → List ConversationSummary
  filtered_sessions query filter conversations =
      let normalized = lower (trim query) in
      keep (λ c. type_matches filter c && text_matches normalized c) conversations

abbrev pub is_digit : ℕ → Bool
is_digit c = leb b'0' c && leb c b'9'

-- `[a-f\d]` without regard to case.
abbrev is_hex : ℕ → Bool
is_hex c = is_digit c || (leb b'a' c && leb c b'f') || (leb b'A' c && leb c b'F')

-- `replace(/^conv_/, "")`
abbrev without_prefix : Text → Text
without_prefix s = if starts_with s (text "conv_") then drop 5 s else s

-- `replace(/_[a-f\d]{8,}$/i, "")`
unfoldable pub without_hex : Text → Text
without_hex [] = []
without_hex (c ∷ s) =
    let rest = without_hex s in
    if c == b'_' && leb 8 (length s) && all is_hex s then [] else c ∷ rest

-- `T\d{6}Z` at the start of a text.
abbrev is_time : Text → Bool
is_time s =
    starts_with s (text "T")
    && all is_digit (take 6 (drop 1 s))
    && starts_with (drop 7 s) (text "Z")

-- `_\d{8}` at the start of a text.
abbrev is_date : Text → Bool
is_date s = starts_with s (text "_") && leb 9 (length s) && all is_digit (take 8 (drop 1 s))

-- `replace(pattern, "")` with the flag g, of a pattern that matches the number of units that is
-- given; the first number is how many units of a match are still to go.
unfoldable pub without_matches : (Text → Bool) → ℕ → ℕ → Text → Text
without_matches p width skip [] = []
without_matches p width (suc skip) (c ∷ s) = without_matches p width skip s
without_matches p width zero (c ∷ s) =
    let inside = without_matches p width (width - 1) s in
    let behind = without_matches p width zero s in if p (c ∷ s) then inside else c ∷ behind

abbrev is_separator : ℕ → Bool
is_separator c = c == b'.' || c == b'_' || c == b'/' || c == b'-'

-- `split(/[._/-]+/).filter(Boolean)`: the parts between separators that are not empty.
unfoldable pub words_of : Text → List Text
words_of s = keep is_truthy (parts s)
  where
    add_unit : ℕ → List Text → List Text
    add_unit c [] = (c ∷ []) ∷ []
    add_unit c (word ∷ words) = (c ∷ word) ∷ words

    parts : Text → List Text
    parts [] = [] ∷ []
    parts (c ∷ s) = if is_separator c then [] ∷ parts s else add_unit c (parts s)

abbrev pub or_else_text : Text → Text → Text
or_else_text s other = if is_truthy s then s else other

-- `titleFromID`, where `toUpperCase` is given.
unfoldable pub title_from_id : (Text → Text) → Text → Text
title_from_id upper value =
    let named = without_hex (without_prefix value) in
    let dateless = without_matches is_date 9 0 (without_matches is_time 8 0 named) in
    or_else_text
      (join (text " ") (map (λ word. upper (take 1 word) ++ drop 1 word) (words_of dateless)))
      (text "Untitled session")

abbrev pub dashes_to_spaces : Text → Text
dashes_to_spaces = map (λ c. if c == b'-' then 32 else c)

abbrev pub first_agent : List Text → Option Text
first_agent [] = none
first_agent (agent ∷ _) = some agent

-- The name of a session in the list.
unfoldable pub session_name : (Text → Text) → ConversationSummary → Text
session_name upper conversation =
    dashes_to_spaces
      (get_or (first_agent conversation.agents) (title_from_id upper conversation.id))

-- `replace(/\s+/g, " ")`, behind white space or not.
unfoldable pub collapse_spaces : Bool → Text → Text
collapse_spaces after [] = []
collapse_spaces after (c ∷ s) =
    let rest = collapse_spaces (is_space c) s in
    if is_space c then (if after then rest else b' ' ∷ rest) else c ∷ rest

abbrev is_stop : ℕ → Bool
is_stop c = c == b'.' || c == b'!' || c == b'?'

abbrev ends_or_space : Text → Bool
ends_or_space [] = true
ends_or_space (c ∷ _) = is_space c

abbrev pub cons_unit : ℕ → Option Text → Option Text
cons_unit c none = none
cons_unit c (some s) = some (c ∷ s)

-- The group of `/^(.{24,105}?[.!?])(?:\s|$)/`, of a text without line ends, behind a number of units.
unfoldable pub first_sentence : ℕ → Text → Option Text
first_sentence n [] = none
first_sentence n (c ∷ s) =
    let rest = first_sentence (suc n) s in
    if leb 24 n && leb n 105 && is_stop c && ends_or_space s
    then some (c ∷ [])
    else cons_unit c rest

-- `promptTitle`
unfoldable pub prompt_title : Option Text → List Text → Text
prompt_title prompt agents =
    let clean = trim (collapse_spaces false (get_or prompt [])) in
    let start = take 104 clean ++ (if ltb 104 (length clean) then text "…" else []) in
    if is_present prompt
    then get_or (first_sentence 0 clean) start
    else dashes_to_spaces (get_or (first_agent agents) (text "Captured session"))
