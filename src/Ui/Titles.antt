-- ===== src/Ui/Titles.antt =====
-- The titles of operations, server/ui/src/lib/trace-operations.ts.
use farfield.Base.{
  ℕ, ◌+◌, ◌-◌, ◌==◌, leb, Bool, false, not, ◌&&◌, ◌||◌, [], ◌∷◌, ◌++◌, map, Option, none, some,
  Text, text, text_eq, starts_with, includes, trim, get_or, drop, if◌then◌else◌,
}
use farfield.Integrations.Payload.{Json, null}
use farfield.Ui.History.{TimelineEntry, Engine, as_object, as_text, prop_of, string_of}

-- `\w`
abbrev is_word : ℕ → Bool
is_word c =
    (leb b'a' c && leb c b'z')
    || (leb b'A' c && leb c b'Z')
    || (leb b'0' c && leb c b'9')
    || c == b'_'

abbrev upper_unit : ℕ → ℕ
upper_unit c = if leb b'a' c && leb c b'z' then c - 32 else c

abbrev lower_unit : ℕ → ℕ
lower_unit c = if leb b'A' c && leb c b'Z' then c + 32 else c

-- `.replace(/\b\w/g, (letter) => letter.toUpperCase())`, behind a unit that is a word's or not.
unfoldable pub capitalize : Bool → Text → Text
capitalize in_word [] = []
capitalize in_word (c ∷ s) =
    (if is_word c && not in_word then upper_unit c else c) ∷ capitalize (is_word c) s

abbrev spaced : ℕ → ℕ
spaced c = if c == b'_' || c == b'-' then 32 else c

-- `humanize`
unfoldable pub humanize : Text → Text
humanize value = capitalize false (map spaced value)

-- `/^search$/i`
abbrev is_search : Text → Bool
is_search s = text_eq (map lower_unit s) (text "search")

-- `/^_?search$/i`
abbrev is_search_ending : Text → Bool
is_search_ending [] = false
is_search_ending (c ∷ s) = is_search (c ∷ s) || (c == b'_' && is_search s)

-- `.replace(/_?search$/i, "")`
unfoldable pub without_search : Text → Text
without_search [] = []
without_search (c ∷ s) =
    let rest = without_search s in if is_search_ending (c ∷ s) then [] else c ∷ rest

module _ (engine : Engine) where
  open engine use {lower}

  -- `toolVerb`
  unfoldable pub tool_verb : Text → Text
  tool_verb tool =
      let normalized = lower tool in
      if text_eq normalized (text "github_search")
      then text "Search GitHub"
      else if text_eq normalized (text "web_search")
      then text "Search web"
      else if includes normalized (text "search")
      then trim (text "Search " ++ humanize (without_search tool))
      else if starts_with normalized (text "read_")
      then text "Read " ++ humanize (drop 5 tool)
      else if includes normalized (text "query")
      then humanize tool
      else if includes normalized (text "fetch")
      then humanize tool
      else if text_eq normalized (text "exec")
      then text "Run command"
      else text "Run " ++ humanize tool

  -- `String(value ?? "tool")`
  abbrev text_or_tool : Option Json → Text
  text_or_tool none = text "tool"
  text_or_tool (some null) = text "tool"
  text_or_tool (some v) = string_of engine v

  abbrev asked_model : Option Text → Text
  asked_model none = text "Asked model"
  asked_model (some model) = text "Asked " ++ model

  -- `eventTitle`
  unfoldable pub event_title : TimelineEntry → Text
  event_title entry =
      let content = as_object (some entry.content) in
      let kind = entry.history_record.kind in
      let tool = entry.history_record.tool in
      if text_eq kind (text "agent.turn.started")
      then text "Started agent turn"
      else if text_eq kind (text "agent.turn.completed")
      then text "Completed agent turn"
      else if text_eq kind (text "message.user")
      then text "User request"
      else if text_eq kind (text "message.assistant")
      then text "Agent response"
      else if text_eq kind (text "model.request")
      then asked_model (as_text (prop_of (text "model") content))
      else if text_eq kind (text "model.response")
      then text "Received model response"
      else if text_eq kind (text "tool.call")
      then tool_verb (get_or tool (text_or_tool (prop_of (text "name") content)))
      else if text_eq kind (text "tool.result")
      then humanize (get_or tool (text "Tool")) ++ text " result"
      else if text_eq kind (text "test.evidence")
      then text "Verified evidence"
      else humanize kind
