-- ===== src/Ui/Demo.antt =====
-- server/ui/src/lib/demo-data.ts: the sessions of the demonstration. The list of scenarios is an
-- argument; a scenario has at least one tool.
pub mod Timeline
pub mod Entries
pub mod Chain
mod Tests
use Prim.Native.Nat.{◌/◌, ◌%◌}
use farfield.Base.{
  ℕ, zero, suc, ◌+◌, ◌-◌, ◌*◌, ◌==◌, Bool, true, false, not, ◌&&◌, ◌||◌, List, [], ◌∷◌, ◌++◌, map,
  Option, none, some, Text, text, text_eq, starts_with, mem_text, get_or, length, keep, decimal,
  if◌then◌else◌,
}
use farfield.Sdk.Types.{Number, Tags}
use farfield.Integrations.Payload.{
  Json, boolean, number, str, arr, obj, Items, nil, cons, Fields, end, field,
}
use farfield.Ui.History.{TimelineEntry}

pub record Failure : Type 0 where
  -- The number of the call of a tool, or none for "last".
  pub tool_call : Option ℕ
  pub terminal : Bool
  pub code : Text
  pub message : Text

pub record Scenario : Type 0 where
  pub slug : Text
  pub agents : List Text
  pub prompt : Text
  pub records : ℕ
  pub model : Text
  pub tools : List Text
  pub environment : Text
  pub team : Text
  pub failure : Option Failure

-- What the engine does: the double of a number; the time of the entry at an index of so many, and
-- the time 14 milliseconds behind one; and the bytes of a content in JSON.
pub record Clock : Type 0 where
  pub double : ℕ → Number
  pub occurred : Scenario → ℕ → ℕ → Text
  pub recorded : Text → Text
  pub size : Json → Number

abbrev replace_unit : ℕ → ℕ → Text → Text
replace_unit a b = map (λ c. if c == a then b else c)

-- `replaceAll("-", " ")` and `replaceAll("_", " ")`
abbrev dashless : Text → Text
dashless = replace_unit b'-' 32

abbrev underscoreless : Text → Text
underscoreless = replace_unit b'_' 32

unfoldable pub zeros : ℕ → Text
zeros zero = []
zeros (suc n) = b'0' ∷ zeros n

-- `String(n).padStart(3, "0")`
unfoldable pub pad_three : ℕ → Text
pad_three n = let s = decimal n in zeros (3 - length s) ++ s

-- An element of an array, with `undefined` outside of it.
unfoldable pub element_at : ℕ → List Text → Option Text
element_at n [] = none
element_at zero (s ∷ values) = some s
element_at (suc n) (s ∷ values) = element_at n values

-- `values[index % values.length]`
abbrev cycled : ℕ → List Text → Option Text
cycled index values = if length values == 0 then none else element_at (index % length values) values

-- `providerForModel`
unfoldable pub provider_for_model : Text → Text
provider_for_model model =
    if starts_with model (text "claude")
    then text "anthropic"
    else if starts_with model (text "gemini")
    then text "google"
    else text "openai"

abbrev is_search_tool : Text → Bool
is_search_tool tool = mem_text tool (
    text "web_search"
    ∷ text "github_search"
    ∷ text "search_advisories"
    ∷ text "search_tickets"
    ∷ [])

abbrev is_reading_tool : Text → Bool
is_reading_tool tool =
    mem_text tool (text "read_file" ∷ text "read_policy" ∷ text "read_runbook" ∷ [])

abbrev object : List (Text × Json) → Json
object entries = obj (fields entries)
  where
    fields : List (Text × Json) → Fields
    fields [] = end
    fields ((key, value) ∷ more) = field key value (fields more)

abbrev texts : List Text → Json
texts values = arr (items values)
  where
    items : List Text → Items
    items [] = nil
    items (s ∷ more) = cons (str s) (items more)

module _ (clock : Clock) where
  open clock use {double, occurred, recorded, size}

  abbrev count : ℕ → Json
  count n = number (double n)

  -- `toolInput`
  unfoldable pub tool_input : Text → Scenario → ℕ → Json
  tool_input tool scenario index =
      if is_search_tool tool
      then object (
          (text "query", str (dashless scenario.slug ++ (text " evidence " ++ decimal (index + 1))))
          ∷ [])
      else if text_eq tool (text "exec")
      then object (
          (
            text "command",
            str (if index % 2 == 0 then text "git diff --check" else text "go test ./..."),
          )
          ∷ [])
      else if is_reading_tool tool
      then object (
          (text "path", str (text "docs/" ++ (scenario.slug ++ text ".md")))
          ∷ (text "line_start", count 1)
          ∷ (text "line_end", count 160)
          ∷ [])
      else object (
          (text "scope", str scenario.team)
          ∷ (text "window", str (text "24h"))
          ∷ (text "operation", str (underscoreless tool))
          ∷ [])

  -- A result of a search.
  abbrev search_result : Scenario → ℕ → ℕ → Json
  search_result scenario index result = object (
      (
        text "title",
        str (
            scenario.team
            ++ (text " evidence " ++ (decimal (index + 1) ++ (text "." ++ decimal (result + 1))))),
      )
      ∷ (
        text "url",
        str (
            text "https://example.com/"
            ++ (scenario.slug
                ++ (text "/" ++ (decimal (index + 1) ++ (text "/" ++ decimal (result + 1)))))),
      )
      ∷ (
        text "page_age",
        str (if result == 0 then text "2 hours" else decimal (result + 1) ++ text " days"),
      )
      ∷ [])

  -- The result of a call that failed.
  unfoldable pub failed_result : Text → Failure → Json
  failed_result tool failure = object (
      (text "ok", boolean false)
      ∷ (
        text "error",
        object (
            (text "code", str failure.code)
            ∷ (text "message", str failure.message)
            ∷ (text "retryable", boolean (not failure.terminal))
            ∷ []),
      )
      ∷ (text "attempt", count (if failure.terminal then 3 else 1))
      ∷ (text "tool", str tool)
      ∷ [])

  -- The result of a call that did not fail.
  unfoldable pub verified_result : Text → Scenario → ℕ → Json
  verified_result tool scenario index =
      if is_search_tool tool
      then object (
          (
            text "content",
            arr (
                cons (search_result scenario index 0) (
                  cons (search_result scenario index 1)
                    (cons (search_result scenario index 2) nil))),
          )
          ∷ [])
      else object (
          (text "ok", boolean true)
          ∷ (text "rows", count (120 + index * 7))
          ∷ (text "summary", str (underscoreless tool ++ text " completed with verified output"))
          ∷ [])

  -- `toolResult`
  unfoldable pub tool_result : Text → Scenario → ℕ → Bool → Json
  tool_result tool scenario index failed = of_failure scenario.failure failed
    where
      of_failure : Option Failure → Bool → Json
      of_failure (some failure) true = failed_result tool failure
      of_failure _ _ = verified_result tool scenario index
