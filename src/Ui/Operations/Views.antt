-- ===== src/Ui/Operations/Views.antt =====
-- Which operations the viewer shows, server/ui/src/lib/trace-operations.ts.
use farfield.Base.{
  ℕ, suc, ◌+◌, ◌<◌, ◌==◌, leb, ◌≡◌, refl, ap, ◌∙◌, Bool, true, false, ◌||◌, List, [], ◌∷◌, ◌++◌,
  Option, none, some, text, option_eq, or_else, any, keep, All, arith, if◌then◌else◌,
}
use farfield.Ui.History.{Engine, Category, tool, test, has_kind, is_reasoning_entry}
use farfield.Ui.Operations.{TraceOperation, is_assistant}

pub data TraceDensity : Type 0 where
  overview : TraceDensity
  full_trace : TraceDensity
  all_records : TraceDensity

pub data TraceFocus : Type 0 where
  everything : TraceFocus
  tools : TraceFocus
  reasoning : TraceFocus
  slow : TraceFocus
  errors : TraceFocus

abbrev is_tool : Category → Bool
is_tool tool = true
is_tool _ = false

abbrev is_test : Category → Bool
is_test test = true
is_test _ = false

abbrev pub responds : TraceOperation → Bool
responds operation = is_assistant operation.primary

-- `operation.status === "error"`
abbrev pub has_failed : TraceOperation → Bool
has_failed operation = option_eq operation.status (some (text "error"))

-- The tests of the overview, but for the one of the index.
unfoldable pub is_outlined : TraceOperation → Bool
is_outlined operation =
    is_tool operation.category
    || is_test operation.category
    || has_kind (text "agent.turn.started") operation.primary
    || has_kind (text "agent.turn.completed") operation.primary
    || has_kind (text "message.user") operation.primary
    || has_failed operation

-- The loop from the end, which stops at the first response that it meets.
unfoldable pub final_response : ℕ → List TraceOperation → Option ℕ
final_response index [] = none
final_response index (operation ∷ operations) =
    or_else (final_response (suc index) operations)
      (if responds operation then some index else none)

abbrev is_index : Option ℕ → ℕ → Bool
is_index none index = false
is_index (some i) index = i == index

-- The filter of the overview, from an index on.
unfoldable pub outline : Option ℕ → ℕ → List TraceOperation → List TraceOperation
outline final index [] = []
outline final index (operation ∷ operations) =
    let rest = outline final (suc index) operations in
    if is_outlined operation || is_index final index then operation ∷ rest else rest

-- `operationsForDensity`
unfoldable pub operations_for_density : List TraceOperation → TraceDensity → List TraceOperation
operations_for_density operations overview = outline (final_response 0 operations) 0 operations
operations_for_density operations full_trace = operations
operations_for_density operations all_records = operations

abbrev lasts : ℕ → Option ℕ → Bool
lasts n none = false
lasts n (some duration) = leb n duration

-- `operationMatchesFocus`
unfoldable pub operation_matches_focus : Engine → TraceOperation → TraceFocus → Bool
operation_matches_focus engine operation everything = true
operation_matches_focus engine operation tools = is_tool operation.category
operation_matches_focus engine operation reasoning =
    any (is_reasoning_entry engine) operation.entries
operation_matches_focus engine operation slow = lasts 1000 operation.duration
operation_matches_focus engine operation errors = has_failed operation

final_response-none :
    (index : ℕ) (operations : List TraceOperation)
    → All (λ o. responds o ≡ false) operations
    → final_response index operations ≡ none
unfolding final_response
final_response-none index [] h = refl
final_response-none index (o ∷ operations) (h, hs) =
    rw (final_response-none (suc index) operations hs, h) refl

length_of : List TraceOperation → ℕ
length_of [] = 0
length_of (o ∷ operations) = suc (length_of operations)

final_response-append :
    (index : ℕ) (before : List TraceOperation) (last : TraceOperation) (after : List TraceOperation)
    → responds last ≡ true
    → All (λ o. responds o ≡ false) after
    → final_response index (before ++ last ∷ after) ≡ some (index + length_of before)
unfolding final_response length_of
final_response-append index [] last after h hs =
    rw (final_response-none (suc index) after hs, h) (ap some (omega arith))
final_response-append index (o ∷ before) last after h hs =
    rw (final_response-append (suc index) before last after h hs) (ap some (omega arith))

-- Past the index that is looked for.
outline-behind :
    (i index : ℕ) (operations : List TraceOperation)
    → i < index
    → outline (some i) index operations ≡ keep is_outlined operations
unfolding outline
outline-behind i index [] h = refl
outline-behind i index (o ∷ operations) h = ground (arith, outline-behind i (suc index) operations)

outline-append :
    (i index : ℕ) (before : List TraceOperation) (last : TraceOperation)
    (after : List TraceOperation)
    → i ≡ index + length_of before
    → outline (some i) index (before ++ last ∷ after)
      ≡ keep is_outlined before ++ last ∷ keep is_outlined after
unfolding outline length_of
outline-append i index [] last after e = ground (arith, outline-behind i (suc index) after)
outline-append i index (o ∷ before) last after e =
    ground (arith, outline-append i (suc index) before last after)

-- The overview of a trace keeps the last response of the agent and what is outlined before and
-- behind it, in order: an earlier response is kept only if it has failed.
pub operations_for_density-overview :
    (before : List TraceOperation) (last : TraceOperation) (after : List TraceOperation)
    → responds last ≡ true
    → All (λ o. responds o ≡ false) after
    → operations_for_density (before ++ last ∷ after) overview
      ≡ keep is_outlined before ++ last ∷ keep is_outlined after
unfolding operations_for_density
operations_for_density-overview before last after h hs =
    ap (λ final. outline final 0 (before ++ last ∷ after))
      (final_response-append 0 before last after h hs)
    ∙ outline-append (0 + length_of before) 0 before last after refl
