-- ===== src/Ui/Panels/Detail.antt =====
-- The detail of an operation, server/ui/src/components/trace-inspector.tsx.
use farfield.Base.{
  ◌≡◌, ◌≢◌, refl, arith, text_eq_iff, starts_with, ℕ, ◌==◌, Bool, true, false, not, ◌&&◌, List, [],
  ◌∷◌, ◌++◌, Option, none, some, Text, text, text_eq, is_present, get_or, length, decimal,
  if◌then◌else◌,
}
use farfield.Sdk.Types.{Number}
use farfield.Ui.History.{TimelineEntry, Category, tool, has_kind, event_category}
use farfield.Ui.Operations.{TraceOperation, find_entry, make_operation}
use farfield.Ui.Format.{format_duration, short_id}
use farfield.Ui.Panels.{Panel, Printing, pretty_content}

abbrev is_tool : Category → Bool
is_tool tool = true
is_tool _ = false

module _ (printing : Printing) where
  open printing use {engine, format_number}

  -- The result of a tool's operation, if its record is not the first one.
  unfoldable pub tool_result_of : TraceOperation → Option TimelineEntry
  tool_result_of operation =
      other (find_entry engine (has_kind (text "tool.result")) operation.entries)
    where
      other : Option TimelineEntry → Option TimelineEntry
      other none = none
      other (some result) =
          if is_tool operation.category
            && not (text_eq result.history_record.id operation.primary.history_record.id)
          then some result
          else none

  -- The panels of the rendered tab, in order.
  unfoldable pub operation_panels : TraceOperation → List Panel
  operation_panels operation =
      pretty_content printing operation.primary ∷ behind (tool_result_of operation)
    where
      behind : Option TimelineEntry → List Panel
      behind none = []
      behind (some result) = pretty_content printing result ∷ []

  -- `totalBytes`
  unfoldable pub total_bytes : List TimelineEntry → Number → Number
  total_bytes [] sum = sum
  total_bytes (entry ∷ entries) sum = total_bytes entries (engine.add sum entry.history_record.size)

  unfoldable pub duration_shown : Option ℕ → Text
  duration_shown none = text "Instant"
  duration_shown (some n) = if n == 0 then text "Instant" else format_duration (some n)

  unfoldable pub trace_shown : Option Text → Text
  trace_shown trace = if is_present trace then short_id (get_or trace []) 18 else text "Not linked"

  unfoldable pub evidence_shown : TraceOperation → Text
  evidence_shown operation =
      let n = length operation.entries in
      decimal n
      ++ (text " record"
          ++ ((if n == 1 then [] else text "s")
              ++ (text " · "
                  ++ (format_number (total_bytes operation.entries engine.zero_number)
                      ++ text " bytes"))))

  unfoldable pub agent_shown : TraceOperation → Text
  agent_shown operation = get_or operation.primary.history_record.agent (text "Not attributed")

-- The operation of a call that is paired with a result, which has another id, shows both records.
pub operation_panels-paired :
    (printing : Printing) (call result : TimelineEntry) (n : ℕ)
    → call.history_record.kind ≡ text "tool.call"
    → result.history_record.kind ≡ text "tool.result"
    → result.history_record.id ≢ call.history_record.id
    → operation_panels printing (make_operation printing.engine call (result ∷ []) n)
      ≡ pretty_content printing call ∷ pretty_content printing result ∷ []
unfolding operation_panels tool_result_of make_operation find_entry event_category text text_eq
    starts_with
operation_panels-paired printing call result n is_call is_result differ =
    rw (is_call, is_result, differ_ids) refl
  where
    differ_ids : text_eq result.history_record.id call.history_record.id ≡ false
    differ_ids = ground (arith, text_eq_iff result.history_record.id call.history_record.id)
