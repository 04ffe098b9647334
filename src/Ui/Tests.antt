-- ===== src/Ui/Tests.antt =====
-- The viewer's parts on small inputs, server/ui/src/lib.
use farfield.Base.{
  ◌≡◌, refl, List, [], ◌∷◌, ◌++◌, map, none, some, Text, text, text_eq, option_eq, keep, concat,
  All, length, get_or, starts_with, includes, trim, is_space, trim_end, trim_start, if◌then◌else◌,
}
use farfield.Integrations.Payload.{null}
use farfield.Ui.History.{TimelineEntry, Engine, as_object, first_text}
use farfield.Ui.History.Analysis.{complete, failed, is_failure, lowered, analyze_session}
use farfield.Ui.History.Analysis.Status.{analyze_session-terminal}
use farfield.Ui.History.Analysis.Tallies.{
  collect, collect_found, trace_of, model_of, first_given, sum_from, reported, counted,
  analyze_session-collects,
}
use farfield.Ui.Titles.{humanize, capitalize, tool_verb, without_search}
use farfield.Ui.Review.{build_review_blocks}
use farfield.Ui.Review.Blocks.{
  entries_in, IsReviewBlock, IsAlternating, build_review_blocks-IsFlushed,
}
use farfield.Ui.Operations.{
  TraceOperation, make_operation, build_trace_operations, build_operations, operation_at,
  operation_alone, find_result, is_match, is_result, take_chunks, tool_use_id, has_index,
}
use farfield.Ui.Operations.Counts.{count_grouped, entries_of, stays, build_trace_operations-counts}
use farfield.Ui.Format.{minutes, shown_duration, fixed_tenths}

abbrev engine : Engine
engine = record {
  lower = λ s. s;
  get_time = λ s. some (length s);
  number_text = λ n. [];
  add = λ a b. a;
  zero_number = record { bits = 0 };
}

abbrev entry_of : Text → Text → TimelineEntry
entry_of id kind = record {
  history_record = record {
    id = id;
    conversation_id = text "c";
    kind = kind;
    occurred_at = text "t";
    recorded_at = text "t";
    sequence = none;
    trace_id = some (text "tr");
    span_id = none;
    parent_id = none;
    agent = none;
    tool = none;
    status = none;
    tags = [];
    size = record { bits = 0 };
  };
  content = null;
}

abbrev completed_turn : TimelineEntry
completed_turn = entry_of (text "2") (text "agent.turn.completed")

abbrev asked : TimelineEntry
asked = entry_of (text "1") (text "message.user")

abbrev called : TimelineEntry
called = entry_of (text "3") (text "tool.call")

abbrev resulted : TimelineEntry
resulted = entry_of (text "4") (text "tool.result")

computes : Unit {0}
unfolding text text_eq make_operation build_trace_operations build_operations operation_at
    operation_alone find_result is_match take_chunks tool_use_id has_index shown_duration
    fixed_tenths first_text as_object option_eq humanize capitalize tool_verb without_search
    includes starts_with trim is_space trim_end trim_start
computes = tt

-- A call and its result are one operation.
operations_test :
    map (λ o. o.grouped_count) (build_trace_operations engine (asked ∷ called ∷ resulted ∷ []))
    ≡ 1 ∷ 2 ∷ []
unfolding computes
operations_test = refl

titles_test :
    (humanize (text "web-page_read") ≡ text "Web Page Read")
    × (tool_verb engine (text "code_search") ≡ text "Search Code")
unfolding computes
titles_test = (refl, refl)

-- 119.6 seconds.
sixty_test : shown_duration (some 119600) ≡ minutes 1 60
unfolding computes
sixty_test = refl

-- 1.45 is a little more in decimals than as a double.
tenths_test : (fixed_tenths 1450 ≡ 14) × (fixed_tenths 1250 ≡ 13)
unfolding computes
tenths_test = (refl, refl)

analyze_session-terminal_example :
    (analyze_session engine ((asked ∷ []) ++ completed_turn ∷ called ∷ [])).status ≡ (
      if is_failure (get_or (lowered engine completed_turn.history_record.status) [])
      then failed
      else complete)
unfolding computes
analyze_session-terminal_example =
    analyze_session-terminal engine (asked ∷ []) completed_turn (called ∷ []) refl (refl, tt)

abbrev session : List TimelineEntry
session = asked ∷ called ∷ resulted ∷ completed_turn ∷ []

analyze_session-collects_example :
    ((analyze_session engine session).traces ≡ collect (map trace_of session) [])
    × ((analyze_session engine session).models ≡ collect_found (map model_of session) [])
    × (get_or (analyze_session engine session).prompt [] ≡ first_given session)
    × ((analyze_session engine session).input_tokens
        ≡ sum_from engine engine.zero_number
            (map (reported engine (text "input_tokens")) (keep counted session)))
    × ((analyze_session engine session).output_tokens
        ≡ sum_from engine engine.zero_number
            (map (reported engine (text "output_tokens")) (keep counted session)))
analyze_session-collects_example = analyze_session-collects engine session

build_review_blocks-IsFlushed_example :
    (concat (map entries_in (build_review_blocks engine session)) ≡ session)
    × All IsReviewBlock (build_review_blocks engine session)
    × IsAlternating (build_review_blocks engine session)
build_review_blocks-IsFlushed_example = build_review_blocks-IsFlushed engine session

build_trace_operations-counts_example :
    (length (keep (stays is_result) (entries_of (build_trace_operations engine session)))
      ≡ length (keep (stays is_result) session))
    × (count_grouped (build_trace_operations engine session) ≡ 4)
build_trace_operations-counts_example = build_trace_operations-counts is_result engine session

abbrev answer : TraceOperation
answer = make_operation engine (entry_of (text "5") (text "message.assistant")) [] 1
