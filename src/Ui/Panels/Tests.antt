-- ===== src/Ui/Panels/Tests.antt =====
-- Panels of records on small inputs, server/ui/src/components/trace-inspector.tsx.
use farfield.Base.{
  ◌≡◌, refl, true, false, [], ◌∷◌, none, some, text, text_eq, option_eq, includes, starts_with,
  decimal, decimal_from, join,
}
use farfield.Integrations.Payload.{null, str, arr, obj, nil, cons, end, field, prop}
use farfield.Ui.Samples.{matching, entry_of}
use farfield.Ui.History.{
  TimelineEntry, as_object, is_reasoning_entry, string_of, first_text, reasoning_text_for_entry,
}
use farfield.Ui.Review.{has_error}
use farfield.Ui.Panels.{
  Printing, query_panel, evidence_panel, output_panel, display, objects_of, evidence_from,
  evidence_panel_of, call_panel, result_panel, panel_of_kind, pretty_content,
}

abbrev printing : Printing
printing = record {
  engine = matching.engine;
  stringify = matching.stringify;
  format_number = λ n. text "n";
}

abbrev call : TimelineEntry
call = record (entry_of (text "1") (text "tool.call") none) {
  content = obj (
      field (text "name") (str (text "search"))
        (field (text "input") (obj (field (text "query") (str (text "antt")) end)) end));
}

abbrev result : TimelineEntry
result = record (entry_of (text "2") (text "tool.result") none) {
  content = obj (
      field (text "content")
        (arr (cons null (cons (obj (field (text "url") (str (text "u")) end)) nil))) end);
}

computes : Unit {0}
unfolding text text_eq option_eq includes starts_with decimal decimal_from join prop as_object
    is_reasoning_entry string_of first_text reasoning_text_for_entry display objects_of
    evidence_from evidence_panel_of call_panel result_panel panel_of_kind pretty_content
computes = tt

panels_test :
    (pretty_content printing call ≡ query_panel (text "search") (text "antt"))
    × (pretty_content printing result
        ≡ evidence_panel 1
            (record { title = text "Result 1"; url = some (text "u"); age = none } ∷ [])
            0)
unfolding computes
panels_test = (refl, refl)

display_test :
    (display printing (some null) ≡ text "—")
    × (display printing (some (str (text "a"))) ≡ text "a")
unfolding computes
display_test = (refl, refl)

-- A status in capitals is an error of the review and none of the panel.
abbrev broken : TimelineEntry
broken = record {
  history_record = record (call.history_record) {
    kind = text "tool.result";
    status = some (text "ERROR");
  };
  content = obj end;
}

status_test :
    (pretty_content printing broken ≡ output_panel false (text "ERROR") (obj end))
    × (has_error matching.engine broken ≡ true)
unfolding computes has_error
status_test = (refl, refl)
