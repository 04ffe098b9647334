-- ===== src/Ui/Match/Tests.antt =====
-- Entries matched against queries on small inputs, server/ui/src/lib/timeline-filter.ts.
use farfield.Base.{
  ◌≡◌, refl, true, false, not, none, some, text, text_eq, starts_with, includes, trim, trim_end,
  trim_start, is_space, mem_text,
}
use farfield.Ui.Filter.{
  FilterClause, contains, parse_timeline_query, parse_tokens, parse_raw, parse_token, parse_field,
  parse_value, split_colon, comparison, is_filter_field, unquote, drop_last, tokenize,
  tokenize_from,
}
use farfield.Ui.Compare.{
  compare_text, compare_whole, match_pattern, match_star, split_bar, split_amount, span_text,
  multiplier,
}
use farfield.Ui.Match.{clause_holds, timeline_entry_matches, field_matches, text_of_field}
use farfield.Ui.Samples.{matching, call}
use farfield.Ui.Match.Negation.{timeline_entry_matches-minus}

computes : Unit {0}
unfolding text text_eq trim trim_end trim_start is_space starts_with includes mem_text
    parse_timeline_query parse_tokens parse_raw parse_token parse_field parse_value split_colon
    comparison is_filter_field unquote drop_last tokenize tokenize_from compare_text compare_whole
    match_pattern match_star split_bar clause_holds timeline_entry_matches field_matches
    text_of_field split_amount span_text multiplier
computes = tt

-- A star stands for any text, and bars part what is looked for.
compare_test :
    (compare_text matching (some (text "Web_Search")) (text "web*ch") contains ≡ true)
    × (compare_text matching (some (text "Web_Search")) (text "web*c") contains ≡ false)
    × (compare_text matching (some (text "Web_Search")) (text "exec|search") contains ≡ true)
unfolding computes
compare_test = (refl, refl, refl)

amount_test :
    (split_amount (text "1.5 kb") ≡ some (text "1.5", text "kb"))
    × (split_amount (text "kb") ≡ none)
unfolding computes
amount_test = (refl, refl)

abbrev found : FilterClause
found = record {
  raw = text "tool:web";
  negated = false;
  field = some (text "tool");
  operator = contains;
  value = text "web";
}

timeline_entry_matches-minus_example :
    timeline_entry_matches matching call
      (parse_timeline_query matching.engine.lower (text "-tool:web"))
      none
    ≡ not (
        timeline_entry_matches matching call
          (parse_timeline_query matching.engine.lower (text "tool:web"))
          none)
unfolding computes
timeline_entry_matches-minus_example =
    timeline_entry_matches-minus matching b't' (text "ool:web") found call none refl refl refl
