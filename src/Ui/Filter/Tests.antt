-- ===== src/Ui/Filter/Tests.antt =====
-- Queries on small inputs, server/ui/src/lib/timeline-filter.ts.
use farfield.Base.{
  ◌≡◌, refl, false, [], ◌∷◌, ◌++◌, map, some, Text, text, text_eq, length, trim, trim_end,
  trim_start, is_space, starts_with, mem_text,
}
use farfield.Ui.Operations.{has_index}
use farfield.Ui.Filter.{
  contains, parse_timeline_query, parse_tokens, parse_raw, parse_token, parse_field, parse_value,
  split_colon, comparison, is_filter_field, unquote, drop_last, tokenize, tokenize_from,
  quote_filter_value, escape_quotes, indexes_for_context, with_context, add_contexts, add_around,
}
use farfield.Ui.Filter.Quoting.{parse_timeline_query-quote_filter_value}

abbrev lower : Text → Text
lower s = s

computes : Unit {0}
unfolding text text_eq trim trim_end trim_start is_space starts_with mem_text has_index
    parse_timeline_query parse_tokens parse_raw parse_token parse_field parse_value split_colon
    comparison is_filter_field unquote drop_last tokenize tokenize_from quote_filter_value
    escape_quotes indexes_for_context add_contexts add_around
computes = tt

parse_test :
    map (λ c. c.value) (parse_timeline_query lower (text "tool:exec -size:>=10 error")).clauses
    ≡ text "exec" ∷ text "10" ∷ text "error" ∷ []
unfolding computes
parse_test = refl

-- A value with white space and a quote is escaped in a way that the tokenizer does not read: the
-- quote is left open.
abbrev with_quote : Text
with_quote = text "a b\"c"

escape_test :
    length (parse_timeline_query lower (text "tool:" ++ quote_filter_value with_quote)).errors ≡ 1
unfolding computes
escape_test = refl

context_test : indexes_for_context 5 (0 ∷ 4 ∷ []) with_context ≡ 0 ∷ 1 ∷ 3 ∷ 4 ∷ []
unfolding computes
context_test = refl

parse_timeline_query-quote_filter_value_example :
    parse_timeline_query lower ((b't' ∷ text "ool") ++ b':' ∷ quote_filter_value (text "a b"))
    ≡ record {
      clauses =
          record {
            raw = (b't' ∷ text "ool") ++ b':' ∷ quote_filter_value (text "a b");
            negated = false;
            field = some (b't' ∷ text "ool");
            operator = contains;
            value = text "a b";
          }
          ∷ [];
      errors = [];
    }
unfolding computes
parse_timeline_query-quote_filter_value_example =
    parse_timeline_query-quote_filter_value lower b't' (text "ool") (text "a b") refl refl refl refl
      refl refl refl
