-- ===== src/Ui/Query/Tests.antt =====
-- Queries that are edited, on small inputs, server/ui/src/components/trace-inspector.tsx.
use farfield.Base.{
  ◌≡◌, refl, false, [], ◌∷◌, map, text, text_eq, starts_with, includes, is_space, trim, trim_start,
  trim_end, mem_text, add_text,
}
use farfield.Ui.Samples.{matching, call}
use farfield.Ui.Filter.{quote_filter_value, escape_quotes, split_colon}
use farfield.Ui.Query.{
  append_query_token, split_spaces, token_of, add_filter, last_word, drop_last_word,
  apply_suggestion, suggestions, suggestions_of_word, observed_fields, tag_fields, all_tag_fields,
  strip_quotes, fixed_values, arrow_down, arrow_up,
}
use farfield.Ui.Query.Adding.{add_filter-twice}

computes : Unit {0}
unfolding text text_eq starts_with includes is_space trim trim_start trim_end mem_text add_text
    quote_filter_value escape_quotes split_colon append_query_token split_spaces add_filter
    last_word drop_last_word apply_suggestion suggestions suggestions_of_word observed_fields
    tag_fields all_tag_fields strip_quotes fixed_values arrow_down arrow_up
computes = tt

split_test : split_spaces false (text " a  b ") ≡ [] ∷ text "a" ∷ text "b" ∷ [] ∷ []
unfolding computes
split_test = refl

words_test :
    (last_word (text "tool:web -ki") ≡ text "-ki")
    × (drop_last_word (text "tool:web -ki") ≡ text "tool:web")
    × (apply_suggestion (text "-kind:") (text "tool:web -ki") ≡ text "tool:web -kind:")
unfolding computes
words_test = (refl, refl, refl)

suggestions_test :
    (map (λ s. s.value) (suggestions matching (text "error -ki") (call ∷ [])) ≡ text "-kind:" ∷ [])
    × (map (λ s. s.value) (suggestions matching (text "size:10") (call ∷ []))
        ≡ text "size:>10kb" ∷ [])
unfolding computes
suggestions_test = (refl, refl)

arrows_test : (arrow_up 3 0 ≡ 2) × (arrow_down 3 2 ≡ 0)
unfolding computes
arrows_test = (refl, refl)

-- A filter of two words is appended a second time.
add_filter-twice_example :
    add_filter (text "tool") (text "web search") (add_filter (text "tool") (text "web search") [])
    ≡ append_query_token
        (add_filter (text "tool") (text "web search") [])
        (token_of (text "tool") (text "web search"))
unfolding is_space text
add_filter-twice_example = add_filter-twice (text "tool") (text "web search") [] refl
