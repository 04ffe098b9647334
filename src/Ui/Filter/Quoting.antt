-- ===== src/Ui/Filter/Quoting.antt =====
-- Values that are quoted and read back, server/ui/src/lib/timeline-filter.ts.
use farfield.Base.{
  ℕ, ◌==◌, ◌≡◌, refl, subst, Bool, true, false, not, ◌&&◌, [], ◌∷◌, ◌++◌, append_assoc, none, some,
  Text, text, is_truthy, is_space, starts_with, any, all, last?, arith, Bool-cases, inl, inr,
}
use farfield.Ui.Filter.{
  FilterClause, contains, clause, unquote, drop_last, is_filter_field, comparison, split_colon,
  field_clause, parse_value, parse_field, parse_token, parse_raw, parse_tokens,
  parse_timeline_query, tokenize, escape_quotes, quote_filter_value,
}
use farfield.Ui.Filter.Tokens.{is_plain, is_unquoted, tokenize-quoted, tokenize-plain}

-- A field's name: plain characters without a colon, of which the first is no minus.
abbrev pub is_name_unit : ℕ → Bool
is_name_unit c = is_plain c && not (c == b':')

escape_quotes-same : (s : Text) → all is_unquoted s ≡ true → escape_quotes s ≡ s
unfolding escape_quotes
escape_quotes-same [] h = refl
escape_quotes-same (c ∷ s) h = ground (arith, escape_quotes-same s)

last-append : (s : Text) (c : ℕ) → last? (s ++ c ∷ []) ≡ some c
last-append [] c = refl
last-append (d ∷ []) c = refl
last-append (d ∷ e ∷ s) c = last-append (e ∷ s) c

drop_last-append : (s : Text) (c : ℕ) → drop_last (s ++ c ∷ []) ≡ s
unfolding drop_last
drop_last-append [] c = refl
drop_last-append (d ∷ []) c = refl
drop_last-append (d ∷ e ∷ s) c = rw (drop_last-append (e ∷ s) c) refl

unquote-quoted : (value : Text) → unquote (b'"' ∷ (value ++ b'"' ∷ [])) ≡ value
unfolding unquote
unquote-quoted value = rw (last-append (b'"' ∷ value) b'"') (drop_last-append value b'"')

unquote-plain : (value : Text) → all is_unquoted value ≡ true → unquote value ≡ value
unfolding unquote
unquote-plain [] h = refl
unquote-plain (c ∷ s) h = let q : (c == b'"') ≡ false = ground arith in rw q refl

split_colon-name :
    (name rest : Text)
    → all is_name_unit name ≡ true
    → split_colon (name ++ b':' ∷ rest) ≡ some (name, rest)
unfolding split_colon
split_colon-name [] rest h = refl
split_colon-name (c ∷ name) rest h =
    let n : (c == b':') ≡ false = ground arith in
    rw (split_colon-name name rest (ground arith), n) refl

all-unit : (s : Text) → all is_name_unit s ≡ true → all is_plain s ≡ true
all-unit [] h = refl
all-unit (c ∷ s) h = ground (arith, all-unit s)

all-colon : (s : Text) → all is_name_unit s ≡ true → all is_plain (s ++ b':' ∷ []) ≡ true
unfolding is_space
all-colon [] h = refl
all-colon (c ∷ s) h = ground (arith, all-colon s)

all-plain :
    (value : Text)
    → any is_space value ≡ false
    → all is_unquoted value ≡ true
    → all is_plain value ≡ true
all-plain [] n q = refl
all-plain (c ∷ value) n q = ground (arith, all-plain value)

all-value :
    (s value : Text)
    → all is_name_unit s ≡ true
    → all is_plain value ≡ true
    → all is_plain (s ++ b':' ∷ value) ≡ true
unfolding is_space
all-value [] value h p = p
all-value (c ∷ s) value h p = ground (arith, all-value s value)

not_minus : (c : ℕ) (s : Text) → (c == b'-') ≡ false → starts_with (c ∷ s) (text "-") ≡ false
unfolding starts_with text
not_minus c s h = rw h refl

module _ (lower : Text → Text) where
  parse_value-quoted :
      (raw name value : Text)
      → is_truthy value ≡ true
      → comparison value ≡ none
      → parse_value raw false name value ≡ field_clause raw false name contains value
  unfolding parse_value
  parse_value-quoted raw name [] t c = cc
  parse_value-quoted raw name (d ∷ value) t c = rw (c, parse_value) refl

  parse_token-field :
      (raw : Text) (c : ℕ) (name rest value : Text)
      → all is_name_unit (c ∷ name) ≡ true
      → lower (c ∷ name) ≡ c ∷ name
      → is_filter_field (c ∷ name) ≡ true
      → unquote rest ≡ value
      → is_truthy value ≡ true
      → comparison value ≡ none
      → parse_token lower raw false ((c ∷ name) ++ b':' ∷ rest)
        ≡ field_clause raw false (c ∷ name) contains value
  unfolding parse_token parse_field
  parse_token-field raw c name rest value h l f u t n =
      rw (parse_token, split_colon-name (c ∷ name) rest h, l, f, u)
        (parse_value-quoted raw (c ∷ name) value t n)

  -- A token of a name and a value, which stands there as it is or quoted.
  parse_raw-field :
      (c : ℕ) (name rest value : Text)
      → (c == b'-') ≡ false
      → all is_name_unit (c ∷ name) ≡ true
      → lower (c ∷ name) ≡ c ∷ name
      → is_filter_field (c ∷ name) ≡ true
      → unquote rest ≡ value
      → is_truthy value ≡ true
      → comparison value ≡ none
      → parse_raw lower ((c ∷ name) ++ b':' ∷ rest)
        ≡ field_clause ((c ∷ name) ++ b':' ∷ rest) false (c ∷ name) contains value
  unfolding parse_raw
  parse_raw-field c name rest value m h l f u t n =
      rw (not_minus c (name ++ b':' ∷ rest) m)
        (parse_token-field ((c ∷ name) ++ b':' ∷ rest) c name rest value h l f u t n)

  one_token :
      (query : Text) (found : FilterClause)
      → tokenize query ≡ (query ∷ [], false)
      → parse_raw lower query ≡ clause found
      → parse_timeline_query lower query ≡ record { clauses = found ∷ []; errors = [] }
  unfolding parse_timeline_query parse_tokens
  one_token query found t p = rw (t, parse_tokens, p) refl

  -- A query that is made of a field's name, a colon and a value behind `quoteFilterValue` is read
  -- back as the one clause that asks for the value in the field, without errors. The value is not
  -- empty, has no quote and begins with no comparison; the name is that of a field, in lower case,
  -- has neither white space nor a quote or colon, and begins with no minus.
  pub parse_timeline_query-quote_filter_value :
      (c : ℕ) (name value : Text)
      → all is_name_unit (c ∷ name) ≡ true
      → (c == b'-') ≡ false
      → lower (c ∷ name) ≡ c ∷ name
      → is_filter_field (c ∷ name) ≡ true
      → is_truthy value ≡ true
      → all is_unquoted value ≡ true
      → comparison value ≡ none
      → parse_timeline_query lower ((c ∷ name) ++ b':' ∷ quote_filter_value value) ≡ record {
        clauses =
            record {
              raw = (c ∷ name) ++ b':' ∷ quote_filter_value value;
              negated = false;
              field = some (c ∷ name);
              operator = contains;
              value = value;
            }
            ∷ [];
        errors = [];
      }
  unfolding quote_filter_value
  parse_timeline_query-quote_filter_value c name value h m l f t q n =
      elim (Bool-cases (any is_space value)) [
        | inr plain ↦
            rw (plain, quote_filter_value)
              (one_token _ _
                (tokenize-plain c (name ++ b':' ∷ value)
                  (all-value (c ∷ name) value h (all-plain value plain q)))
                (parse_raw-field c name value value m h l f (unquote-plain value q) t n))
        | inl spaced ↦
            rw (spaced, quote_filter_value, escape_quotes-same value q)
              (one_token _ _
                (subst (λ u. tokenize u ≡ (u ∷ [], false))
                  (append_assoc (c ∷ name) (b':' ∷ []) (b'"' ∷ (value ++ b'"' ∷ [])))
                  (tokenize-quoted c (name ++ b':' ∷ []) value (all-colon (c ∷ name) h) q))
                (parse_raw-field c name (b'"' ∷ (value ++ b'"' ∷ [])) value m h l f
                  (unquote-quoted value) t n))
      ]
