-- ===== src/Ui/Match/Negation.antt =====
-- Queries with a minus and queries side by side, server/ui/src/lib/timeline-filter.ts.
use farfield.Base.{
  ℕ, ◌==◌, ◌≡◌, refl, sym, ap, ◌∙◌, true, false, not, ◌&&◌, List, [], ◌∷◌, Option, Text, text,
  is_truthy, is_space, starts_with, all, arith, Bool-cases, Option-cases, inl, inr,
}
use farfield.Ui.History.{TimelineEntry}
use farfield.Ui.Filter.{
  FilterClause, Parsed, clause, skipped, wrong, text_clause, comparison, parse_value,
  is_filter_field, parse_field, split_colon, parse_token, unquote, parse_raw, parse_tokens,
  tokenize, parse_timeline_query,
}
use farfield.Ui.Filter.Tokens.{is_plain, tokenize-plain}
use farfield.Ui.Match.{
  Matching, clause_holds, clause_matches, timeline_entry_matches, field_matches,
}

-- The same clause with the other sign, or neither is one.
abbrev Opposite : Parsed → Parsed → Type 0
Opposite (clause c) (clause d) =
    (d.negated ≡ not c.negated)
    × (d.field ≡ c.field)
    × (d.operator ≡ c.operator)
    × (d.value ≡ c.value)
Opposite skipped skipped = Unit
Opposite (wrong a) (wrong b) = Unit
Opposite _ _ = ⊥

-- The clauses of a query that is one token.
abbrev clauses_from : Parsed → List FilterClause
clauses_from (clause c) = c ∷ []
clauses_from _ = []

text_clause-Opposite :
    (r r' value : Text) → Opposite (text_clause r false value) (text_clause r' true value)
text_clause-Opposite r r' [] = tt
text_clause-Opposite r r' (c ∷ value) = (refl, refl, refl, refl)

parse_value-Opposite :
    (r r' field value : Text)
    → Opposite (parse_value r false field value) (parse_value r' true field value)
unfolding parse_value
parse_value-Opposite r r' field [] = tt
parse_value-Opposite r r' field (c ∷ value) = elim (Option-cases (comparison (c ∷ value))) [
  | inl whole ↦ rw (whole, parse_value) (refl, refl, refl, refl)
  | inr (split, compared) ↦ rw (compared, parse_value) (refl, refl, refl, refl)
]

module _ (lower : Text → Text) where
  parse_field-Opposite :
      (r r' name value : Text)
      → Opposite (parse_field lower r false name value) (parse_field lower r' true name value)
  unfolding parse_field
  parse_field-Opposite r r' name value = elim (Bool-cases (is_filter_field (lower name))) [
    | inl known ↦ rw (known, parse_field) (parse_value-Opposite r r' (lower name) (unquote value))
    | inr unknown ↦ rw (unknown, parse_field) tt
  ]

  parse_token-Opposite :
      (r r' token : Text)
      → Opposite (parse_token lower r false token) (parse_token lower r' true token)
  unfolding parse_token
  parse_token-Opposite r r' token = elim (Option-cases (split_colon token)) [
    | inl whole ↦ rw (whole, parse_token) (text_clause-Opposite r r' (unquote token))
    | inr ((name, value), split) ↦
        rw (split, parse_token)
          (elim (Bool-cases (is_truthy name)) [
            | inl named ↦ rw (named, parse_token) (parse_field-Opposite r r' name value)
            | inr unnamed ↦ rw (unnamed, parse_token) (text_clause-Opposite r r' (unquote token))
          ])
  ]

  parse_raw-plain :
      (c : ℕ) (s : Text)
      → (c == b'-') ≡ false
      → parse_raw lower (c ∷ s) ≡ parse_token lower (c ∷ s) false (c ∷ s)
  unfolding parse_raw starts_with text
  parse_raw-plain c s h = rw h refl

  parse_raw-minus : (s : Text) → parse_raw lower (b'-' ∷ s) ≡ parse_token lower (b'-' ∷ s) true s
  unfolding parse_raw starts_with text
  parse_raw-minus s = refl

  of_raw :
      (query : Text) (p : Parsed)
      → parse_raw lower query ≡ p
      → (parse_tokens lower (query ∷ [])).clauses ≡ clauses_from p
  unfolding parse_tokens
  of_raw query (clause c) h = rw (h, parse_tokens) refl
  of_raw query skipped h = rw (h, parse_tokens) refl
  of_raw query (wrong message) h = rw (h, parse_tokens) refl

  one_token-clauses :
      (query : Text)
      → tokenize query ≡ (query ∷ [], false)
      → (parse_timeline_query lower query).clauses ≡ clauses_from (parse_raw lower query)
  unfolding parse_timeline_query
  one_token-clauses query t = rw t (of_raw query (parse_raw lower query) refl)

is_plain_minus : (is_plain b'-' && true) ≡ true
unfolding is_space
is_plain_minus = refl

module _ (matching : Matching) where
  -- The sign and the source of a clause make no difference to what it asks.
  unsigned : FilterClause → FilterClause
  unsigned c = record c { raw = []; negated = false }

  clause_holds-unsigned :
      (entry : TimelineEntry) (start : Option ℕ) (c : FilterClause)
      → clause_holds matching entry start c ≡ clause_holds matching entry start (unsigned c)
  unfolding clause_holds field_matches unsigned
  clause_holds-unsigned entry start c = refl

  clause_holds-same :
      (entry : TimelineEntry) (start : Option ℕ) (c d : FilterClause)
      → d.field ≡ c.field
      → d.operator ≡ c.operator
      → d.value ≡ c.value
      → clause_holds matching entry start d ≡ clause_holds matching entry start c
  unfolding unsigned
  clause_holds-same entry start c d f o v =
      clause_holds-unsigned entry start d ∙ rw (f, o, v) (sym (clause_holds-unsigned entry start c))

  Opposite-matches :
      (entry : TimelineEntry) (start : Option ℕ) (p q : Parsed) (c : FilterClause)
      → clauses_from p ≡ c ∷ []
      → Opposite p q
      → all (clause_matches matching entry start) (clauses_from q)
        ≡ not (all (clause_matches matching entry start) (clauses_from p))
  Opposite-matches entry start (clause c') (clause d) c h (n, f, o, v) =
      ground (arith, n, clause_holds-same entry start c' d f o v)
  Opposite-matches entry start (clause c') skipped c h o = absurd o
  Opposite-matches entry start (clause c') (wrong _) c h o = absurd o
  Opposite-matches entry start skipped q c h o = cc
  Opposite-matches entry start (wrong _) q c h o = cc

  -- A minus before a query of one token, which is read as a clause, turns it round: exactly the
  -- entries that did not match do.
  pub timeline_entry_matches-minus :
      (c : ℕ) (s : Text) (found : FilterClause) (entry : TimelineEntry) (start : Option ℕ)
      → all is_plain (c ∷ s) ≡ true
      → (c == b'-') ≡ false
      → (parse_timeline_query matching.engine.lower (c ∷ s)).clauses ≡ found ∷ []
      → timeline_entry_matches matching entry
          (parse_timeline_query matching.engine.lower (b'-' ∷ c ∷ s))
          start
        ≡ not (
            timeline_entry_matches matching entry
              (parse_timeline_query matching.engine.lower (c ∷ s))
              start)
  unfolding timeline_entry_matches
  timeline_entry_matches-minus c s found entry start plain m h =
      let lower = matching.engine.lower in
      let whole = one_token-clauses lower (c ∷ s) (tokenize-plain c s plain) in
      let turned =
        one_token-clauses lower (b'-' ∷ c ∷ s) (tokenize-plain b'-' (c ∷ s) (minus_plain plain)) in
      rw (turned, whole, parse_raw-plain lower c s m, parse_raw-minus lower (c ∷ s))
        (Opposite-matches entry start (parse_token lower (c ∷ s) false (c ∷ s)) _ found
          (ap clauses_from (sym (parse_raw-plain lower c s m)) ∙ sym whole ∙ h)
          (parse_token-Opposite lower (c ∷ s) (b'-' ∷ c ∷ s) (c ∷ s)))
    where
      minus_plain : all is_plain (c ∷ s) ≡ true → all is_plain (b'-' ∷ c ∷ s) ≡ true
      minus_plain h = rw h is_plain_minus
