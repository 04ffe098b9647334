-- ===== src/Ui/Query/Adding.antt =====
-- Filters that are added again, server/ui/src/components/trace-inspector.tsx.
use farfield.Base.{
  ℕ, ◌≡◌, refl, ◌∙◌, Bool, true, false, ◌||◌, List, [], ◌∷◌, ◌++◌, Text, text_eq_refl, text_eq_iff,
  is_truthy, is_space, trim, mem_text, any, All, arith, if◌then◌else◌, Bool-cases, inl, inr,
}
use farfield.Ui.Filter.{quote_filter_value, escape_quotes}
use farfield.Ui.Query.{append_query_token, split_spaces, token_of, add_filter, add_unit}

any-space-append : (s t : Text) → any is_space (s ++ t) ≡ (any is_space s || any is_space t)
any-space-append [] t = refl
any-space-append (c ∷ s) t = ground (arith, any-space-append s t)

quote_is_no_space : is_space b'"' ≡ false
unfolding is_space
quote_is_no_space = refl

colon_is_no_space : is_space b':' ≡ false
unfolding is_space
colon_is_no_space = refl

backslash_is_no_space : is_space 92 ≡ false
unfolding is_space
backslash_is_no_space = refl

blank_is_space : is_space b' ' ≡ true
unfolding is_space
blank_is_space = refl

any-space-escape_quotes : (s : Text) → any is_space (escape_quotes s) ≡ any is_space s
unfolding escape_quotes
any-space-escape_quotes [] = refl
any-space-escape_quotes (c ∷ s) = ground (arith, any-space-escape_quotes s, backslash_is_no_space)

any-space-token_of :
    (field value : Text)
    → any is_space field ≡ false
    → any is_space (token_of field value) ≡ any is_space value
unfolding quote_filter_value
any-space-token_of field value h =
    any-space-append field (b':' ∷ quote_filter_value value)
    ∙ rw (h, colon_is_no_space)
        (elim (Bool-cases (any is_space value)) [
          | inl spaced ↦
              rw
                (
                  spaced,
                  quote_is_no_space,
                  any-space-append (escape_quotes value) (b'"' ∷ []),
                  any-space-escape_quotes value,
                  spaced,
                )
                refl
          | inr plain ↦ rw plain plain
        ])

abbrev IsUnspaced : Text → Type 0
IsUnspaced part = any is_space part ≡ false

abbrev tail_of : List Text → List Text
tail_of [] = []
tail_of (_ ∷ parts) = parts

add_unit-IsUnspaced :
    (c : ℕ) (parts : List Text)
    → is_space c ≡ false
    → All IsUnspaced parts
    → All IsUnspaced (add_unit c parts)
add_unit-IsUnspaced c [] h k = (ground (arith, h), tt)
add_unit-IsUnspaced c (part ∷ parts) h (k, ks) = (ground (arith, h, k), ks)

split_spaces-IsUnspaced : (after : Bool) (s : Text) → All IsUnspaced (split_spaces after s)
unfolding split_spaces
split_spaces-IsUnspaced after [] = (refl, tt)
split_spaces-IsUnspaced after (c ∷ s) = elim (Bool-cases (is_space c)) [
  | inl space ↦ rw space (of_space after (split_spaces-IsUnspaced true s))
  | inr unit ↦
      rw unit (add_unit-IsUnspaced c (split_spaces false s) unit (split_spaces-IsUnspaced false s))
]
  where
    of_space :
        (after : Bool)
        → All IsUnspaced (split_spaces true s)
        → All IsUnspaced (if after then split_spaces true s else [] ∷ split_spaces true s)
    of_space true h = h
    of_space false h = (refl, h)

mem_text-unspaced :
    (token : Text) (parts : List Text)
    → any is_space token ≡ true
    → All IsUnspaced parts
    → mem_text token parts ≡ false
unfolding mem_text
mem_text-unspaced token [] h k = refl
mem_text-unspaced token (part ∷ parts) h (k, ks) =
    ground (arith, k, h, text_eq_iff part token, mem_text-unspaced token parts h ks)

mem_text-add_unit :
    (token : Text) (c : ℕ) (parts : List Text)
    → mem_text token (tail_of parts) ≡ true
    → (mem_text token (tail_of (add_unit c parts)) ≡ true)
      × (mem_text token (add_unit c parts) ≡ true)
unfolding mem_text
mem_text-add_unit token c [] h = ground (arith, h)
mem_text-add_unit token c (part ∷ parts) h = ground (arith, h)

split_spaces-one :
    (after : Bool) (token : Text)
    → any is_space token ≡ false
    → split_spaces after token ≡ token ∷ []
unfolding split_spaces
split_spaces-one after [] h = refl
split_spaces-one after (c ∷ token) h =
    let unit : is_space c ≡ false = ground (arith, h) in
    let rest : any is_space token ≡ false = ground (arith, h) in
    rw (unit, split_spaces-one false token rest) refl

-- A word behind a blank is one of the parts, and not the first unless white space comes before.
split_spaces-last :
    (token : Text)
    → any is_space token ≡ false
    → (before : Text)
    → (mem_text token (tail_of (split_spaces false (before ++ b' ' ∷ token))) ≡ true)
      × (mem_text token (split_spaces true (before ++ b' ' ∷ token)) ≡ true)
unfolding split_spaces mem_text
split_spaces-last token h [] =
    rw (blank_is_space, split_spaces-one true token h, text_eq_refl token) (refl, refl)
split_spaces-last token h (c ∷ before) =
    let (inner, outer) = split_spaces-last token h before in
    elim (Bool-cases (is_space c)) [
      | inl space ↦ rw space (outer, outer)
      | inr unit ↦
          rw unit (mem_text-add_unit token c (split_spaces false (before ++ b' ' ∷ token)) inner)
    ]

mem_text-tail :
    (token : Text) (parts : List Text)
    → mem_text token (tail_of parts) ≡ true
    → mem_text token parts ≡ true
unfolding mem_text
mem_text-tail token [] h = h
mem_text-tail token (part ∷ parts) h = ground (arith, h)

appended :
    (token query : Text)
    → any is_space token ≡ false
    → mem_text token (split_spaces false (append_query_token query token)) ≡ true
unfolding append_query_token mem_text
appended token query h = of_trimmed (trim query)
  where
    of_trimmed :
        (n : Text)
        → mem_text token (split_spaces false (if is_truthy n then n ++ b' ' ∷ token else token))
          ≡ true
    of_trimmed [] = rw (split_spaces-one false token h, text_eq_refl token) refl
    of_trimmed (c ∷ n) = mem_text-tail token _ (split_spaces-last token h (c ∷ n)).0

added :
    (field value query : Text)
    → any is_space (token_of field value) ≡ false
    → mem_text (token_of field value) (split_spaces false (add_filter field value query)) ≡ true
unfolding add_filter
added field value query h =
    elim (Bool-cases (mem_text (token_of field value) (split_spaces false query))) [
      | inl old ↦ rw old old
      | inr new ↦ rw new (appended (token_of field value) query h)
    ]

-- A filter that is added again leaves the query as it is if its value has no white space. If it has,
-- the filter is not found in the query and is appended each time.
pub add_filter-twice :
    (field value query : Text)
    → any is_space field ≡ false
    → add_filter field value (add_filter field value query) ≡ (
        if any is_space value
        then append_query_token (add_filter field value query) (token_of field value)
        else add_filter field value query)
unfolding add_filter
add_filter-twice field value query h = elim (Bool-cases (any is_space value)) [
  | inl spaced ↦ rw (spaced, unseen (any-space-token_of field value h ∙ spaced)) refl
  | inr plain ↦ rw (plain, added field value query (any-space-token_of field value h ∙ plain)) refl
]
  where
    token : Text
    token = token_of field value

    unseen : any is_space token ≡ true → (s : Text) → mem_text token (split_spaces false s) ≡ false
    unseen spaced s =
        mem_text-unspaced token (split_spaces false s) spaced (split_spaces-IsUnspaced false s)
