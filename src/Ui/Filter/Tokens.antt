-- ===== src/Ui/Filter/Tokens.antt =====
-- Tokens without quotes and with one quoted part, server/ui/src/lib/timeline-filter.ts.
use farfield.Base.{
  ℕ, ◌==◌, ◌≡◌, refl, sym, ap, subst, ◌∙◌, Bool, true, false, not, ◌&&◌, [], ◌∷◌, ◌++◌,
  append_assoc, append-nil, Text, is_truthy, is_space, all, arith, Bool-cases, inl, inr, trim,
  trim_start, trim_end,
}
use farfield.Ui.Filter.{tokenize_from, tokenize}

abbrev pub is_unquoted : ℕ → Bool
is_unquoted c = not (c == b'"')

abbrev pub is_plain : ℕ → Bool
is_plain c = not (c == b'"') && not (is_space c)

-- Plain characters go to the token.
pub tokenize_from-plain :
    (s t current : Text)
    → all is_plain s ≡ true
    → tokenize_from (s ++ t) current false ≡ tokenize_from t (current ++ s) false
unfolding tokenize_from
tokenize_from-plain [] t current h = rw (append-nil current) refl
tokenize_from-plain (c ∷ s) t current h =
    let q : (c == b'"') ≡ false = ground arith in
    let n : is_space c ≡ false = ground arith in
    rw (q, n)
      (tokenize_from-plain s t (current ++ c ∷ []) (ground arith)
        ∙ ap (λ u. tokenize_from t u false) (append_assoc current (c ∷ []) s))

-- Inside a quote all but quotes go to the token.
pub tokenize_from-quoted :
    (s t current : Text)
    → all is_unquoted s ≡ true
    → tokenize_from (s ++ t) current true ≡ tokenize_from t (current ++ s) true
unfolding tokenize_from
tokenize_from-quoted [] t current h = rw (append-nil current) refl
tokenize_from-quoted (c ∷ s) t current h =
    let q : (c == b'"') ≡ false = ground arith in
    rw q (elim (Bool-cases (is_space c)) [
      | inl space ↦ rw space (ahead (tokenize_from-quoted s t (current ++ c ∷ []) (ground arith)))
      | inr other ↦ rw other (ahead (tokenize_from-quoted s t (current ++ c ∷ []) (ground arith)))
    ])
  where
    ahead :
        tokenize_from (s ++ t) (current ++ c ∷ []) true
          ≡ tokenize_from t ((current ++ c ∷ []) ++ s) true
        → tokenize_from (s ++ t) (current ++ c ∷ []) true ≡ tokenize_from t (current ++ c ∷ s) true
    ahead e = e ∙ ap (λ u. tokenize_from t u true) (append_assoc current (c ∷ []) s)

append-truthy : (s : Text) (c : ℕ) → is_truthy (s ++ c ∷ []) ≡ true
append-truthy [] c = refl
append-truthy (d ∷ s) c = refl

-- `trim` keeps what begins and ends with no white space.
pub trim_end-same : (s : Text) (c : ℕ) → is_space c ≡ false → trim_end (s ++ c ∷ []) ≡ s ++ c ∷ []
unfolding trim_end
trim_end-same [] c h = ground arith
trim_end-same (d ∷ s) c h = rw (trim_end-same s c h) (ground (arith, append-truthy s c))

trim_end-plain : (s : Text) → all is_plain s ≡ true → trim_end s ≡ s
unfolding trim_end
trim_end-plain [] h = refl
trim_end-plain (d ∷ s) h =
    let n : is_space d ≡ false = ground arith in rw (trim_end-plain s (ground arith), n) refl

trim-begun : (c : ℕ) (s : Text) → is_space c ≡ false → trim (c ∷ s) ≡ trim_end (c ∷ s)
unfolding trim trim_start
trim-begun c s h = rw h refl

open_quote :
    (s current : Text)
    → tokenize_from (b'"' ∷ s) current false ≡ tokenize_from s (current ++ b'"' ∷ []) true
unfolding tokenize_from
open_quote s current = refl

close_quote :
    (c : ℕ) (s : Text)
    → tokenize_from (b'"' ∷ []) (c ∷ s) true ≡ ((c ∷ (s ++ b'"' ∷ [])) ∷ [], false)
unfolding tokenize_from
close_quote c s = refl

-- A quote around a text behind a token.
abbrev pub quoted_behind : Text → Text → Text
quoted_behind s value = s ++ b'"' ∷ (value ++ b'"' ∷ [])

quoted-append : (s value : Text) → (s ++ b'"' ∷ value) ++ b'"' ∷ [] ≡ quoted_behind s value
quoted-append s value = append_assoc s (b'"' ∷ value) (b'"' ∷ [])

is_space_quote : is_space b'"' ≡ false
unfolding is_space
is_space_quote = refl

ended : (c : ℕ) (s : Text) → tokenize_from [] (c ∷ s) false ≡ ((c ∷ s) ∷ [], false)
unfolding tokenize_from
ended c s = refl

trim-quoted :
    (c : ℕ) (s value : Text)
    → is_space c ≡ false
    → trim (quoted_behind (c ∷ s) value) ≡ quoted_behind (c ∷ s) value
trim-quoted c s value n =
    trim-begun c (quoted_behind s value) n
    ∙ subst (λ u. trim_end u ≡ u) (quoted-append (c ∷ s) value)
        (trim_end-same ((c ∷ s) ++ b'"' ∷ value) b'"' is_space_quote)

-- A token of plain characters with a quoted part at its end is one token.
pub tokenize-quoted :
    (c : ℕ) (s value : Text)
    → all is_plain (c ∷ s) ≡ true
    → all is_unquoted value ≡ true
    → tokenize (quoted_behind (c ∷ s) value) ≡ (quoted_behind (c ∷ s) value ∷ [], false)
unfolding tokenize
tokenize-quoted c s value h k =
    let n : is_space c ≡ false = ground arith in
    rw (trim-quoted c s value n) (
      tokenize_from-plain (c ∷ s) (b'"' ∷ (value ++ b'"' ∷ [])) [] h
      ∙ open_quote (value ++ b'"' ∷ []) (c ∷ s)
      ∙ tokenize_from-quoted value (b'"' ∷ []) ((c ∷ s) ++ b'"' ∷ []) k
      ∙ close_quote c ((s ++ b'"' ∷ []) ++ value)
      ∙ ap (λ u. (u ∷ [], false)) (ap (λ u. c ∷ u) (rejoin s value)))
  where
    rejoin : (s value : Text) → ((s ++ b'"' ∷ []) ++ value) ++ b'"' ∷ [] ≡ quoted_behind s value
    rejoin s value =
        append_assoc (s ++ b'"' ∷ []) value (b'"' ∷ [])
        ∙ append_assoc s (b'"' ∷ []) (value ++ b'"' ∷ [])

-- Plain characters are one token.
pub tokenize-plain :
    (c : ℕ) (s : Text) → all is_plain (c ∷ s) ≡ true → tokenize (c ∷ s) ≡ ((c ∷ s) ∷ [], false)
unfolding tokenize
tokenize-plain c s h =
    let n : is_space c ≡ false = ground arith in
    rw (trim-begun c s n, trim_end-plain (c ∷ s) h)
      (ap (λ u. tokenize_from u [] false) (sym (append-nil (c ∷ s)))
        ∙ tokenize_from-plain (c ∷ s) [] [] h
        ∙ ended c s)
