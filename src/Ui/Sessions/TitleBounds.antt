-- ===== src/Ui/Sessions/TitleBounds.antt =====
-- How long the title of a prompt is, server/ui/src/components/trace-inspector.tsx.
use farfield.Base.{
  ℕ, suc, ◌+◌, ◌≤◌, leb, ltb, ◌≡◌, ◌⊎◌, refl, sym, ap, ◌∙◌, false, ◌&&◌, List, [], ◌∷◌, ◌++◌, none,
  some, Text, text, trim, take, length, arith, if◌then◌else◌, Bool-cases, Option-cases, inl, inr,
}
use farfield.Ui.Sessions.{
  first_sentence, cons_unit, is_stop, ends_or_space, collapse_spaces, prompt_title,
}

-- A beginning of a text that a sentence ends.
abbrev pub IsSentence : ℕ → Text → Text → Type 0
IsSentence n s t = (25 ≤ n + length t) × (n + length t ≤ 106) × ((rest : Text) × (t ++ rest ≡ s))

ends_here :
    (n c : ℕ) (s t : Text) → 24 ≤ n → n ≤ 105 → some (c ∷ []) ≡ some t → IsSentence n (c ∷ s) t
ends_here n c s t low high h =
    let same : t ≡ c ∷ [] = ground (arith, h) in rw same (omega arith, omega arith, (s, refl))

goes_on :
    (n c : ℕ) (s t u : Text)
    → IsSentence (suc n) s u
    → some (c ∷ u) ≡ some t
    → IsSentence n (c ∷ s) t
goes_on n c s t u (low, high, (rest, split)) h =
    let same : t ≡ c ∷ u = ground (arith, h) in
    rw same (omega arith, omega arith, (rest, ap (λ x. c ∷ x) split))

first_sentence-IsSentence : (n : ℕ) (s t : Text) → first_sentence n s ≡ some t → IsSentence n s t
unfolding first_sentence
first_sentence-IsSentence n [] t h = absurd (ground (arith, h))
first_sentence-IsSentence n (c ∷ s) t h =
    elim (Bool-cases (leb 24 n && leb n 105 && is_stop c && ends_or_space s)) [
      | inl found ↦ ends_here n c s t (ground (arith, found)) (ground (arith, found)) (
          sym (ap (λ b. if b then some (c ∷ []) else cons_unit c (first_sentence (suc n) s)) found)
          ∙ h)
      | inr missed ↦
          let later =
            sym
              (ap (λ b. if b then some (c ∷ []) else cons_unit c (first_sentence (suc n) s)) missed)
            ∙ h in
          elim (Option-cases (first_sentence (suc n) s)) [
            | inl nothing ↦ absurd (none_later (sym (ap (cons_unit c) nothing) ∙ later))
            | inr (u, some_later) ↦
                goes_on n c s t u (first_sentence-IsSentence (suc n) s u some_later)
                  (sym (ap (cons_unit c) some_later) ∙ later)
          ]
    ]
  where
    none_later : {u : Text} → cons_unit c none ≡ some u → ⊥
    none_later e = ground (arith, e)

-- The text that a title is made of: runs of white space are one blank, and none is around it.
abbrev pub clean : Text → Text
clean prompt = trim (collapse_spaces false prompt)

-- The title of a session with a prompt is a beginning of the clean prompt, of 25 to 106 units, that
-- a sentence ends, or the whole clean prompt if it has at most 104 units, or its first 104 and an
-- ellipsis.
pub prompt_title-IsSentence :
    (c : ℕ) (s : Text) (agents : List Text)
    → IsSentence 0 (clean (c ∷ s)) (prompt_title (some (c ∷ s)) agents)
      ⊎ (prompt_title (some (c ∷ s)) agents
          ≡ take 104 (clean (c ∷ s)) ++ (if ltb 104 (length (clean (c ∷ s))) then text "…" else []))
unfolding prompt_title
prompt_title-IsSentence c s agents = elim (Option-cases (first_sentence 0 (clean (c ∷ s)))) [
  | inl nothing ↦ inr (rw nothing refl)
  | inr (t, found) ↦ inl (rw found (first_sentence-IsSentence 0 (clean (c ∷ s)) t found))
]
