-- ===== src/Ui/Sessions/Tests.antt =====
-- Sessions and their titles on small inputs, server/ui/src/components/session-list.tsx and
-- server/ui/src/lib/utils.ts.
use farfield.Base.{
  false, ltb, ◌≡◌, ◌⊎◌, refl, List, [], ◌∷◌, ◌++◌, map, some, Text, text, text_eq, starts_with,
  includes, trim, trim_start, trim_end, is_space, take, length, join, if◌then◌else◌,
}
use farfield.Ui.App.{ConversationSummary}
use farfield.Ui.Titles.{capitalize}
use farfield.Ui.Sessions.{
  summary_status, captured, type_matches, text_matches, filtered_sessions, all_kinds, agent_kind,
  without_hex, without_matches, words_of, title_from_id, collapse_spaces, first_sentence,
  prompt_title,
}
use farfield.Ui.Sessions.TitleBounds.{IsSentence, clean, prompt_title-IsSentence}

abbrev session : Text → Text → Text → ConversationSummary
session id agent kind = record {
  id = id;
  record_count = 1;
  first_seen_at = text "t";
  last_seen_at = text "t";
  agents = agent ∷ [];
  kinds = kind ∷ [];
}

abbrev sessions : List ConversationSummary
sessions =
    session (text "conv_a") (text "code-reviewer") (text "message.user")
    ∷ session (text "conv_b") (text "log-analyst") (text "agent.turn.started")
    ∷ []

computes : Unit {0}
unfolding text text_eq starts_with includes trim trim_start trim_end is_space join capitalize
    summary_status type_matches text_matches filtered_sessions without_hex without_matches words_of
    title_from_id collapse_spaces first_sentence prompt_title
computes = tt

filter_test :
    (map (λ c. c.id) (filtered_sessions (λ s. s) (text " review ") all_kinds sessions)
      ≡ text "conv_a" ∷ [])
    × (map (λ c. c.id) (filtered_sessions (λ s. s) [] agent_kind sessions) ≡ text "conv_b" ∷ [])
unfolding computes
filter_test = (refl, refl)

status_test : summary_status (session [] [] (text "message.user")) ≡ captured
unfolding computes
status_test = refl

title_test :
    (title_from_id (capitalize false) (text "conv_daily.report_20260102T101112Z_0a1b2c3d")
      ≡ text "Daily Report")
    × (title_from_id (capitalize false) (text "conv_") ≡ text "Untitled session")
unfolding computes
title_test = (refl, refl)

abbrev prompt : Text
prompt = text "Check  the release candidate. Then write a summary."

prompt_test : prompt_title (some prompt) [] ≡ text "Check the release candidate."
unfolding computes
prompt_test = refl

prompt_title-IsSentence_example :
    IsSentence 0 (clean (b'A' ∷ b'.' ∷ [])) (prompt_title (some (b'A' ∷ b'.' ∷ [])) [])
    ⊎ (prompt_title (some (b'A' ∷ b'.' ∷ [])) []
        ≡ take 104 (clean (b'A' ∷ b'.' ∷ []))
          ++ (if ltb 104 (length (clean (b'A' ∷ b'.' ∷ []))) then text "…" else []))
prompt_title-IsSentence_example = prompt_title-IsSentence b'A' (b'.' ∷ []) []
