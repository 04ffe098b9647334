-- ===== src/Ui/ReviewView/Tests.antt =====
-- The review on small inputs, server/ui/src/components/conversation-review.tsx.
use farfield.Base.{
  ◌≡◌, refl, List, [], ◌∷◌, map, keep, concat, none, some, text, text_eq, starts_with, mem_text,
  add_text, join, decimal, decimal_from,
}
use farfield.Ui.Samples.{matching, call, asked, entry_of}
use farfield.Ui.History.{TimelineEntry}
use farfield.Ui.Review.{
  ReviewActivityBlock, build_review_blocks, build_blocks, flush_activity, activity_block,
  is_message,
}
use farfield.Ui.Review.Blocks.{entries_in}
use farfield.Ui.ReviewView.Shown.{visible_blocks-entries}
use farfield.Ui.ReviewView.{
  is_content, visible_blocks, delete_text, toggle, activity_summary, activity_duration,
}

abbrev started : TimelineEntry
started = entry_of (text "0") (text "agent.turn.started") none

abbrev entries : List TimelineEntry
entries = started ∷ asked ∷ call ∷ []

abbrev block : ReviewActivityBlock
block = record {
  id = text "activity";
  entries = call ∷ [];
  duration = some 0;
  tool_calls = 2;
  tool_results = 1;
  model_events = 0;
  reasoning_events = 0;
  errors = 0;
  tools = [];
}

computes : Unit {0}
unfolding text text_eq mem_text add_text starts_with join decimal decimal_from delete_text toggle
    activity_summary activity_duration build_review_blocks build_blocks flush_activity
    activity_block visible_blocks is_message
computes = tt

summary_test :
    (activity_summary block ≡ text "2 tool calls · 1 result")
    × (activity_duration block ≡ text "instant")
unfolding computes
summary_test = (refl, refl)

toggle_test : toggle (text "a") (toggle (text "b") (toggle (text "a") [])) ≡ text "b" ∷ []
unfolding computes
toggle_test = refl

-- The block before the question, which only starts the turn, is not shown.
visible_test :
    map entries_in (visible_blocks matching.engine matching.stringify entries)
    ≡ (asked ∷ []) ∷ (call ∷ []) ∷ []
unfolding computes
visible_test = refl

visible_blocks-entries_example :
    keep is_content
      (concat (map entries_in (visible_blocks matching.engine matching.stringify entries)))
    ≡ keep is_content entries
visible_blocks-entries_example = visible_blocks-entries matching.engine matching.stringify entries
