-- ===== src/Ui/Demo/Tests.antt =====
-- A session of the demonstration on a small scenario, server/ui/src/lib/demo-data.ts.
use farfield.Base.{
  ◌≡◌, refl, false, [], ◌∷◌, map, none, some, text, text_eq, starts_with, mem_text, decimal,
  decimal_from,
}
use farfield.Ui.Demo.{Scenario, Clock, zeros, pad_three, element_at}
use farfield.Ui.Demo.Timeline.{fill_kinds, kinds_of, note_call, note_failure, demo_status}
use farfield.Ui.Demo.Entries.{demo_entry, build_entries, build_timeline}

abbrev clock : Clock
clock = record {
  double = λ n. record { bits = n };
  occurred = λ scenario index n. index ∷ [];
  recorded = λ at. at;
  size = λ content. record { bits = 0 };
}

abbrev scenario : Scenario
scenario = record {
  slug = text "audit";
  agents = text "a" ∷ text "b" ∷ [];
  prompt = text "Audit.";
  records = 9;
  model = text "claude";
  tools = text "exec" ∷ text "read_file" ∷ [];
  environment = text "staging";
  team = text "platform";
  failure =
      some (record { tool_call = none; terminal = false; code = text "E"; message = text "m" });
}

computes : Unit {0}
unfolding text text_eq starts_with mem_text decimal decimal_from zeros pad_three element_at
    fill_kinds kinds_of note_call note_failure demo_status demo_entry build_entries build_timeline
computes = tt

-- The last call of a tool fails, which the next message would tell.
timeline_test :
    (map (λ e. e.history_record.status) (build_timeline clock scenario)
      ≡ some (text "running")
        ∷ none
        ∷ none
        ∷ none
        ∷ none
        ∷ some (text "failed")
        ∷ none
        ∷ none
        ∷ some (text "complete")
        ∷ [])
    × (map (λ e. e.history_record.agent) (build_timeline clock (record scenario { records = 0 }))
        ≡ some (text "a")
          ∷ some (text "b")
          ∷ some (text "a")
          ∷ some (text "b")
          ∷ some (text "a")
          ∷ [])
unfolding computes
timeline_test = (refl, refl)
