-- ===== src/Ui/Activity/Tests.antt =====
-- The activity of some days on small inputs, server/ui/src/lib/activity.ts.
use farfield.Base.{
  ℕ, ◌≡◌, refl, List, [], ◌∷◌, map, some, Text, text, text_eq, mem_text, add_text, arith, length,
}
use farfield.Ui.App.{ConversationSummary}
use farfield.Ui.Activity.{
  Calendar, add_agents, update_bucket, days_from, local_date_key, count_conversation,
  count_conversations, build_daily_activity, shown_days, maximum, unique_agents, total_events,
  active_days, sessions_metric,
}
use farfield.Ui.Activity.Days.{IsKeyed, activity_on, build_daily_activity-each}

-- A calendar of one endless month, whose times are whole days.
abbrev calendar : Calendar
calendar = record {
  get_time = λ s. some (length s);
  day_of = λ time. time;
  year = λ day. 2026;
  month = λ day. 0;
  date = λ day. day;
  print = λ n. n ∷ [];
}

calendar-IsKeyed : IsKeyed calendar
unfolding local_date_key
calendar-IsKeyed d e h = ground (arith, h)

abbrev session : Text → ℕ → Text → ConversationSummary
session start records agent = record {
  id = text "c";
  record_count = records;
  first_seen_at = start;
  last_seen_at = start;
  agents = agent ∷ [];
  kinds = [];
}

abbrev sessions : List ConversationSummary
sessions =
    session (text "123") 5 (text "a")
    ∷ session (text "1234") 7 (text "b")
    ∷ session (text "123") 1 (text "a")
    ∷ session (text "1") 9 (text "c")
    ∷ []

computes : Unit {0}
unfolding text text_eq mem_text add_text add_agents update_bucket days_from local_date_key
    count_conversation count_conversations build_daily_activity maximum unique_agents total_events
    active_days
computes = tt

-- Three days up to the fourth: the session of the first day is too old.
activity_test :
    (map (λ d. d.sessions) (build_daily_activity calendar sessions 3 4) ≡ 0 ∷ 2 ∷ 1 ∷ [])
    × (map (λ d. d.agents) (build_daily_activity calendar sessions 3 4) ≡ 0 ∷ 1 ∷ 1 ∷ [])
    × (map (λ d. d.events) (build_daily_activity calendar sessions 3 4) ≡ 0 ∷ 6 ∷ 7 ∷ [])
unfolding computes
activity_test = (refl, refl, refl)

overview_test :
    (maximum sessions_metric (build_daily_activity calendar sessions 3 4) ≡ 2)
    × (unique_agents sessions [] ≡ 3)
    × (total_events sessions ≡ 22)
    × (active_days (build_daily_activity calendar sessions 3 4) ≡ 2)
unfolding computes
overview_test = (refl, refl, refl, refl)

build_daily_activity-each_example :
    build_daily_activity calendar sessions 3 4
    ≡ map (activity_on calendar sessions) (shown_days calendar 3 4)
build_daily_activity-each_example = build_daily_activity-each calendar sessions 3 4 calendar-IsKeyed
