-- ===== src/Ui/Activity.antt =====
-- server/ui/src/lib/activity.ts and server/ui/src/components/activity-overview.tsx: how many
-- sessions, agents and events a day has. A date without a time of day is the number of its day,
-- counted from the first that a `Date` can hold.
pub mod Days
mod Tests
use Prim.Native.Nat.{◌%◌}
use farfield.Base.{
  ℕ, zero, suc, ◌+◌, ◌-◌, ltb, ◌==◌, Bool, true, false, not, ◌&&◌, ◌||◌, List, [], ◌∷◌, ◌++◌, map,
  Option, none, some, Text, text, text_eq, add_text, any, length, if◌then◌else◌,
}
use farfield.Ui.App.{ConversationSummary}

-- What the code asks of the calendar of the place: the day of a time and the parts of a day's date;
-- and the parser of times and the digits of a number.
pub record Calendar : Type 0 where
  pub get_time : Text → Option ℕ
  pub day_of : ℕ → ℕ
  pub year : ℕ → ℕ
  pub month : ℕ → ℕ
  pub date : ℕ → ℕ
  pub print : ℕ → Text

-- A day while it is counted.
pub record Bucket : Type 0 where
  pub day : ℕ
  pub key : Text
  pub sessions : ℕ
  pub agents : List Text
  pub events : ℕ

pub record DailyActivity : Type 0 where
  pub day : ℕ
  pub key : Text
  pub sessions : ℕ
  pub agents : ℕ
  pub events : ℕ

-- `s.padStart(2, "0")`
abbrev pad_two : Text → Text
pad_two [] = text "00"
pad_two (c ∷ []) = b'0' ∷ c ∷ []
pad_two s = s

unfoldable pub add_agents : List Text → List Text → List Text
add_agents [] agents = agents
add_agents (agent ∷ more) agents = add_agents more (add_text agent agents)

-- What a conversation adds to the bucket of its day.
abbrev pub count_session : ConversationSummary → Bucket → Bucket
count_session conversation bucket = record {
  day = bucket.day;
  key = bucket.key;
  sessions = bucket.sessions + 1;
  agents = add_agents conversation.agents bucket.agents;
  events = bucket.events + conversation.record_count;
}

-- The bucket that the Map has for a key is changed: of several with one key, the last.
unfoldable pub update_bucket : Text → (Bucket → Bucket) → List Bucket → List Bucket
update_bucket key f [] = []
update_bucket key f (bucket ∷ buckets) =
    let rest = update_bucket key f buckets in
    if text_eq bucket.key key && not (any (λ b. text_eq b.key key) buckets)
    then f bucket ∷ buckets
    else bucket ∷ rest

abbrev finish_bucket : Bucket → DailyActivity
finish_bucket bucket = record {
  day = bucket.day;
  key = bucket.key;
  sessions = bucket.sessions;
  agents = length bucket.agents;
  events = bucket.events;
}

-- `n` days, from one on.
unfoldable pub days_from : ℕ → ℕ → List ℕ
days_from zero day = []
days_from (suc n) day = day ∷ days_from n (suc day)

-- `Math.max(1, Math.floor(days))`
abbrev pub safe_days : ℕ → ℕ
safe_days days = if days == 0 then 1 else days

module _ (calendar : Calendar) where
  open calendar use {get_time, day_of, year, month, date, print}

  -- `localDateKey`
  unfoldable pub local_date_key : ℕ → Text
  local_date_key day =
      print (year day)
      ++ b'-' ∷ pad_two (print (month day + 1))
      ++ b'-' ∷ pad_two (print (date day))

  abbrev pub empty_bucket : ℕ → Bucket
  empty_bucket day = record {
    day = day;
    key = local_date_key day;
    sessions = 0;
    agents = [];
    events = 0;
  }

  -- The body of the loop.
  unfoldable pub count_conversation : ConversationSummary → List Bucket → List Bucket
  count_conversation conversation buckets = elim (get_time conversation.first_seen_at) [
    | none ↦ buckets
    | some time ↦ update_bucket (local_date_key (day_of time)) (count_session conversation) buckets
  ]

  unfoldable pub count_conversations : List ConversationSummary → List Bucket → List Bucket
  count_conversations [] buckets = buckets
  count_conversations (conversation ∷ conversations) buckets =
      count_conversations conversations (count_conversation conversation buckets)

  -- The days that are shown, today's last.
  abbrev pub shown_days : ℕ → ℕ → List ℕ
  shown_days days now = days_from (safe_days days) (day_of now + 1 - safe_days days)

  -- `buildDailyActivity`
  unfoldable pub build_daily_activity : List ConversationSummary → ℕ → ℕ → List DailyActivity
  build_daily_activity conversations days now =
      map finish_bucket (count_conversations conversations (map empty_bucket (shown_days days now)))

pub data Metric : Type 0 where
  agents_metric : Metric
  sessions_metric : Metric
  events_metric : Metric

abbrev pub metric_of : Metric → DailyActivity → ℕ
metric_of agents_metric day = day.agents
metric_of sessions_metric day = day.sessions
metric_of events_metric day = day.events

-- `maximum` of the overview.
unfoldable pub maximum : Metric → List DailyActivity → ℕ
maximum metric [] = 1
maximum metric (day ∷ days) =
    let rest = maximum metric days in
    if ltb rest (metric_of metric day) then metric_of metric day else rest

-- `uniqueAgents`
unfoldable pub unique_agents : List ConversationSummary → List Text → ℕ
unique_agents [] agents = length agents
unique_agents (conversation ∷ conversations) agents =
    unique_agents conversations (add_agents conversation.agents agents)

-- `totalEvents`
unfoldable pub total_events : List ConversationSummary → ℕ
total_events [] = 0
total_events (conversation ∷ conversations) = conversation.record_count + total_events conversations

-- `activeDays`
unfoldable pub active_days : List DailyActivity → ℕ
active_days [] = 0
active_days (day ∷ days) =
    let rest = active_days days in if ltb 0 day.sessions then suc rest else rest

-- Whether a day has its label, of all that are shown.
abbrev pub shows_label : ℕ → ℕ → Bool
shows_label n index = index == 0 || index + 1 == n || index % 4 == 1
