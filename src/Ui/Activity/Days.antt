-- ===== src/Ui/Activity/Days.antt =====
-- Each day counts just its own sessions, server/ui/src/lib/activity.ts.
use farfield.Base.{
  ℕ, zero, suc, ◌+◌, ◌-◌, ◌<◌, ◌==◌, ◌≡◌, refl, ap, ◌∙◌, Bool, false, List, [], ◌∷◌, map, Option,
  none, some, Text, text_eq, text_eq_iff, any, keep, length, arith, if◌then◌else◌, Bool-cases,
  Option-cases, inl, inr,
}
use farfield.Ui.App.{ConversationSummary}
use farfield.Ui.Activity.{
  Calendar, Bucket, DailyActivity, finish_bucket, add_agents, count_session, update_bucket,
  days_from, local_date_key, empty_bucket, count_conversation, count_conversations, shown_days,
  safe_days, build_daily_activity, total_events,
}

module _ (calendar : Calendar) where
  -- The session of a conversation starts on the day.
  pub starts_on : ℕ → ConversationSummary → Bool
  starts_on day conversation = is_day (calendar.get_time conversation.first_seen_at)
    where
      is_day : Option ℕ → Bool
      is_day none = false
      is_day (some time) = calendar.day_of time == day

  -- The agents of several conversations, each once.
  pub agents_of : List ConversationSummary → List Text → List Text
  agents_of [] agents = agents
  agents_of (conversation ∷ conversations) agents =
      agents_of conversations (add_agents conversation.agents agents)

  -- What a day has of the sessions that start on it.
  abbrev pub activity_on : List ConversationSummary → ℕ → DailyActivity
  activity_on conversations day =
      let own = keep (starts_on day) conversations in
      record {
        day = day;
        key = local_date_key calendar day;
        sessions = length own;
        agents = length (agents_of own []);
        events = total_events own;
      }

  add_own : ConversationSummary → ℕ → Bucket → Bucket
  add_own conversation day bucket =
      if starts_on day conversation then count_session conversation bucket else bucket

  add_all : List ConversationSummary → ℕ → Bucket → Bucket
  add_all [] day bucket = bucket
  add_all (conversation ∷ conversations) day bucket =
      add_all conversations day (add_own conversation day bucket)

  -- Days have different keys.
  abbrev pub IsKeyed : Type 0
  IsKeyed = (d e : ℕ) → local_date_key calendar d ≡ local_date_key calendar e → d ≡ e

  module _ (keyed : IsKeyed) where
    key-eq : (d e : ℕ) → text_eq (local_date_key calendar d) (local_date_key calendar e) ≡ (e == d)
    key-eq d e = ground (
      arith,
      keyed d e,
      text_eq_iff (local_date_key calendar d) (local_date_key calendar e),
      λ (h : d ≡ e). ap (local_date_key calendar) h,
    )

    changed : ℕ → (Bucket → Bucket) → (ℕ → Bucket) → ℕ → Bucket
    changed e f g d = if e == d then f (g d) else g d

    map-changed :
        (e : ℕ) (f : Bucket → Bucket) (g : ℕ → Bucket) (n k : ℕ)
        → e < k
        → map (changed e f g) (days_from n k) ≡ map g (days_from n k)
    unfolding days_from changed
    map-changed e f g zero k h = refl
    map-changed e f g (suc n) k h = ground (arith, map-changed e f g n (suc k))

    module _ (g : ℕ → Bucket) (named : (d : ℕ) → (g d).key ≡ local_date_key calendar d) where
      any-key :
          (e n k : ℕ)
          → e < k
          → any (λ b. text_eq b.key (local_date_key calendar e)) (map g (days_from n k)) ≡ false
      unfolding days_from
      any-key e zero k h = refl
      any-key e (suc n) k h =
          rw (named k, key-eq k e, any-key e n (suc k) (omega arith)) (ground arith)

      update_bucket-days :
          (e : ℕ) (f : Bucket → Bucket) (n k : ℕ)
          → update_bucket (local_date_key calendar e) f (map g (days_from n k))
            ≡ map (changed e f g) (days_from n k)
      unfolding update_bucket days_from changed
      update_bucket-days e f zero k = refl
      update_bucket-days e f (suc n) k = elim (Bool-cases (e == k)) [
        | inl same ↦
            let here : e ≡ k = ground arith in
            rw
              (
                named k,
                key-eq k e,
                same,
                any-key e n (suc k) (omega arith),
                map-changed e f g n (suc k) (omega arith),
              )
              refl
        | inr other ↦ rw (named k, key-eq k e, other, update_bucket-days e f n (suc k)) refl
      ]

    add_own-key :
        (conversation : ConversationSummary) (g : ℕ → Bucket)
        → ((d : ℕ) → (g d).key ≡ local_date_key calendar d)
        → (d : ℕ) → (add_own conversation d (g d)).key ≡ local_date_key calendar d
    unfolding add_own
    add_own-key conversation g named d = ground (arith, named d)

    count_conversation-days :
        (conversation : ConversationSummary) (g : ℕ → Bucket) (n k : ℕ)
        → ((d : ℕ) → (g d).key ≡ local_date_key calendar d)
        → count_conversation calendar conversation (map g (days_from n k))
          ≡ map (λ d. add_own conversation d (g d)) (days_from n k)
    unfolding count_conversation add_own starts_on changed
    count_conversation-days conversation g n k named =
        elim (Option-cases (calendar.get_time conversation.first_seen_at)) [
          | inl untimed ↦ rw (untimed, count_conversation) refl
          | inr (time, timed) ↦
              rw
                (
                  timed,
                  count_conversation,
                  update_bucket-days g named (calendar.day_of time) (count_session conversation) n
                      k,
                )
                refl
        ]

    count_conversations-days :
        (conversations : List ConversationSummary) (g : ℕ → Bucket) (n k : ℕ)
        → ((d : ℕ) → (g d).key ≡ local_date_key calendar d)
        → count_conversations calendar conversations (map g (days_from n k))
          ≡ map (λ d. add_all conversations d (g d)) (days_from n k)
    unfolding count_conversations add_all
    count_conversations-days [] g n k named = refl
    count_conversations-days (conversation ∷ conversations) g n k named =
        rw (count_conversation-days conversation g n k named) (
          count_conversations-days conversations (λ d. add_own conversation d (g d)) n k
            (add_own-key conversation g named))

  add_all-own :
      (conversations : List ConversationSummary) (d : ℕ) (b : Bucket)
      → add_all conversations d b ≡ record {
        day = b.day;
        key = b.key;
        sessions = b.sessions + length (keep (starts_on d) conversations);
        agents = agents_of (keep (starts_on d) conversations) b.agents;
        events = b.events + total_events (keep (starts_on d) conversations);
      }
  unfolding add_all add_own agents_of total_events
  add_all-own [] d b = ground arith
  add_all-own (conversation ∷ conversations) d b = elim (Bool-cases (starts_on d conversation)) [
    | inl own ↦ rw own (add_all-own conversations d (count_session conversation b) ∙ ground arith)
    | inr other ↦ rw other (add_all-own conversations d b)
  ]

map-each :
    {A B C : Type 0} (f : B → C) (g : A → B) (h : A → C) (xs : List A)
    → ((x : A) → f (g x) ≡ h x)
    → map f (map g xs) ≡ map h xs
map-each f g h [] e = refl
map-each f g h (x ∷ xs) e = rw (e x, map-each f g h xs e) refl

-- If different days have different keys: of the days that are shown, today's last, each has exactly
-- the sessions that start on it, the number of their different agents and the sum of their events,
-- whatever the order of the conversations; those whose start is no time count nowhere.
pub build_daily_activity-each :
    (calendar : Calendar) (conversations : List ConversationSummary) (days now : ℕ)
    → IsKeyed calendar
    → build_daily_activity calendar conversations days now
      ≡ map (activity_on calendar conversations) (shown_days calendar days now)
unfolding build_daily_activity
build_daily_activity-each calendar conversations days now keyed =
    rw
      (count_conversations-days calendar keyed conversations (empty_bucket calendar)
        (safe_days days) (calendar.day_of now + 1 - safe_days days) (λ d. refl))
      (map-each _ _ _ (shown_days calendar days now) each)
  where
    each :
        (d : ℕ)
        → finish_bucket (add_all calendar conversations d (empty_bucket calendar d))
          ≡ activity_on calendar conversations d
    each d =
        ap finish_bucket (add_all-own calendar conversations d (empty_bucket calendar d))
        ∙ ground arith
