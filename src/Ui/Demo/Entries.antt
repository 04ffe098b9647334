-- ===== src/Ui/Demo/Entries.antt =====
-- The entries of a demonstration's session and the sessions, server/ui/src/lib/demo-data.ts.
use farfield.Base.{
  ℕ, zero, suc, ◌+◌, ◌-◌, ltb, ◌==◌, Bool, false, List, [], ◌∷◌, ◌++◌, map, Option, none, some,
  Text, text, text_eq, starts_with, add_text, get_or, length, keep, last?, decimal, if◌then◌else◌,
}
use farfield.Base.Map.{get, put}
use farfield.Integrations.Payload.{Json, str}
use farfield.Ui.History.{TimelineEntry}
use farfield.Ui.App.{ConversationSummary}
use farfield.Ui.Demo.{Failure, Scenario, Clock, dashless, underscoreless, pad_three, cycled, object}
use farfield.Ui.Demo.Timeline.{
  Progress, terminal_of, kinds_of, failure_tool_call, note_call, tool_failed, narrates_failure,
  note_failure, demo_status, content_for_kind, bold,
}

-- The content of the last message.
abbrev closing_content : Clock → Scenario → Json
closing_content clock scenario =
    let named = dashless scenario.slug in
    elim (terminal_of scenario.failure) [
      | some failure ↦ object (
          (
            text "text",
            str (
                text "## Unable to complete\n\nThe "
                ++ (bold clock named
                    ++ (text " run stopped because `"
                        ++ (failure.code
                            ++ (text "` prevented the final evidence check.\n\n- "
                                ++ (failure.message
                                    ++ text
                                        "\n- No mitigation recommendation was issued\n- Partial evidence remains available for debugging")))))),
          )
          ∷ [])
      | none ↦ object (
          (
            text "text",
            str (
                text "## Recommendation\n\nThe "
                ++ (bold clock named
                    ++ (text " run completed with "
                        ++ (decimal (length scenario.tools)
                            ++ text
                                " evidence sources reconciled.\n\n- Primary checks passed\n- One recoverable tool failure was retried successfully\n- Remaining risk is bounded and documented\n- All supporting records are sealed in immutable history")))),
          )
          ∷ [])
    ]

-- The content of a message that tells of a failure.
abbrev narration : Clock → Text → Failure → Json
narration clock tool failure = object (
    (
      text "text",
      str (
          text "The "
          ++ (bold clock (underscoreless tool)
              ++ (text " call failed with `"
                  ++ (failure.code
                      ++ text
                          "`. I switched to the captured fallback evidence path and can continue.")))),
    )
    ∷ [])

-- The content of an entry, at its index of so many.
unfoldable pub entry_content : Clock → Scenario → ℕ → ℕ → Text → Bool → Progress → Json
entry_content clock scenario n index kind failed p =
    if index == n - 2
    then closing_content clock scenario
    else if narrates_failure kind p
    then told scenario.failure
    else content_for_kind clock kind scenario index p.active_tool failed
  where
    told : Option Failure → Json
    told none = content_for_kind clock kind scenario index p.active_tool failed
    told (some failure) = narration clock (get_or p.failed_tool p.active_tool) failure

abbrev pub span_of : ℕ → Text
span_of n = text "span_" ++ pad_three n

-- `index > 0 ? span : null`
abbrev pub parent_of : ℕ → Option Text
parent_of zero = none
parent_of (suc n) = some (span_of (suc n))

abbrev pub conversation_of : Scenario → Text
conversation_of scenario = text "conv_demo_" ++ scenario.slug

module _ (clock : Clock) where
  open clock use {double, occurred, recorded, size}

  -- The record of an entry.
  unfoldable pub demo_entry : Scenario → ℕ → ℕ → Text → Bool → Progress → TimelineEntry
  demo_entry scenario n index kind failed p =
      let content = entry_content clock scenario n index kind failed p in
      let at = occurred scenario index n in
      record {
        history_record = record {
          id = text "rec_demo_" ++ (scenario.slug ++ (text "_" ++ pad_three (index + 1)));
          conversation_id = conversation_of scenario;
          kind = kind;
          occurred_at = at;
          recorded_at = recorded at;
          sequence = some (double (index + 1));
          trace_id = some (text "trace_demo_" ++ scenario.slug);
          span_id = some (span_of (suc index));
          parent_id = parent_of index;
          agent = cycled index scenario.agents;
          tool = if starts_with kind (text "tool.") then some p.active_tool else none;
          status = demo_status scenario failed kind;
          tags =
              (text "environment", scenario.environment)
              ∷ (text "team", scenario.team)
              ∷ (text "prompt", scenario.slug)
              ∷ (text "demo", text "true")
              ∷ [];
          size = size content;
        };
        content = content;
      }

  -- The callback of `map`, over the kinds from an index on.
  unfoldable pub build_entries :
      Scenario → Option ℕ → ℕ → ℕ → Progress → List Text → List TimelineEntry
  build_entries scenario failing n index p [] = []
  build_entries scenario failing n index p (kind ∷ kinds) =
      let called = note_call scenario kind p in
      let failed = tool_failed failing kind called in
      demo_entry scenario n index kind failed called
      ∷ build_entries scenario failing n (suc index) (note_failure failing kind called) kinds

  -- `buildTimeline`
  unfoldable pub build_timeline : Scenario → List TimelineEntry
  build_timeline scenario =
      let kinds = kinds_of scenario in
      let total = length (keep (λ kind. text_eq kind (text "tool.call")) kinds) in
      let p : Progress = record {
        active_tool = get_or (cycled 0 scenario.tools) [];
        tool_call_count = 0;
        active_tool_call = 0;
        pending_failure_narration = false;
        failed_tool = none;
      } in
      build_entries scenario (failure_tool_call total scenario.failure) (length kinds) 0 p kinds

  unfoldable pub kinds_in : List TimelineEntry → List Text → List Text
  kinds_in [] kinds = kinds
  kinds_in (entry ∷ entries) kinds = kinds_in entries (add_text entry.history_record.kind kinds)

  abbrev time_of : Option TimelineEntry → Text
  time_of none = []
  time_of (some entry) = entry.history_record.occurred_at

  abbrev head? : List TimelineEntry → Option TimelineEntry
  head? [] = none
  head? (entry ∷ _) = some entry

  -- A member of `demoConversations`.
  unfoldable pub demo_conversation : Scenario → ConversationSummary
  demo_conversation scenario =
      let timeline = build_timeline scenario in
      record {
        id = conversation_of scenario;
        record_count = length timeline;
        first_seen_at = time_of (head? timeline);
        last_seen_at = time_of (last? timeline);
        agents = scenario.agents;
        kinds = kinds_in timeline [];
      }

  -- `timelines`
  unfoldable pub demo_timelines :
      List Scenario → List (Text × List TimelineEntry) → List (Text × List TimelineEntry)
  demo_timelines [] timelines = timelines
  demo_timelines (scenario ∷ scenarios) timelines =
      demo_timelines scenarios (put (conversation_of scenario) (build_timeline scenario) timelines)

  -- `demoTimeline`
  unfoldable pub demo_timeline : List Scenario → Text → List TimelineEntry
  demo_timeline scenarios id = get_or (get id (demo_timelines scenarios [])) []

-- The sort of the sessions, the last ones first: `get_time` of the last entry decides, and those
-- with the same time keep their order.
module _ (get_time : Text → ℕ) where
  unfoldable pub insert_session :
      ConversationSummary → List ConversationSummary → List ConversationSummary
  insert_session c [] = c ∷ []
  insert_session c (d ∷ sessions) =
      let rest = insert_session c sessions in
      if ltb (get_time c.last_seen_at) (get_time d.last_seen_at) then d ∷ rest else c ∷ d ∷ sessions

  unfoldable pub sort_sessions : List ConversationSummary → List ConversationSummary
  sort_sessions [] = []
  sort_sessions (c ∷ sessions) = insert_session c (sort_sessions sessions)

  -- `demoConversations`
  unfoldable pub demo_conversations : Clock → List Scenario → List ConversationSummary
  demo_conversations clock scenarios = sort_sessions (map (demo_conversation clock) scenarios)

-- `isDemoMode`, of the parameters of the page's address.
unfoldable pub is_demo_mode : List (Text × Text) → Bool
is_demo_mode parameters = is_one (get (text "demo") parameters)
  where
    is_one : Option Text → Bool
    is_one none = false
    is_one (some value) = text_eq value (text "1")
