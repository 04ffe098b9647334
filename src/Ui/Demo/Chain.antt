-- ===== src/Ui/Demo/Chain.antt =====
-- What every session of the demonstration has, server/ui/src/lib/demo-data.ts.
use farfield.Base.{
  ℕ, zero, suc, ◌-◌, ltb, ◌≡◌, ◌≢◌, refl, ◌∙◌, List, [], ◌∷◌, ◌++◌, Option, none, some, Text, text,
  false, text_eq, text_eq_iff, text_eq_refl, length, length-append, All, arith, if◌then◌else◌,
}
use farfield.Base.Map.{get, put, get-put}
use farfield.Ui.History.{TimelineEntry}
use farfield.Ui.Demo.{Scenario, Clock}
use farfield.Ui.Demo.Timeline.{Progress, fill_kinds, kinds_of}
use farfield.Ui.Demo.Entries.{
  parent_of, conversation_of, demo_entry, build_entries, build_timeline, demo_timelines,
  demo_timeline,
}

-- Each entry has the span of the one before it as its parent.
abbrev pub IsChain : Option Text → List TimelineEntry → Type 0
IsChain parent [] = Unit
IsChain parent (entry ∷ entries) =
    (entry.history_record.parent_id ≡ parent) × IsChain entry.history_record.span_id entries

length-fill_kinds : (n index : ℕ) → length (fill_kinds n index) ≡ n
unfolding fill_kinds
length-fill_kinds zero index = refl
length-fill_kinds (suc n) index = omega (arith, length-fill_kinds n (suc index))

length-kinds_of :
    (scenario : Scenario)
    → length (kinds_of scenario) ≡ (if ltb scenario.records 5 then 5 else scenario.records)
unfolding kinds_of
length-kinds_of scenario = ground (
  arith,
  length-append (fill_kinds (scenario.records - 2 - 3) 0)
      (text "message.assistant" ∷ text "agent.turn.completed" ∷ []),
  length-fill_kinds (scenario.records - 2 - 3) 0,
)

module _ (clock : Clock) (scenario : Scenario) (failing : Option ℕ) (n : ℕ) where
  length-build_entries :
      (index : ℕ) (p : Progress) (kinds : List Text)
      → length (build_entries clock scenario failing n index p kinds) ≡ length kinds
  unfolding build_entries
  length-build_entries index p [] = refl
  length-build_entries index p (kind ∷ kinds) =
      omega (arith, length-build_entries (suc index) _ kinds)

  build_entries-IsChain :
      (index : ℕ) (p : Progress) (kinds : List Text)
      → IsChain (parent_of index) (build_entries clock scenario failing n index p kinds)
  unfolding build_entries demo_entry
  build_entries-IsChain index p [] = tt
  build_entries-IsChain index p (kind ∷ kinds) = (refl, build_entries-IsChain (suc index) _ kinds)

-- A session of the demonstration has as many entries as its scenario says, but at least five, and
-- its spans are one chain: the first entry has no parent, and each other one has the span of the
-- entry before it.
pub build_timeline-IsChain :
    (clock : Clock) (scenario : Scenario)
    → IsChain none (build_timeline clock scenario)
      × (length (build_timeline clock scenario)
          ≡ (if ltb scenario.records 5 then 5 else scenario.records))
unfolding build_timeline
build_timeline-IsChain clock scenario = (
  build_entries-IsChain clock scenario _ _ 0 _ (kinds_of scenario),
  length-build_entries clock scenario _ _ 0 _ (kinds_of scenario) ∙ length-kinds_of scenario,
)

conversation_of-same : (s t : Scenario) → conversation_of s ≡ conversation_of t → s.slug ≡ t.slug
unfolding text
conversation_of-same s t h = ground (arith, h)

module _ (clock : Clock) where
  get-demo_timelines :
      (s : Scenario) (scenarios : List Scenario) (timelines : List (Text × List TimelineEntry))
      → All (λ t. t.slug ≢ s.slug) scenarios
      → get (conversation_of s) (demo_timelines clock scenarios timelines)
        ≡ get (conversation_of s) timelines
  unfolding demo_timelines
  get-demo_timelines s [] timelines h = refl
  get-demo_timelines s (t ∷ scenarios) timelines (h, hs) =
      get-demo_timelines s scenarios (put (conversation_of t) (build_timeline clock t) timelines) hs
      ∙ get-put (conversation_of t) (conversation_of s) (build_timeline clock t) timelines
      ∙ rw other refl
    where
      other : text_eq (conversation_of t) (conversation_of s) ≡ false
      other =
          ground (
            arith,
            h,
            text_eq_iff (conversation_of t) (conversation_of s),
            conversation_of-same t s,
          )

  find-demo_timelines :
      (s : Scenario) (before after : List Scenario) (timelines : List (Text × List TimelineEntry))
      → All (λ t. t.slug ≢ s.slug) after
      → get (conversation_of s) (demo_timelines clock (before ++ s ∷ after) timelines)
        ≡ some (build_timeline clock s)
  unfolding demo_timelines
  find-demo_timelines s [] after timelines h =
      get-demo_timelines s after (put (conversation_of s) (build_timeline clock s) timelines) h
      ∙ get-put (conversation_of s) (conversation_of s) (build_timeline clock s) timelines
      ∙ rw (text_eq_refl (conversation_of s)) refl
  find-demo_timelines s (t ∷ before) after timelines h =
      find-demo_timelines s before after
        (put (conversation_of t) (build_timeline clock t) timelines) h

  -- The timeline of a scenario's session is found by its id, if no later scenario has its slug.
  pub demo_timeline-found :
      (s : Scenario) (before after : List Scenario)
      → All (λ t. t.slug ≢ s.slug) after
      → demo_timeline clock (before ++ s ∷ after) (conversation_of s) ≡ build_timeline clock s
  unfolding demo_timeline
  demo_timeline-found s before after h = rw (find-demo_timelines s before after [] h) refl
