-- ===== src/Ui/App/Stale.antt =====
-- A session that is not shown as loading while its timeline is asked for, server/ui/src/app.tsx.
use farfield.Base.{ℕ, ◌≡◌, ◌≢◌, refl, true, false, List, [], ◌∷◌, ◌++◌, none, some, Text, arith}
use farfield.Ui.History.{TimelineEntry}
use farfield.Ui.App.{
  ConversationSummary, App, Request, Reach, selects, lists, list_answered, times, timeline_loaded,
  timeline_aborted, start, next, init, run_list, run_timeline, abort_all, abort_lists, answer_list,
  answer_timeline, loaded, aborted, reselect, largest,
}
use farfield.Ui.App.Settled.{live_ids}

-- The selection, a session of the list, whose request is the only live one, and what is shown
-- meanwhile.
abbrev pub IsStale : App → ConversationSummary → List TimelineEntry → Type 0
IsStale app b entries =
    (app.selected_id ≡ some b.id)
    × ((before : List ConversationSummary) × (after : List ConversationSummary) × (app.conversations
          ≡ before ++ b ∷ after))
    × (live_ids app.timeline_requests ≡ b.id ∷ [])
    × (app.list_loading ≡ false)
    × (app.list_error ≡ none)
    × (app.timeline_loading ≡ false)
    × (app.timeline_error ≡ none)
    × (app.entries ≡ entries)

-- A session with one record.
abbrev session : Text → ConversationSummary
session id = record {
  id = id;
  record_count = 1;
  first_seen_at = [];
  last_seen_at = [];
  agents = [];
  kinds = [];
}

abbrev with_requests : List Request → App → App
with_requests requests app = record app { timeline_requests = requests }

module _ (Belongs : Text → List TimelineEntry → Type 0) (c d : ℕ) (s t : Text)
    (entries : List TimelineEntry) where
  abbrev a : ConversationSummary
  a = session (c ∷ s)

  abbrev pub b : ConversationSummary
  b = session (d ∷ t)

  abbrev listed : App
  listed = answer_list (loaded (a ∷ b ∷ [])) (record (run_list init) { list_requests = [] })

  abbrev asking : App
  asking = run_timeline listed

  abbrev shown : App
  shown = answer_timeline (loaded entries) (with_requests [] asking)

  -- A session of the list is selected, and the effect runs.
  abbrev chosen : ConversationSummary → App → App
  chosen value app = record app { selected_id = some value.id }

  abbrev turned : ConversationSummary → App → App
  turned value app = run_timeline (chosen value app)

  abbrev switched : App
  switched = turned b (turned a (turned b shown))

  abbrev request_of : ConversationSummary → Request
  request_of value = record { id = value.id; live = true }

  abbrev ended : ConversationSummary → Request
  ended value = record { id = value.id; live = false }

  abbrev stale : App
  stale = answer_timeline aborted (
      with_requests (request_of b ∷ [])
        (answer_timeline aborted (with_requests (ended a ∷ request_of b ∷ []) switched)))

  -- For any two ids of sessions and the entries of the first: where the list has sessions with
  -- them, a state can be reached in which the list is loaded, the second session is selected and
  -- its request under way, and the viewer shows the entries of the first and neither that it loads
  -- nor an error.
  pub Reach-IsStale :
      (c ∷ s) ≢ (d ∷ t)
      → Belongs (c ∷ s) entries
      → (app : App) × Reach Belongs app × IsStale app b entries
  unfolding init run_list run_timeline abort_all abort_lists answer_list answer_timeline reselect
      largest live_ids
  Reach-IsStale differ belongs =
      (stale, reach, (refl, (a ∷ [], [], refl), refl, refl, refl, refl, refl, refl))
    where
      reach_listed : Reach Belongs listed
      reach_listed =
          next (next start (lists init (λ e. ground (arith, e)))) (
            list_answered (run_list init) [] [] (loaded (a ∷ b ∷ [])) refl (λ e. ground (arith, e)))

      reach_shown : Reach Belongs shown
      reach_shown =
          next (next reach_listed (times listed (λ e. ground (arith, e))))
            (timeline_loaded asking [] [] (request_of a) entries refl refl belongs)

      to_b :
          (app : App)
          → app.conversations ≡ a ∷ b ∷ []
          → Reach Belongs app
          → Reach Belongs (chosen b app)
      to_b app e r = next r (selects app (a ∷ []) [] b e)

      to_a :
          (app : App)
          → app.conversations ≡ a ∷ b ∷ []
          → Reach Belongs app
          → Reach Belongs (chosen a app)
      to_a app e r = next r (selects app [] (b ∷ []) a e)

      reach_switched : Reach Belongs switched
      reach_switched =
          next
            (to_b (turned a (turned b shown)) refl (
              next
                (to_a (turned b shown) refl (
                  next (to_b shown refl reach_shown)
                    (times (chosen b shown) (λ e. differ (ground (arith, e))))))
                (times (chosen a (turned b shown)) (λ e. differ (ground (arith, e))))))
            (times (chosen b (turned a (turned b shown))) (λ e. differ (ground (arith, e))))

      reach : Reach Belongs stale
      reach =
          next
            (next reach_switched
              (timeline_aborted switched [] (ended a ∷ request_of b ∷ []) (ended b) refl refl))
            (timeline_aborted
              (answer_timeline aborted (with_requests (ended a ∷ request_of b ∷ []) switched)) []
              (request_of b ∷ []) (ended a) refl refl)
