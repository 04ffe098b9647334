-- ===== src/Ui/Fetch/Shown.antt =====
-- What the viewer shows of an answer, server/ui/src/lib/history.ts and server/ui/src/app.tsx.
use farfield.Base.{
  ℕ, ◌≡◌, ◌≢◌, refl, true, false, List, some, Text, arith, ◌⊎◌, inl, inr, ◌++◌, text,
}
use farfield.Sdk.Request.{is_success}
use farfield.Ui.History.{TimelineEntry}
use farfield.Ui.App.{App, Answer, loaded, broken, aborted, answer_timeline}
use farfield.Ui.Demo.{Scenario, Clock}
use farfield.Ui.Demo.Entries.{is_demo_mode}
use farfield.Ui.Fetch.{
  Engine, Reply, responded, unreached, abandoned, answered, as_type, read_json, fetch_timeline,
}

module _ {J : Type 0} (engine : Engine J) (typed : J → List TimelineEntry) where
  -- The reply has these entries.
  abbrev pub Gives : Reply → List TimelineEntry → Type 0
  Gives (responded status body) entries =
      (is_success status ≡ true)
      × (value : J) × (engine.parse body ≡ some value)
      × (entries ≡ typed value)
  Gives (unreached message) entries = ⊥
  Gives abandoned entries = ⊥

  -- What is behind the answer: the entries of the reply, or those of before, with an error unless
  -- the request was aborted.
  pub data IsShown (reply : Reply) (app : App) : App → Type 0 where
    replaced :
        (entries : List TimelineEntry)
        → Gives reply entries
        → IsShown reply app (record app { entries = entries; timeline_loading = false })
    failed :
        (message : Text)
        → ¬ ((entries : List TimelineEntry) × Gives reply entries)
        → reply ≢ abandoned
        → IsShown reply app (record app { timeline_error = some message; timeline_loading = false })
    dismissed : reply ≡ abandoned → IsShown reply app (record app { timeline_loading = false })

  answered-Gives :
      (reply : Reply) (value : J) → answered engine reply ≡ loaded value → Gives reply (typed value)
  unfolding answered read_json
  answered-Gives (responded status body) value h =
      let (success, parsed) : (is_success status ≡ true) × (engine.parse body ≡ some value) =
        ground arith in
      (success, value, parsed, refl)
  answered-Gives (unreached message) value h = ground arith
  answered-Gives abandoned value h = ground arith

  answered-aborted : (reply : Reply) → answered engine reply ≡ aborted → reply ≡ abandoned
  unfolding answered read_json
  answered-aborted (responded status body) h = ground arith
  answered-aborted (unreached message) h = ground arith
  answered-aborted abandoned h = refl

  broken-Gives :
      (reply : Reply) (message : Text)
      → answered engine reply ≡ broken message
      → ¬ ((entries : List TimelineEntry) × Gives reply entries)
  unfolding answered read_json
  broken-Gives (responded status body) message h (entries, (success, value, parsed, e)) =
      ground arith
  broken-Gives (unreached m) message h (entries, given) = absurd given
  broken-Gives abandoned message h (entries, given) = absurd given

  broken-abandoned :
      (reply : Reply) (message : Text) → answered engine reply ≡ broken message → reply ≢ abandoned
  unfolding answered
  broken-abandoned reply message h e = ground arith

  answer_cases :
      (a : Answer J)
      → ((value : J) × (a ≡ loaded value))
        ⊎ ((message : Text) × (a ≡ broken message))
        ⊎ (a ≡ aborted)
  answer_cases (loaded value) = inl (value, refl)
  answer_cases (broken message) = inr (inl (message, refl))
  answer_cases aborted = inr (inr refl)

  module _ (time_of : Text → ℕ) (clock : Clock) (scenarios : List Scenario)
      (parameters : List (Text × Text)) (network : Text → Reply)
      (encode_component : Text → Text) where
    -- Outside of demo mode, whatever the network gives for a timeline, the viewer is no longer
    -- loading. It shows the entries of a response with a status from 200 to 299 whose body was
    -- parsed, or the entries of before: with an error where there is neither such a response nor an
    -- aborted request, and with the error of before where the request was aborted.
    pub fetch_timeline-IsShown :
        (id : Text) (app : App)
        → is_demo_mode parameters ≡ false
        → IsShown
            (network
              (text "/v1/history/conversations/" ++ (encode_component id ++ text "/timeline")))
            app
            (answer_timeline
              (fetch_timeline engine time_of clock scenarios parameters network encode_component
                typed id)
              app)
    unfolding fetch_timeline answer_timeline as_type
    fetch_timeline-IsShown id app d =
        let reply =
          network
            (text "/v1/history/conversations/" ++ (encode_component id ++ text "/timeline")) in
        elim (answer_cases (answered engine reply)) [
          | inl (value, e) ↦ rw (d, e) (replaced (typed value) (answered-Gives reply value e))
          | inr (inl (message, e)) ↦
              rw (d, e)
                (failed message (broken-Gives reply message e) (broken-abandoned reply message e))
          | inr (inr e) ↦ rw (d, e) (dismissed (answered-aborted reply e))
        ]
