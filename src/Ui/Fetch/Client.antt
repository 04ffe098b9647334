-- ===== src/Ui/Fetch/Client.antt =====
-- The viewer's reading of an answer against the client's, server/ui/src/lib/history.ts and
-- sdk/typescript/src/client.ts.
use farfield.Base.{
  ℕ, ◌≡◌, refl, false, [], ◌∷◌, List, Option, none, some, Text, text, length, arith, sym, ◌∙◌, ◌↔◌,
  subst,
}
use farfield.Sdk.Client.{Result, ok}
use farfield.Sdk.Queries.{Encoding, timeline_path}
use farfield.Sdk.Request.{
  Reader, Settings, Answer, replied, broken, Round, Trace, request, decode, decide, received,
  Decision, finish,
}
use farfield.Sdk.Request.Bounds.{IsReceived, request-IsRun, request-ok}
use farfield.Sdk.Calls.{timeline, get_call}
use farfield.Ui.History.{TimelineEntry}
use farfield.Ui.App.{loaded}
use farfield.Ui.Demo.{Scenario, Clock}
use farfield.Ui.Demo.Entries.{is_demo_mode}
use farfield.Ui.Fetch.{
  Engine, Reply, responded, unreached, answered, as_type, read_json, fetch_timeline,
}

-- The viewer's network that gives, at every address, an answer that the client had.
abbrev pub reply_of : Answer → Reply
reply_of (replied status body retry_after) = responded status body
reply_of (broken message) = unreached message

module _ {J : Type 0} (reader : Reader J) (engine : Engine J)
    (parse_same : (body : Text) → engine.parse body ≡ reader.parse body)
    (parse_empty : reader.parse [] ≡ none) where
  module _ (settings : Settings) (path : Text) where
    IsReceived-loaded :
        (a : Answer) (value : J)
        → IsReceived reader settings (text "GET") path a (some value)
        → answered engine (reply_of a) ≡ loaded value
    unfolding answered read_json decode
    IsReceived-loaded (replied status [] retry_after) value (success, d) = ground arith
    IsReceived-loaded (replied status (c ∷ body) retry_after) value (success, d) =
        let same = parse_same (c ∷ body) in ground arith
    IsReceived-loaded (broken message) value h = absurd h

    loaded-IsReceived :
        (a : Answer) (value : J)
        → answered engine (reply_of a) ≡ loaded value
        → IsReceived reader settings (text "GET") path a (some value)
    unfolding answered read_json decode
    loaded-IsReceived (replied status [] retry_after) value h =
        let same = parse_same [] in ground arith
    loaded-IsReceived (replied status (c ∷ body) retry_after) value h =
        let same = parse_same (c ∷ body) in ground arith
    loaded-IsReceived (broken message) value h = ground arith

    module _ (rounds : ℕ → Round) (value : J) where
      abbrev t : Trace J
      t = request reader settings (text "GET") path rounds (ok none)

      abbrev last : Answer
      last = (rounds (length t.waits)).answer

      request-loaded : t.result ≡ ok (some value) → answered engine (reply_of last) ≡ loaded value
      request-loaded h =
          IsReceived-loaded last value
            (request-ok reader settings (text "GET") path rounds none (some value) h)

      finish-injective : {r s : Result (Option J)} → finish r ≡ finish s → r ≡ s
      finish-injective h = ground arith

      decide-received :
          (attempt : ℕ) (r : Round) (a : Answer)
          → IsReceived reader settings (text "GET") path a (some value)
          → decide reader settings (text "GET") path attempt r a ≡ finish (ok (some value))
      unfolding decide received
      decide-received attempt r (replied status body retry_after) (success, d) =
          rw (success, d) refl
      decide-received attempt r (broken message) h = absurd h

      abbrev decision_at : ℕ → Decision J
      decision_at k = decide reader settings (text "GET") path k (rounds k) (rounds k).answer

      loaded-request : answered engine (reply_of last) ≡ loaded value → t.result ≡ ok (some value)
      loaded-request h =
          let run = request-IsRun reader settings (text "GET") path rounds none in
          let ends : decision_at (length t.waits) ≡ finish t.result =
            subst (λ k. decision_at k ≡ finish t.result) (omega arith) run.ends in
          finish-injective (
            sym ends
            ∙ decide-received (length t.waits) (rounds (length t.waits)) last
                (loaded-IsReceived last value h))

  module _ (time_of : Text → ℕ) (clock : Clock) (scenarios : List Scenario)
      (parameters : List (Text × Text)) (network : Text → Reply)
      (typed : J → List TimelineEntry) where
    as_type-loaded :
        (a : farfield.Ui.App.Answer J) (entries : List TimelineEntry)
        → as_type typed a ≡ loaded entries
        → (value : J) × (a ≡ loaded value) × (entries ≡ typed value)
    unfolding as_type
    as_type-loaded a entries h = ground arith

    -- Outside of demo mode, and where the network gives the viewer, at the path from which the
    -- client asks for a timeline, the answer to the client's last attempt, the viewer loads a
    -- timeline exactly when the client's call returns the same value. Both are given that they read
    -- a body the same way and that an empty one is not JSON.
    pub fetch_timeline-timeline :
        (settings : Settings) (encoding : Encoding) (id : Text) (rounds : ℕ → Round)
        (entries : List TimelineEntry)
        → is_demo_mode parameters ≡ false
        → network (timeline_path encoding id)
          ≡ reply_of (rounds (length (timeline reader settings rounds encoding id).waits)).answer
        → (fetch_timeline engine time_of clock scenarios parameters network
              encoding.encode_component typed id
            ≡ loaded entries)
          ↔ ((value : J) × ((timeline reader settings rounds encoding id).result ≡ ok (some value))
              × (entries ≡ typed value))
    unfolding fetch_timeline timeline get_call timeline_path as_type
    fetch_timeline-timeline settings encoding id rounds entries d n =
        rw (d, n)
          (
            (λ h.
                let (value, e, same) = as_type-loaded _ entries h in
                (value, loaded-request settings (timeline_path encoding id) rounds value e, same)),
            λ (value, e, same).
                rw (request-loaded settings (timeline_path encoding id) rounds value e, same) refl,
          )
