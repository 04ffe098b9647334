-- ===== src/Ui/App/Settled.antt =====
-- What the viewer shows once the requests for timelines are answered, server/ui/src/app.tsx.
use farfield.Base.{
  ℕ, ◌≡◌, ◌⊎◌, inl, inr, refl, sym, ap, ◌∙◌, Bool, true, false, List, [], ◌∷◌, ◌++◌, Option, none,
  some, Text, arith, Option-cases, if◌then◌else◌,
}
use farfield.Ui.History.{TimelineEntry}
use farfield.Ui.App.{
  ConversationSummary, App, Request, Step, Reach, selects, refreshes, lists, times, list_answered,
  list_aborted, timeline_loaded, timeline_broken, timeline_aborted, start, next, init, run_list,
  run_timeline, abort_all, answer_list, answer_timeline, loaded, broken, aborted, Answer,
}

abbrev is_some : Option Text → Bool
is_some none = false
is_some (some _) = true

-- The timelines asked for by requests that are not aborted.
unfoldable pub live_ids : List Request → List Text
live_ids [] = []
live_ids (request ∷ requests) =
    if request.live then request.id ∷ live_ids requests else live_ids requests

abbrev Idle : App → Type 0
Idle app = (live_ids app.timeline_requests ≡ []) × (app.entries ≡ [])

-- The one live request is for the conversation, or there is none and the entries are the
-- conversation's or the error is shown.
abbrev Awaits : (Text → List TimelineEntry → Type 0) → App → Text → Type 0
Awaits Belongs app id =
    (live_ids app.timeline_requests ≡ id ∷ [])
    ⊎ ((live_ids app.timeline_requests ≡ [])
        × ((is_some app.timeline_error ≡ true) ⊎ Belongs id app.entries))

-- What the state is when the effect of the timeline ran last for the selection.
abbrev pub Settled : (Text → List TimelineEntry → Type 0) → App → Option (Option Text × ℕ) → Type 0
Settled Belongs app none = Idle app
Settled Belongs app (some (none, key)) = Idle app
Settled Belongs app (some (some [], key)) = Idle app
Settled Belongs app (some (some (c ∷ id), key)) = Awaits Belongs app (c ∷ id)

live_ids-append : (xs ys : List Request) → live_ids (xs ++ ys) ≡ live_ids xs ++ live_ids ys
unfolding live_ids
live_ids-append [] ys = refl
live_ids-append (x ∷ xs) ys = ground (arith, live_ids-append xs ys)

live_ids-abort_all : (xs : List Request) → live_ids (abort_all xs) ≡ []
unfolding live_ids abort_all
live_ids-abort_all [] = refl
live_ids-abort_all (x ∷ xs) = live_ids-abort_all xs

live_ids-live :
    (xs ys : List Request) (r : Request)
    → r.live ≡ true
    → live_ids (xs ++ r ∷ ys) ≡ live_ids xs ++ r.id ∷ live_ids ys
unfolding live_ids
live_ids-live xs ys r h = rw (live_ids-append xs (r ∷ ys), h) refl

live_ids-dead :
    (xs ys : List Request) (r : Request)
    → r.live ≡ false
    → live_ids (xs ++ r ∷ ys) ≡ live_ids (xs ++ ys)
unfolding live_ids
live_ids-dead xs ys r h = rw (live_ids-append xs (r ∷ ys), live_ids-append xs ys, h) refl

append-not_nil : (xs ys : List Text) (x : Text) → xs ++ x ∷ ys ≡ [] → ⊥
append-not_nil [] ys x h = ground (arith, h)
append-not_nil (y ∷ xs) ys x h = ground (arith, h)

append-one : (xs ys : List Text) (x a : Text) → xs ++ x ∷ ys ≡ a ∷ [] → (x ≡ a) × (xs ++ ys ≡ [])
append-one [] ys x a h = ground (arith, h)
append-one (y ∷ []) ys x a h = ground (arith, h)
append-one (y ∷ z ∷ xs) ys x a h = ground (arith, h)

module _ (Belongs : Text → List TimelineEntry → Type 0) where
  Settled-same :
      (app app' : App) (d : Option (Option Text × ℕ))
      → live_ids app'.timeline_requests ≡ live_ids app.timeline_requests
      → app'.entries ≡ app.entries
      → app'.timeline_error ≡ app.timeline_error
      → Settled Belongs app d
      → Settled Belongs app' d
  Settled-same app app' none r e t h = rw (r, e) h
  Settled-same app app' (some (none, key)) r e t h = rw (r, e) h
  Settled-same app app' (some (some [], key)) r e t h = rw (r, e) h
  Settled-same app app' (some (some (c ∷ id), key)) r e t h = rw (r, e, t) h

  run_timeline-Settled :
      (app : App) (s : Option Text)
      → app.selected_id ≡ s
      → Settled Belongs (run_timeline app) (some (s, app.refresh_key))
  unfolding run_timeline live_ids
  run_timeline-Settled app none h = rw h (live_ids-abort_all app.timeline_requests, refl)
  run_timeline-Settled app (some []) h = rw h (live_ids-abort_all app.timeline_requests, refl)
  run_timeline-Settled app (some (c ∷ id)) h =
      let asked : Request = record { id = c ∷ id; live = true } in
      rw h (
        inl (
          live_ids-live (abort_all app.timeline_requests) [] asked refl
          ∙ ap (λ ids. ids ++ (c ∷ id) ∷ []) (live_ids-abort_all app.timeline_requests)))

  -- The answer of a live request takes it off the list, and no other is live.
  answered-Settled :
      (app app' : App) (xs ys : List Text) (x : Text) (d : Option (Option Text × ℕ))
      → live_ids app.timeline_requests ≡ xs ++ x ∷ ys
      → live_ids app'.timeline_requests ≡ xs ++ ys
      → (is_some app'.timeline_error ≡ true) ⊎ Belongs x app'.entries
      → Settled Belongs app d
      → Settled Belongs app' d
  answered-Settled app app' xs ys x none l l' shown (idle, _) =
      absurd (append-not_nil xs ys x (sym l ∙ idle))
  answered-Settled app app' xs ys x (some (none, key)) l l' shown (idle, _) =
      absurd (append-not_nil xs ys x (sym l ∙ idle))
  answered-Settled app app' xs ys x (some (some [], key)) l l' shown (idle, _) =
      absurd (append-not_nil xs ys x (sym l ∙ idle))
  answered-Settled app app' xs ys x (some (some (c ∷ id), key)) l l' shown (inr (idle, _)) =
      absurd (append-not_nil xs ys x (sym l ∙ idle))
  answered-Settled app app' xs ys x (some (some (c ∷ id), key)) l l' shown (inl only) =
      let (same, rest) = append-one xs ys x (c ∷ id) (sym l ∙ only) in
      inr (l' ∙ rest, rw (sym same) shown)

  answer_list-Settled :
      (app app' : App) (answer : Answer (List ConversationSummary))
      → app'.timeline_requests ≡ app.timeline_requests
      → app'.entries ≡ app.entries
      → app'.timeline_error ≡ app.timeline_error
      → app'.timed ≡ app.timed
      → Settled Belongs app app.timed
      → Settled Belongs (answer_list answer app') (answer_list answer app').timed
  unfolding answer_list
  answer_list-Settled app app' (loaded values) r e t m h =
      rw m (Settled-same app (answer_list (loaded values) app') app.timed (ap live_ids r) e t h)
  answer_list-Settled app app' (broken message) r e t m h =
      rw m (Settled-same app (answer_list (broken message) app') app.timed (ap live_ids r) e t h)
  answer_list-Settled app app' aborted r e t m h =
      rw m (Settled-same app (answer_list aborted app') app.timed (ap live_ids r) e t h)

  run_timeline-timed :
      (app : App) → (run_timeline app).timed ≡ some (app.selected_id, app.refresh_key)
  unfolding run_timeline
  run_timeline-timed app = elim (Option-cases app.selected_id) [
    | inl unselected ↦ rw unselected refl
    | inr (id, selected) ↦ rw selected (ground arith)
  ]

  Step-Settled :
      (app app' : App)
      → Step Belongs app app'
      → Settled Belongs app app.timed
      → Settled Belongs app' app'.timed
  unfolding answer_timeline run_list
  Step-Settled _ app' (selects app before after value listed) h =
      Settled-same app app' app.timed refl refl refl h
  Step-Settled _ app' (refreshes app) h = Settled-same app app' app.timed refl refl refl h
  Step-Settled _ app' (lists app _) h = Settled-same app app' app.timed refl refl refl h
  Step-Settled _ app' (times app _) h =
      rw (run_timeline-timed app) (run_timeline-Settled app app.selected_id refl)
  Step-Settled _ app' (list_answered app before after answer e _) h =
      answer_list-Settled app (record app { list_requests = before ++ after }) answer refl refl refl
        refl h
  Step-Settled _ app' (list_aborted app before after e) h =
      answer_list-Settled app (record app { list_requests = before ++ after }) aborted refl refl
        refl refl h
  Step-Settled _ app' (timeline_loaded app before after r entries e l belongs) h =
      answered-Settled app app' (live_ids before) (live_ids after) r.id app.timed
        (ap live_ids e ∙ live_ids-live before after r l) (live_ids-append before after)
        (inr belongs) h
  Step-Settled _ app' (timeline_broken app before after r message e l) h =
      answered-Settled app app' (live_ids before) (live_ids after) r.id app.timed
        (ap live_ids e ∙ live_ids-live before after r l) (live_ids-append before after) (inl refl) h
  Step-Settled _ app' (timeline_aborted app before after r e l) h =
      Settled-same app app' app.timed (sym (ap live_ids e ∙ live_ids-dead before after r l)) refl
        refl h

  -- In every state that can be reached, for the selection at the last run of the timeline's
  -- effect: if there is one, its request is the only live one, or no request is live and the
  -- entries shown are of that conversation unless an error is shown; if there is none, no request
  -- is live and there are no entries.
  pub Reach-Settled : (app : App) → Reach Belongs app → Settled Belongs app app.timed
  unfolding init live_ids
  Reach-Settled _ start = (refl, refl)
  Reach-Settled app (next {app = before} reached step) =
      Step-Settled before app step (Reach-Settled before reached)
