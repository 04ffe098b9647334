-- ===== src/Ui/App.antt =====
-- server/ui/src/app.tsx: what the viewer loads and shows. A setter and the effects that the next
-- render runs are steps of their own, as are the answers of the requests. `fetch` whose signal is
-- aborted is taken to reject with an AbortError. Demo mode has no requests and is left out.
pub mod Settled
pub mod Stale
mod Tests
use farfield.Base.{
  ℕ, suc, ◌+◌, ltb, ◌==◌, ◌≡◌, ◌≢◌, Bool, true, false, not, ◌&&◌, ◌||◌, List, [], ◌∷◌, ◌++◌, Option,
  none, some, Text, text_eq, option_eq, is_present, any, if◌then◌else◌,
}
use farfield.Ui.History.{TimelineEntry}

-- `ConversationSummary`, server/ui/src/lib/history.ts.
pub record ConversationSummary : Type 0 where
  pub id : Text
  pub record_count : ℕ
  pub first_seen_at : Text
  pub last_seen_at : Text
  pub agents : List Text
  pub kinds : List Text

-- A timeline that was asked for, and whether its controller is not aborted.
pub record Request : Type 0 where
  pub id : Text
  pub live : Bool

pub record App : Type 0 where
  pub conversations : List ConversationSummary
  pub selected_id : Option Text
  pub entries : List TimelineEntry
  pub list_loading : Bool
  pub timeline_loading : Bool
  pub list_error : Option Text
  pub timeline_error : Option Text
  pub refresh_key : ℕ
  -- The requests for the list under way, by whether they are live, and those for timelines.
  pub list_requests : List Bool
  pub timeline_requests : List Request
  -- The dependencies at the last run of each effect.
  pub listed : Option ℕ
  pub timed : Option (Option Text × ℕ)

unfoldable pub init : App
init = record {
  conversations = [];
  selected_id = none;
  entries = [];
  list_loading = true;
  timeline_loading = false;
  list_error = none;
  timeline_error = none;
  refresh_key = 0;
  list_requests = [];
  timeline_requests = [];
  listed = none;
  timed = none;
}

-- The conversation with the most records; the first of several.
unfoldable pub largest :
    List ConversationSummary → Option ConversationSummary → Option ConversationSummary
largest [] best = best
largest (value ∷ values) none = largest values (some value)
largest (value ∷ values) (some best) =
    largest values (some (if ltb best.record_count value.record_count then value else best))

abbrev id_of : Option ConversationSummary → Option Text
id_of none = none
id_of (some value) = some value.id

-- The selection behind a list that was loaded.
unfoldable pub reselect : List ConversationSummary → Option Text → Option Text
reselect values current =
    if is_present current && any (λ value. option_eq current (some value.id)) values
    then current
    else id_of (largest values none)

-- What a request gives: a value, the message of an error, or the AbortError of an aborted one.
pub data Answer (A : Type 0) : Type 0 where
  loaded : A → Answer A
  broken : Text → Answer A
  aborted : Answer A

unfoldable pub answer_list : Answer (List ConversationSummary) → App → App
answer_list (loaded values) app = record app {
  conversations = values;
  selected_id = reselect values app.selected_id;
  list_loading = false;
}
answer_list (broken message) app = record app { list_error = some message; list_loading = false }
answer_list aborted app = record app { list_loading = false }

unfoldable pub answer_timeline : Answer (List TimelineEntry) → App → App
answer_timeline (loaded entries) app = record app { entries = entries; timeline_loading = false }
answer_timeline (broken message) app = record app {
  timeline_error = some message;
  timeline_loading = false;
}
answer_timeline aborted app = record app { timeline_loading = false }

abbrev pub abort : Request → Request
abort request = record request { live = false }

unfoldable pub abort_all : List Request → List Request
abort_all [] = []
abort_all (request ∷ requests) = abort request ∷ abort_all requests

unfoldable pub abort_lists : List Bool → List Bool
abort_lists [] = []
abort_lists (live ∷ requests) = false ∷ abort_lists requests

-- `loadConversations` behind the cleanup of its last run.
unfoldable pub run_list : App → App
run_list app = record app {
  list_requests = abort_lists app.list_requests ++ true ∷ [];
  list_loading = true;
  list_error = none;
  listed = some app.refresh_key;
}

-- The effect of the timeline, behind the cleanup of its last run.
unfoldable pub run_timeline : App → App
run_timeline app =
    let cleaned : App = record app {
      timeline_requests = abort_all app.timeline_requests;
      timed = some (app.selected_id, app.refresh_key);
    } in
    elim app.selected_id [
      | none ↦ record cleaned { entries = [] }
      | some id ↦
          if is_present (some id)
          then record cleaned {
            timeline_requests =
                abort_all app.timeline_requests ++ record { id = id; live = true } ∷ [];
            timeline_loading = true;
            timeline_error = none;
          }
          else record cleaned { entries = [] }
    ]

-- What can happen. `Belongs id entries` says that the server gives the entries for a conversation.
pub data Step (Belongs : Text → List TimelineEntry → Type 0) : App → App → Type 0 where
  -- Only sessions of the list are offered.
  selects :
      (app : App) (before after : List ConversationSummary) (value : ConversationSummary)
      → app.conversations ≡ before ++ value ∷ after
      → Step Belongs app (record app { selected_id = some value.id })
  refreshes : (app : App) → Step Belongs app (record app { refresh_key = app.refresh_key + 1 })
  lists : (app : App) → app.listed ≢ some app.refresh_key → Step Belongs app (run_list app)
  times :
      (app : App)
      → app.timed ≢ some (app.selected_id, app.refresh_key)
      → Step Belongs app (run_timeline app)
  list_answered :
      (app : App) (before after : List Bool) (answer : Answer (List ConversationSummary))
      → app.list_requests ≡ before ++ true ∷ after
      → answer ≢ aborted
      → Step Belongs app (answer_list answer (record app { list_requests = before ++ after }))
  list_aborted :
      (app : App) (before after : List Bool)
      → app.list_requests ≡ before ++ false ∷ after
      → Step Belongs app (answer_list aborted (record app { list_requests = before ++ after }))
  timeline_loaded :
      (app : App) (before after : List Request) (request : Request) (entries : List TimelineEntry)
      → app.timeline_requests ≡ before ++ request ∷ after
      → request.live ≡ true
      → Belongs request.id entries
      → Step Belongs app
          (answer_timeline (loaded entries) (record app { timeline_requests = before ++ after }))
  timeline_broken :
      (app : App) (before after : List Request) (request : Request) (message : Text)
      → app.timeline_requests ≡ before ++ request ∷ after
      → request.live ≡ true
      → Step Belongs app
          (answer_timeline (broken message) (record app { timeline_requests = before ++ after }))
  timeline_aborted :
      (app : App) (before after : List Request) (request : Request)
      → app.timeline_requests ≡ before ++ request ∷ after
      → request.live ≡ false
      → Step Belongs app
          (answer_timeline aborted (record app { timeline_requests = before ++ after }))

pub data Reach (Belongs : Text → List TimelineEntry → Type 0) : App → Type 0 where
  start : Reach Belongs init
  next : {app app' : App} → Reach Belongs app → Step Belongs app app' → Reach Belongs app'
