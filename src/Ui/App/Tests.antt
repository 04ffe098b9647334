-- ===== src/Ui/App/Tests.antt =====
-- The viewer's state on a short run, server/ui/src/app.tsx.
use farfield.Base.{◌≡◌, refl, true, List, [], ◌∷◌, none, some, Text, text, arith}
use farfield.Integrations.Payload.{null}
use farfield.Ui.History.{TimelineEntry}
use farfield.Ui.App.{
  App, Request, Reach, lists, list_answered, times, timeline_loaded, start, next, init, run_list,
  run_timeline, answer_list, abort_lists, answer_timeline, loaded, reselect, largest,
  ConversationSummary, abort_all,
}
use farfield.Ui.App.Settled.{Settled, Reach-Settled}
use farfield.Ui.App.Stale.{b, IsStale, Reach-IsStale}

-- A server that has one record for each conversation.
abbrev entries_of : Text → List TimelineEntry
entries_of id =
    record {
      history_record = record {
        id = text "1";
        conversation_id = id;
        kind = text "message.user";
        occurred_at = text "t";
        recorded_at = text "t";
        sequence = none;
        trace_id = none;
        span_id = none;
        parent_id = none;
        agent = none;
        tool = none;
        status = none;
        tags = [];
        size = record { bits = 0 };
      };
      content = null;
    }
    ∷ []

abbrev Belongs : Text → List TimelineEntry → Type 0
Belongs id entries = entries ≡ entries_of id

abbrev summary : Text → ConversationSummary
summary id = record {
  id = id;
  record_count = 2;
  first_seen_at = text "t";
  last_seen_at = text "t";
  agents = [];
  kinds = [];
}

abbrev request : Request
request = record { id = text "a"; live = true }

abbrev conversations : List ConversationSummary
conversations = summary (text "a") ∷ summary (text "b") ∷ []

abbrev selected : App
selected = answer_list (loaded conversations) (record (run_list init) { list_requests = [] })

abbrev asking : App
asking = run_timeline selected

abbrev shown : App
shown = answer_timeline (loaded (entries_of (text "a"))) (record asking { timeline_requests = [] })

shown-Reach : Reach Belongs shown
unfolding text init run_list run_timeline abort_all abort_lists answer_list reselect largest
shown-Reach =
    next
      (next
        (next (next start (lists init (λ e. ground (arith, e)))) (
          list_answered (run_list init) [] [] (loaded conversations) refl (λ e. ground (arith, e))))
        (times selected (λ e. ground (arith, e))))
      (timeline_loaded asking [] [] request (entries_of (text "a")) refl refl refl)

Reach-Settled_example : Settled Belongs shown shown.timed
Reach-Settled_example = Reach-Settled Belongs shown shown-Reach

Reach-IsStale_example :
    (app : App) × Reach Belongs app
    × IsStale app (b Belongs b'a' b'b' [] [] (entries_of (b'a' ∷ []))) (entries_of (b'a' ∷ []))
Reach-IsStale_example =
    Reach-IsStale Belongs b'a' b'b' [] [] (entries_of (b'a' ∷ [])) (λ e. ground (arith, e)) refl

-- The first of the largest conversations is selected.
reselect_test : reselect (summary (text "a") ∷ summary (text "b") ∷ []) none ≡ some (text "a")
unfolding reselect largest text
reselect_test = refl
