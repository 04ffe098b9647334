-- ===== src/Sdk/Batch.antt =====
-- `capture`, `captureBatch`, `capturePreparedBatch`, `withConversation`'s and `batch`'s helpers,
-- and the classes `Conversation` and `Batch`, sdk/typescript/src/client.ts. A call is modelled up
-- to the request that it sends; Sdk/Request.antt has the sending.
pub mod Guard
pub mod Sends
mod Tests
use farfield.Base.{
  ℕ, Bool, true, false, not, ◌||◌, List, [], ◌∷◌, ◌++◌, Option, none, some, Text, text, text_eq,
  get_or, is_truthy, any, if◌then◌else◌, or_else,
}
use farfield.Sdk.Types.{Value, Number, Tags, Scope, Event, WireEvent, Moment}
use farfield.Sdk.Json.{Heap}
use farfield.Sdk.Scope.{active_scope}
use farfield.Sdk.Client.{
  Result, ok, fault, Fault, dropped_event, type_error, ◌>>=◌, ◌>>◌, require, Client, Runtime,
  fresh_id, prepare_event,
}

pub data Body : Type 0 where
  no_body : Body
  one_record : WireEvent → Body
  segment : Text → List WireEvent → Body

pub record Request : Type 0 where
  pub method : Text
  pub path : Text
  pub body : Body

-- `capture`
unfoldable pub capture : Client → Option Scope → Runtime → Heap → Event → Result Request
capture client stored rt h event = do
  (prepared, h') ← prepare_event client stored rt h event
  ok (record {
    method = text "POST";
    path = text "/v1/history/records";
    body = one_record prepared;
  })

abbrev pub empty_batch : Fault
empty_batch = type_error (text "farfield: batch requires at least one event")

abbrev pub mixed_batch : Fault
mixed_batch = type_error (text "farfield: every event in a batch must belong to one conversation")

abbrev pub all_dropped : Fault
all_dropped = dropped_event (text "farfield: every event in the batch was dropped")

abbrev pub differs : Text → WireEvent → Bool
differs conversation e = not (text_eq e.conversation_id conversation)

unfoldable pub send_segment : Runtime → Option Text → List WireEvent → Request
send_segment rt segment_id events = record {
  method = text "POST";
  path = text "/v1/history/segments";
  body = segment (get_or segment_id (fresh_id rt (text "seg_"))) events;
}

-- `capturePreparedBatch`; the runtime draws the id of a segment that has none.
unfoldable pub capture_prepared_batch : Runtime → Option Text → List WireEvent → Result Request
capture_prepared_batch rt segment_id [] = fault empty_batch
capture_prepared_batch rt segment_id (e ∷ events) =
    if not (is_truthy e.conversation_id) || any (differs e.conversation_id) (e ∷ events)
    then fault mixed_batch
    else ok (send_segment rt segment_id (e ∷ events))

module _ (client : Client) (stored : Option Scope) where
  -- The loop of `captureBatch`: each event with what the runtime draws for it, the conversation of
  -- the first event prepared, and the events prepared so far.
  unfoldable pub prepare_batch :
      List (Event × Runtime) → Heap → Option Text → List WireEvent → Result (List WireEvent × Heap)
  prepare_batch [] h conversation prepared = ok (prepared, h)
  prepare_batch ((event, rt) ∷ more) h conversation prepared =
      elim (prepare_event client stored rt h event) [
        | fault (dropped_event m) ↦ prepare_batch more h conversation prepared
        | fault e ↦ fault e
        | ok (value, h') ↦
            let first = get_or conversation value.conversation_id in
            let rest = prepare_batch more h' (some first) (prepared ++ value ∷ []) in
            if text_eq value.conversation_id first then rest else fault mixed_batch
      ]

  abbrev pub some_event : List WireEvent → Bool
  some_event [] = false
  some_event (_ ∷ _) = true

  -- `captureBatch`
  unfoldable pub capture_batch :
      List (Event × Runtime) → Heap → Runtime → Option Text → Result Request
  capture_batch [] h rt segment_id = fault empty_batch
  capture_batch (event ∷ events) h rt segment_id = do
    (prepared, h') ← prepare_batch (event ∷ events) h none []
    require (some_event prepared) all_dropped
    capture_prepared_batch rt segment_id prepared

-- The events of `Batch.capture` and `Conversation.capture`: the id of the conversation is put over
-- the event's own.
unfoldable pub in_conversation : Text → Event → Event
in_conversation conversation event = record event {
  scope = record (event.scope) { conversation_id = some conversation };
}

-- A batch that is being filled.
pub record Batch : Type 0 where
  pub conversation_id : Text
  pub events : List Event

-- `Batch.capture`
unfoldable pub batch_capture : Batch → Event → Batch
batch_capture b event = record b {
  events = b.events ++ in_conversation b.conversation_id event ∷ [];
}

-- The events of `message`, with the properties of its last argument.
unfoldable pub message_event : Text → Value → Event → Event
message_event role content event = record event {
  kind = text "message." ++ role;
  content = content;
}

-- The events of `toolResult`: the status of the last argument, if any, else "completed".
unfoldable pub tool_result_event : Text → Value → Event → Event
tool_result_event tool content event = record event {
  kind = text "tool.result";
  content = content;
  tool = some tool;
  status = or_else event.status (some (text "completed"));
}

-- The conversation of `Farfield.batch`, with the id that is drawn for an absent one.
unfoldable pub batch_conversation : Client → Option Scope → Option Text → Text → Text
batch_conversation client stored given fresh =
    get_or given (get_or (active_scope client.defaults stored).conversation_id fresh)
