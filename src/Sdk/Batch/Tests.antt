-- ===== src/Sdk/Batch/Tests.antt =====
-- Batches of one and of two conversations, sdk/typescript/src/client.ts.
use farfield.Base.{ℕ, ◌≡◌, ◌↔◌, refl, [], ◌∷◌, none, some, Text, text_eq, All}
use farfield.Base.Map.{get, put, spread}
use farfield.Sdk.Types.{Scope, Event, WireEvent, null}
use farfield.Sdk.Scope.{merge_scope, active_scope}
use farfield.Sdk.Json.{encode_check, validate_json}
use farfield.Sdk.Client.{
  Client, Runtime, ok, fault, prepare_event, finish_event, encode_draft, apply_hook, draft_of,
  occurred_at, wire_event, fresh_id, check_content, check_sequence,
}
use farfield.Sdk.Batch.{
  mixed_batch, send_segment, capture_prepared_batch, prepare_batch, capture_batch,
}
use farfield.Sdk.Batch.Guard.{
  IsOneConversation, IsPrepared, whole_request, SentWhole, capture_batch-SentWhole,
  capture_prepared_batch_iff,
}
use farfield.Sdk.Batch.Sends.{IsAccepted, groups-IsAccepted}
use farfield.Sdk.Processor.{groups}

abbrev no_scope : Scope
no_scope = record {
  conversation_id = none;
  trace_id = none;
  span_id = none;
  parent_id = none;
  agent = none;
  tags = none;
}

abbrev client : Client
client = record { defaults = no_scope; before_send = none }

abbrev rt : Runtime
rt = record { hex = []; now = 1 ∷ []; parse_date = λ s. none; to_iso = λ ms. [] }

abbrev event : ℕ → ℕ → Event
event id conversation = record {
  scope = record no_scope { conversation_id = some (conversation ∷ []) };
  kind = 1 ∷ [];
  content = null;
  id = some (id ∷ []);
  occurred_at = none;
  sequence = none;
  tool = none;
  status = none;
}

abbrev sent : ℕ → ℕ → WireEvent
sent id conversation = record {
  id = id ∷ [];
  conversation_id = conversation ∷ [];
  kind = 1 ∷ [];
  content = null;
  occurred_at = 1 ∷ [];
  sequence = none;
  trace_id = none;
  span_id = none;
  parent_id = none;
  agent = none;
  tool = none;
  status = none;
  tags = [];
}

computes : Unit {0}
unfolding prepare_batch capture_batch capture_prepared_batch send_segment prepare_event finish_event
    encode_draft apply_hook draft_of occurred_at wire_event fresh_id check_content check_sequence
    encode_check validate_json merge_scope active_scope get put spread text_eq
computes = tt

both_prepared :
    prepare_batch client none ((event 1 7, rt) ∷ (event 2 7, rt) ∷ []) [] none []
    ≡ ok (sent 1 7 ∷ sent 2 7 ∷ [], [])
unfolding computes
both_prepared = refl

mixed :
    capture_batch client none ((event 1 7, rt) ∷ (event 2 8, rt) ∷ []) [] rt none
    ≡ fault mixed_batch
unfolding computes
mixed = refl

capture_batch-SentWhole_example :
    IsPrepared client none ((event 1 7, rt) ∷ (event 2 7, rt) ∷ []) [] (sent 1 7 ∷ sent 2 7 ∷ []) []
    × SentWhole
        (capture_batch client none ((event 1 7, rt) ∷ (event 2 7, rt) ∷ []) [] rt none)
        rt
        none
        (sent 1 7 ∷ sent 2 7 ∷ [])
capture_batch-SentWhole_example =
    capture_batch-SentWhole client none (event 1 7, rt) ((event 2 7, rt) ∷ []) [] rt none
      (sent 1 7 ∷ sent 2 7 ∷ []) [] (refl, (refl, tt)) both_prepared

capture_prepared_batch_iff_example :
    (capture_prepared_batch rt none (sent 1 7 ∷ sent 2 8 ∷ [])
      ≡ ok (whole_request rt none (sent 1 7 ∷ sent 2 8 ∷ [])))
    ↔ ((c : Text) × IsOneConversation c (sent 1 7 ∷ sent 2 8 ∷ []))
capture_prepared_batch_iff_example = capture_prepared_batch_iff rt none (sent 1 7 ∷ sent 2 8 ∷ [])

groups-IsAccepted_example : All (IsAccepted rt) (groups (sent 1 7 ∷ sent 2 8 ∷ sent 3 7 ∷ []))
groups-IsAccepted_example =
    groups-IsAccepted rt (sent 1 7 ∷ sent 2 8 ∷ sent 3 7 ∷ []) (refl, (refl, (refl, tt)))
