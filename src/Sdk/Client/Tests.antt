-- ===== src/Sdk/Client/Tests.antt =====
-- Events that are prepared with and without a privacy hook, sdk/typescript/src/client.ts.
use farfield.Base.{◌≡◌, refl, [], ◌∷◌, Option, none, some, Text, text, text_eq}
use farfield.Base.Map.{get, put, spread}
use farfield.Sdk.Types.{Scope, Event, WireEvent, Value, ref, null}
use farfield.Sdk.Json.{
  array, circular, key, index, encode_check, validate_json, check_items, check_fields, check_object,
  object_at, mem, is_finite,
}
use farfield.Sdk.Scope.{merge_scope, active_scope}
use farfield.Sdk.Client.{
  Client, Runtime, Draft, Hook, ok, fault, not_json, prepare_event, finish_event, encode_draft,
  apply_hook, draft_of, occurred_at, wire_event, fresh_id, check_content, check_sequence, dropped,
}
use farfield.Sdk.Client.Prepare.{
  IsSendable, IsScoped, prepare_event-IsSendable, prepare_event-IsScoped, prepare_event-hook,
}

abbrev no_scope : Scope
no_scope = record {
  conversation_id = none;
  trace_id = none;
  span_id = none;
  parent_id = none;
  agent = none;
  tags = none;
}

abbrev plain_client : Client
plain_client = record { defaults = record no_scope { agent = some (text "a") }; before_send = none }

abbrev rt : Runtime
rt = record {
  hex = text "0f";
  now = text "now";
  parse_date = λ s. none;
  to_iso = λ ms. text "then";
}

abbrev event_with : Value → Event
event_with v = record {
  scope = no_scope;
  kind = text "k";
  content = v;
  id = some (text "e1");
  occurred_at = none;
  sequence = none;
  tool = none;
  status = none;
}

abbrev in_c : Option Scope
in_c = some (record no_scope { conversation_id = some (text "c") })

abbrev expected : Value → WireEvent
expected v = record {
  id = text "e1";
  conversation_id = text "c";
  kind = text "k";
  content = v;
  occurred_at = text "now";
  sequence = none;
  trace_id = none;
  span_id = none;
  parent_id = none;
  agent = some (text "a");
  tool = none;
  status = none;
  tags = [];
}

-- A hook that takes the content out.
abbrev redact : Hook
redact h d = ok (some (record d { content = some null }, h))

abbrev private_client : Client
private_client = record plain_client { before_send = some redact }

computes : Unit {0}
unfolding prepare_event finish_event encode_draft apply_hook draft_of occurred_at wire_event
    fresh_id check_content check_sequence encode_check validate_json check_items check_fields
    check_object object_at mem is_finite merge_scope active_scope text text_eq get put spread
    dropped
computes = tt

prepared : prepare_event plain_client in_c rt [] (event_with null) ≡ ok (expected null, [])
unfolding computes
prepared = refl

redacted :
    prepare_event private_client in_c rt (array [] ∷ []) (event_with (ref 0))
    ≡ ok (expected null, array [] ∷ [])
unfolding computes
redacted = refl

-- An array that holds itself is no content.
cyclic :
    prepare_event plain_client in_c rt (array (some (ref 0) ∷ []) ∷ []) (event_with (ref 0))
    ≡ fault (not_json (key (text "content") ∷ index 0 ∷ []) circular)
unfolding computes
cyclic = refl

prepare_event-IsSendable_example : IsSendable [] (expected null)
unfolding text
prepare_event-IsSendable_example =
    prepare_event-IsSendable plain_client in_c rt [] (event_with null) (expected null) [] refl
      prepared

prepare_event-IsScoped_example : IsScoped plain_client in_c rt (event_with null) (expected null)
prepare_event-IsScoped_example =
    prepare_event-IsScoped plain_client in_c rt [] (event_with null) (expected null) [] refl tt tt
      prepared

prepare_event-hook_example :
    (at : Text) × (returned : Draft) × (redact
        (array [] ∷ [])
        (draft_of rt (active_scope private_client.defaults in_c) (event_with (ref 0)) at)
      ≡ ok (some (returned, array [] ∷ [])))
    × (expected null ≡ wire_event rt returned)
prepare_event-hook_example =
    prepare_event-hook private_client in_c rt (array [] ∷ []) (event_with (ref 0)) (expected null)
      (array [] ∷ []) redact refl redacted
