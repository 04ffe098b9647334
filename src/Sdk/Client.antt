-- ===== src/Sdk/Client.antt =====
-- The errors of the client and the making of an event, sdk/typescript/src/errors.ts and
-- `prepareEvent` of sdk/typescript/src/client.ts.
pub mod Prepare
mod Tests
use farfield.Base.{
  ℕ, Bool, true, false, ◌++◌, List, [], ◌∷◌, Option, none, some, Text, text, get_or, or_else,
  is_truthy, is_present, if◌then◌else◌, length, ◌==◌,
}
use farfield.Base.Map.{spread}
use farfield.Sdk.Types.{Number, Value, Tags, Scope, Moment, date, stamp, Event, WireEvent}
use farfield.Sdk.Json.{
  Heap, PathStep, key, Defect, Checked, valid, exhausted, invalid, encode_check, is_finite,
  non_finite,
}
use farfield.Sdk.Scope.{active_scope}

-- What a call throws: `DroppedEvent`, a `TypeError` with its message, the `TypeError` of `encode`
-- (with the path and the defect in place of its text), `APIError`, `TransportError`, or what code
-- of the caller throws. `exhausted_check` stands for a check that does not end.
pub data Fault : Type 0 where
  dropped_event type_error transport_error raised : Text → Fault
  not_json : List PathStep → Defect → Fault
  api_error : (status : ℕ) (code message : Text) (retryable : Bool) → Fault
  exhausted_check : Fault

-- A call that returns or throws.
pub data Result (A : Type 0) : Type 0 where
  fault : Fault → Result A
  ok : A → Result A

infixl 5 ◌>>=◌ ◌>>◌
abbrev pub ◌>>=◌ : {A B : Type 0} → Result A → (A → Result B) → Result B
fault thrown >>= next = fault thrown
ok value >>= next = next value

abbrev pub ◌>>◌ : {B : Type 0} → Result (Unit {0}) → Result B → Result B
fault thrown >> second = fault thrown
ok done >> second = second

-- `if (!test) throw thrown`
abbrev pub require : Bool → Fault → Result (Unit {0})
require false thrown = fault thrown
require true thrown = ok tt

-- A wire event on its way: any property may be absent, and what the privacy hook returns may lack
-- some. A property that is there and `undefined` is not told from an absent one.
pub record Draft : Type 0 where
  pub id : Option Text
  pub conversation_id : Option Text
  pub kind : Option Text
  pub content : Option Value
  pub occurred_at : Option Text
  pub sequence : Option Number
  pub trace_id : Option Text
  pub span_id : Option Text
  pub parent_id : Option Text
  pub agent : Option Text
  pub tool : Option Text
  pub status : Option Text
  pub tags : Option Tags

-- `beforeSend` on a clone of the draft: it may throw, and returns null or a draft whose content
-- lies in a heap of its making.
abbrev pub Hook : Type 0
Hook = Heap → Draft → Result (Option (Draft × Heap))

pub record Client : Type 0 where
  pub defaults : Scope
  pub before_send : Option Hook

-- What the runtime supplies to a call: random bytes in hexadecimal and the time, and how it reads
-- and prints dates.
pub record Runtime : Type 0 where
  pub hex : Text
  pub now : Text
  pub parse_date : Text → Option ℕ
  pub to_iso : ℕ → Text

-- `id(prefix)`
unfoldable pub fresh_id : Runtime → Text → Text
fresh_id rt prefix = prefix ++ rt.hex

-- `occurredAt`
unfoldable pub occurred_at : Runtime → Option Moment → Result Text
occurred_at rt none = ok rt.now
occurred_at rt (some (date none)) =
    fault (type_error (text "farfield: occurredAt is not a valid date"))
occurred_at rt (some (date (some ms))) = ok (rt.to_iso ms)
occurred_at rt (some (stamp s)) = elim (rt.parse_date s) [
  | none ↦ fault (type_error (text "farfield: occurredAt is not a valid timestamp"))
  | some ms ↦ ok (rt.to_iso ms)
]

-- `undefined` is removed by `compact`.
abbrev pub defined : Value → Option Value
defined Value.undefined = none
defined v = some v

-- The object literal at the start of `prepareEvent`.
unfoldable pub draft_of : Runtime → Scope → Event → Text → Draft
draft_of rt scope event at = record {
  id = some (get_or event.id (fresh_id rt (text "rec_")));
  conversation_id = or_else event.conversation_id scope.conversation_id;
  kind = some event.kind;
  content = defined event.content;
  occurred_at = some at;
  sequence = event.sequence;
  trace_id = or_else event.trace_id scope.trace_id;
  span_id = or_else event.span_id scope.span_id;
  parent_id = or_else event.parent_id scope.parent_id;
  agent = or_else event.agent scope.agent;
  tool = event.tool;
  status = event.status;
  tags = some (spread (get_or scope.tags []) (get_or event.tags []));
}

unfoldable pub dropped : Fault
dropped = dropped_event (text "farfield: event dropped by beforeSend")

-- The call of `beforeSend`, if there is one.
unfoldable pub apply_hook : Option Hook → Heap → Draft → Result (Draft × Heap)
apply_hook none h d = ok (d, h)
apply_hook (some hook) h d = do
  answer ← hook h d
  elim answer [ none ↦ fault dropped | some (d', h') ↦ ok (d', h') ]

-- `s || t`
abbrev pub or_text : Option Text → Text → Text
or_text (some (c ∷ s)) t = c ∷ s
or_text _ t = t

-- The event that the last object literal makes, with "" for a conversation or kind that is absent.
unfoldable pub wire_event : Runtime → Draft → WireEvent
wire_event rt d = record {
  id = or_text d.id (fresh_id rt (text "rec_"));
  conversation_id = get_or d.conversation_id [];
  kind = get_or d.kind [];
  content = get_or d.content Value.undefined;
  occurred_at = or_text d.occurred_at rt.now;
  sequence = d.sequence;
  trace_id = d.trace_id;
  span_id = d.span_id;
  parent_id = d.parent_id;
  agent = d.agent;
  tool = d.tool;
  status = d.status;
  tags = get_or d.tags [];
}

abbrev pub of_checked : Checked → Result (Unit {0})
of_checked valid = ok tt
of_checked exhausted = fault exhausted_check
of_checked (invalid path defect) = fault (not_json path defect)

unfoldable pub check_content : Heap → Option Value → Result (Unit {0})
check_content h none = ok tt
check_content h (some v) = of_checked (encode_check h (key (text "content") ∷ []) v)

unfoldable pub check_sequence : Option Number → Result (Unit {0})
check_sequence none = ok tt
check_sequence (some n) = require (is_finite n) (not_json (key (text "sequence") ∷ []) non_finite)

-- `encode(prepared)`: of the event's properties only the content and the sequence number can be
-- no JSON.
unfoldable pub encode_draft : Heap → Draft → Result (Unit {0})
encode_draft h d = do check_content h d.content; check_sequence d.sequence

abbrev pub required : Fault
required = type_error (text "farfield: conversationId and kind are required")

-- The end of `prepareEvent`, behind the call of `beforeSend`.
unfoldable pub finish_event : Runtime → Draft → Heap → Result (WireEvent × Heap)
finish_event rt d h = do
  require (is_present d.conversation_id) required
  require (is_present d.kind) required
  encode_draft h d
  ok (wire_event rt d, h)

unfoldable pub prepare_event :
    Client → Option Scope → Runtime → Heap → Event → Result (WireEvent × Heap)
prepare_event client stored rt h event = do
  at ← occurred_at rt event.occurred_at
  (d, h') ←
      apply_hook client.before_send h (draft_of rt (active_scope client.defaults stored) event at)
  finish_event rt d h'
