-- ===== src/Sdk/Client/Prepare.antt =====
-- What `prepareEvent` guarantees, sdk/typescript/src/client.ts.
use farfield.Base.{
  ℕ, ◌≡◌, refl, ap, ◌∙◌, ◌⊎◌, inl, inr, true, [], ◌∷◌, Option, none, some, Text, text, get_or,
  or_else, is_truthy, is_present, arith,
}
use farfield.Base.Map.{get, get-spread}
use farfield.Sdk.Types.{Value, Number, Scope, Event, WireEvent}
use farfield.Sdk.Json.{Heap, key, Checked, valid, exhausted, invalid, is_finite}
use farfield.Sdk.Json.Trees.{is_tree, encode_check_iff}
use farfield.Sdk.Scope.{active_scope, merge_scope, tags_of, TagsStored, HasTags, of}
use farfield.Sdk.Client.{
  Result, ok, fault, ◌>>=◌, Draft, defined, Hook, Client, Runtime, fresh_id, occurred_at, draft_of,
  apply_hook, or_text, wire_event, of_checked, check_content, check_sequence, encode_draft,
  finish_event, prepare_event,
}

-- A chain returns only if its first call does.
bind-returns :
    {A B : Type 0} (first : Result A) (next : A → Result B) {end : B}
    → (first >>= next) ≡ ok end
    → (value : A) × (first ≡ ok value) × (next value ≡ ok end)
bind-returns (fault thrown) next h = cc
bind-returns (ok value) next h = (value, refl, h)

abbrev IsContent : Heap → Option Value → Type 0
IsContent h none = Unit
IsContent h (some v) = (depth : ℕ) × (is_tree depth h v ≡ true)

abbrev IsSequence : Option Number → Type 0
IsSequence none = Unit
IsSequence (some n) = is_finite n ≡ true

of_checked-ok : (c : Checked) → of_checked c ≡ ok tt → c ≡ valid
of_checked-ok valid e = refl
of_checked-ok exhausted e = cc
of_checked-ok (invalid path defect) e = cc

check_content-IsContent : (h : Heap) (c : Option Value) → check_content h c ≡ ok tt → IsContent h c
unfolding check_content
check_content-IsContent h none e = tt
check_content-IsContent h (some v) e =
    (encode_check_iff h (key (text "content") ∷ []) v).0 (of_checked-ok _ e)

check_sequence-IsSequence : (n : Option Number) → check_sequence n ≡ ok tt → IsSequence n
unfolding check_sequence
check_sequence-IsSequence none e = tt
check_sequence-IsSequence (some n) e = ground arith

-- A draft that passes all tests of `prepareEvent`.
record Passes (h : Heap) (d : Draft) : Type 0 where
  conversation : is_present d.conversation_id ≡ true
  kind : is_present d.kind ≡ true
  content : IsContent h d.content
  sequence : IsSequence d.sequence

encode_draft-ok :
    (h : Heap) (d : Draft)
    → encode_draft h d ≡ ok tt
    → (check_content h d.content ≡ ok tt) × (check_sequence d.sequence ≡ ok tt)
unfolding encode_draft
encode_draft-ok h d e = ground arith

finish_event-eq :
    (rt : Runtime) (d : Draft) (h : Heap) (e : WireEvent) (h' : Heap)
    → finish_event rt d h ≡ ok (e, h')
    → (is_present d.conversation_id ≡ true)
      × (is_present d.kind ≡ true)
      × (encode_draft h d ≡ ok tt)
      × (e ≡ wire_event rt d)
      × (h' ≡ h)
unfolding finish_event
finish_event-eq rt d h e h' r = ground arith

finish_event-ok :
    (rt : Runtime) (d : Draft) (h : Heap) (e : WireEvent) (h' : Heap)
    → finish_event rt d h ≡ ok (e, h')
    → Passes h d × (e ≡ wire_event rt d) × (h' ≡ h)
finish_event-ok rt d h e h' r =
    let (conversation, kind, encoded, sent, same) = finish_event-eq rt d h e h' r in
    let (content, sequence) = encode_draft-ok h d encoded in
    (
      record {
        conversation = conversation;
        kind = kind;
        content = check_content-IsContent h d.content content;
        sequence = check_sequence-IsSequence d.sequence sequence;
      },
      sent,
      same,
    )

-- The steps of a call that returns.
record Prepares (client : Client) (stored : Option Scope) (rt : Runtime) (h : Heap) (event : Event)
    (e : WireEvent) (h' : Heap) : Type 0 where
  at : Text
  timed : occurred_at rt event.occurred_at ≡ ok at
  draft : Draft
  hooked :
      apply_hook client.before_send h (draft_of rt (active_scope client.defaults stored) event at)
      ≡ ok (draft, h')
  passes : Passes h' draft
  sent : e ≡ wire_event rt draft

prepare_event-Prepares :
    (client : Client) (stored : Option Scope) (rt : Runtime) (h : Heap) (event : Event)
    (e : WireEvent) (h' : Heap)
    → prepare_event client stored rt h event ≡ ok (e, h')
    → Prepares client stored rt h event e h'
unfolding prepare_event
prepare_event-Prepares client stored rt h event e h' r =
    let (at, timed, r₁) = bind-returns (occurred_at rt event.occurred_at) _ r in
    let (dh, hooked, r₂) =
      bind-returns
        (apply_hook client.before_send h
          (draft_of rt (active_scope client.defaults stored) event at))
        _ r₁ in
    let (passes, sent, same) = finish_event-ok rt dh.0 dh.1 e h' r₂ in
    record {
      at = at;
      timed = timed;
      draft = dh.0;
      hooked = rw same hooked;
      passes = rw same passes;
      sent = sent;
    }

-- An event that the server can take.
pub record IsSendable (h : Heap) (e : WireEvent) : Type 0 where
  pub has_id : is_truthy e.id ≡ true
  pub has_conversation : is_truthy e.conversation_id ≡ true
  pub has_kind : is_truthy e.kind ≡ true
  pub has_time : is_truthy e.occurred_at ≡ true
  pub content : (e.content ≡ Value.undefined) ⊎ ((depth : ℕ) × (is_tree depth h e.content ≡ true))
  pub sequence : IsSequence e.sequence

or_text-present : (o : Option Text) (t : Text) → is_truthy t ≡ true → is_truthy (or_text o t) ≡ true
or_text-present none t h = h
or_text-present (some []) t h = h
or_text-present (some (c ∷ s)) t h = refl

get_or-present : (o : Option Text) → is_present o ≡ true → is_truthy (get_or o []) ≡ true
get_or-present none h = h
get_or-present (some s) h = h

fresh_id-present : (rt : Runtime) → is_truthy (fresh_id rt (text "rec_")) ≡ true
unfolding fresh_id text
fresh_id-present rt = refl

content-sent :
    (h : Heap) (c : Option Value)
    → IsContent h c
    → let v = get_or c Value.undefined in
      (v ≡ Value.undefined) ⊎ ((depth : ℕ) × (is_tree depth h v ≡ true))
content-sent h none c = inl refl
content-sent h (some v) c = inr c

wire_event-IsSendable :
    (rt : Runtime) (h : Heap) (d : Draft)
    → is_truthy rt.now ≡ true
    → Passes h d
    → IsSendable h (wire_event rt d)
unfolding wire_event
wire_event-IsSendable rt h d clock p = record {
  has_id = or_text-present d.id _ (fresh_id-present rt);
  has_conversation = get_or-present d.conversation_id p.conversation;
  has_kind = get_or-present d.kind p.kind;
  has_time = or_text-present d.occurred_at rt.now clock;
  content = content-sent h d.content p.content;
  sequence = p.sequence;
}

-- Whatever the scope, the event and the privacy hook: if `prepareEvent` returns an event, its id,
-- conversation, kind and time are not empty, its content is absent or a finite JSON tree, and its
-- sequence number is absent or finite. The clock is assumed to print a time that is not empty.
pub prepare_event-IsSendable :
    (client : Client) (stored : Option Scope) (rt : Runtime) (h : Heap) (event : Event)
    (e : WireEvent) (h' : Heap)
    → is_truthy rt.now ≡ true
    → prepare_event client stored rt h event ≡ ok (e, h')
    → IsSendable h' e
prepare_event-IsSendable client stored rt h event e h' clock r =
    let p = prepare_event-Prepares client stored rt h event e h' r in
    rw p.sent (wire_event-IsSendable rt h' p.draft clock p.passes)

apply_hook-some :
    (hook : Hook) (h : Heap) (d d' : Draft) (h' : Heap)
    → apply_hook (some hook) h d ≡ ok (d', h')
    → hook h d ≡ ok (some (d', h'))
unfolding apply_hook
apply_hook-some hook h d d' h' r = ground arith

-- With a privacy hook the event that is sent is made from what the hook returned, and from nothing
-- else of the captured event: ids and times that the hook left out are drawn anew.
pub prepare_event-hook :
    (client : Client) (stored : Option Scope) (rt : Runtime) (h : Heap) (event : Event)
    (e : WireEvent) (h' : Heap) (hook : Hook)
    → client.before_send ≡ some hook
    → prepare_event client stored rt h event ≡ ok (e, h')
    → (at : Text) × (returned : Draft) × (hook h
          (draft_of rt (active_scope client.defaults stored) event at)
        ≡ ok (some (returned, h')))
      × (e ≡ wire_event rt returned)
prepare_event-hook client stored rt h event e h' hook has r =
    let p = prepare_event-Prepares client stored rt h event e h' r in
    let scope = active_scope client.defaults stored in
    (
      p.at,
      p.draft,
      apply_hook-some hook h (draft_of rt scope event p.at) p.draft h' (rw has at p.hooked),
      p.sent,
    )

-- What the event of a client with no hook is made of: the event's own properties come first, then
-- the scope of the conversation, then the defaults of the client.
pub record IsScoped (client : Client) (stored : Option Scope) (rt : Runtime) (event : Event)
    (e : WireEvent) : Type 0 where
  pub conversation :
      some e.conversation_id
      ≡ or_else event.conversation_id
          (or_else (of (λ s. s.conversation_id) stored) client.defaults.conversation_id)
  pub trace :
      e.trace_id
      ≡ or_else event.trace_id (or_else (of (λ s. s.trace_id) stored) client.defaults.trace_id)
  pub span :
      e.span_id
      ≡ or_else event.span_id (or_else (of (λ s. s.span_id) stored) client.defaults.span_id)
  pub parent :
      e.parent_id
      ≡ or_else event.parent_id (or_else (of (λ s. s.parent_id) stored) client.defaults.parent_id)
  pub agents :
      e.agent ≡ or_else event.agent (or_else (of (λ s. s.agent) stored) client.defaults.agent)
  pub tag :
      (k : Text)
      → get k e.tags
        ≡ or_else
            (get k (tags_of (some event.scope)))
            (or_else (get k (tags_of stored)) (get k (tags_of (some client.defaults))))
  pub id : (c : ℕ) (s : Text) → event.id ≡ some (c ∷ s) → e.id ≡ c ∷ s
  pub kind : e.kind ≡ event.kind
  pub content : e.content ≡ event.content
  pub sequence : e.sequence ≡ event.sequence
  pub tool : e.tool ≡ event.tool
  pub status : e.status ≡ event.status
  pub time :
      (at : Text) × (occurred_at rt event.occurred_at ≡ ok at)
      × (is_truthy at ≡ true → e.occurred_at ≡ at)

same_content : (v : Value) → get_or (defined v) Value.undefined ≡ v
same_content v = ground arith

or_text-truthy : (at t : Text) → is_truthy at ≡ true → or_text (some at) t ≡ at
or_text-truthy [] t h = cc
or_text-truthy (c ∷ s) t h = refl

some-get_or : (o : Option Text) → is_present o ≡ true → some (get_or o []) ≡ o
some-get_or none h = cc
some-get_or (some s) h = refl

wire_event-IsScoped :
    (client : Client) (stored : Option Scope) (rt : Runtime) (event : Event) (at : Text)
    → occurred_at rt event.occurred_at ≡ ok at
    → HasTags event.scope
    → TagsStored stored
    → let d = draft_of rt (active_scope client.defaults stored) event at in
      is_present d.conversation_id ≡ true → IsScoped client stored rt event (wire_event rt d)
unfolding wire_event draft_of active_scope merge_scope
wire_event-IsScoped client stored rt event at timed dt ds has = record {
  conversation = some-get_or _ has;
  trace = refl;
  span = refl;
  parent = refl;
  agents = refl;
  tag = λ k.
      get-spread k _ (tags_of (some event.scope)) dt
      ∙ ap (or_else (get k (tags_of (some event.scope))))
          (get-spread k (tags_of (some client.defaults)) (tags_of stored) ds);
  id = λ c s e. rw (e, or_text) refl;
  kind = refl;
  content = same_content event.content;
  sequence = refl;
  tool = refl;
  status = refl;
  time = (at, timed, or_text-truthy at rt.now);
}

apply_hook-none : (h : Heap) (d d' : Draft) (h' : Heap) → apply_hook none h d ≡ ok (d', h') → d' ≡ d
unfolding apply_hook
apply_hook-none h d d' h' r = ground arith

-- Without a privacy hook the event that `prepareEvent` returns has the conversation, the trace,
-- span and parent ids, the agent and every tag of the event, else of the scope, else of the
-- defaults; it keeps the event's kind, content, sequence number, tool and status, its id where
-- that is not empty, and its time as the client reads it, where that is not printed empty.
pub prepare_event-IsScoped :
    (client : Client) (stored : Option Scope) (rt : Runtime) (h : Heap) (event : Event)
    (e : WireEvent) (h' : Heap)
    → client.before_send ≡ none
    → HasTags event.scope
    → TagsStored stored
    → prepare_event client stored rt h event ≡ ok (e, h')
    → IsScoped client stored rt event e
prepare_event-IsScoped client stored rt h event e h' no_hook dt ds r =
    let p = prepare_event-Prepares client stored rt h event e h' r in
    let d = draft_of rt (active_scope client.defaults stored) event p.at in
    let same : p.draft ≡ d = apply_hook-none h d p.draft h' (rw no_hook at p.hooked) in
    rw (p.sent, same)
      (wire_event-IsScoped client stored rt event p.at p.timed dt ds
        (rw same at p.passes.conversation))
