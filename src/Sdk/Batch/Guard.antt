-- ===== src/Sdk/Batch/Guard.antt =====
-- What `captureBatch` and `capturePreparedBatch` send, sdk/typescript/src/client.ts.
use farfield.Base.{
  ◌≡◌, ◌≢◌, refl, subst, ◌↔◌, ◌⊎◌, inl, inr, true, false, List, [], ◌∷◌, ◌++◌, Option, none, some,
  Text, text_eq, text_eq_iff, text_eq_refl, get_or, is_truthy, any, All, All-append, arith,
  Bool-cases, append-ne-nil, ◌∙◌, ap, text, sym, append-nil, append_assoc,
}
use farfield.Sdk.Types.{Scope, Event, WireEvent}
use farfield.Sdk.Json.{Heap}
use farfield.Sdk.Client.{
  Result, ok, fault, dropped_event, ◌>>◌, require, Client, Runtime, prepare_event, fresh_id,
}
use farfield.Sdk.Client.Prepare.{prepare_event-IsSendable}
use farfield.Sdk.Batch.{
  Request, segment, mixed_batch, differs, send_segment, capture_prepared_batch, prepare_batch,
  some_event, capture_batch, all_dropped,
}

-- A batch of one conversation, which is not empty.
abbrev pub IsOneConversation : Text → List WireEvent → Type 0
IsOneConversation c events =
    (is_truthy c ≡ true) × (events ≢ []) × All (λ e. e.conversation_id ≡ c) events

All-not_any :
    (c : Text) (events : List WireEvent)
    → any (differs c) events ≡ false
    → All (λ e. e.conversation_id ≡ c) events
All-not_any c [] h = tt
All-not_any c (e ∷ events) h =
    (ground (arith, text_eq_iff e.conversation_id c), All-not_any c events (ground arith))

not_any-All :
    (c : Text) (events : List WireEvent)
    → All (λ e. e.conversation_id ≡ c) events
    → any (differs c) events ≡ false
not_any-All c [] h = refl
not_any-All c (e ∷ events) (h, hs) =
    ground (arith, text_eq_iff e.conversation_id c, not_any-All c events hs)

-- A request for a segment that carries the events.
abbrev pub whole_request : Runtime → Option Text → List WireEvent → Request
whole_request rt segment_id events = record {
  method = text "POST";
  path = text "/v1/history/segments";
  body = segment (get_or segment_id (fresh_id rt (text "seg_"))) events;
}

send_segment-whole :
    (rt : Runtime) (segment_id : Option Text) (events : List WireEvent)
    → send_segment rt segment_id events ≡ whole_request rt segment_id events
unfolding send_segment
send_segment-whole rt segment_id events = refl

-- A batch of one conversation passes the test.
pub capture_prepared_batch-accepts :
    (rt : Runtime) (segment_id : Option Text) (c : Text) (events : List WireEvent)
    → IsOneConversation c events
    → capture_prepared_batch rt segment_id events ≡ ok (send_segment rt segment_id events)
unfolding capture_prepared_batch
capture_prepared_batch-accepts rt segment_id c [] (_, n, _) = absurd (n refl)
capture_prepared_batch-accepts rt segment_id c (e ∷ events) (t, _, (h, hs)) =
    let t' : is_truthy e.conversation_id ≡ true = rw h t in
    let hs' : All (λ x. x.conversation_id ≡ e.conversation_id) events = rw h hs in
    rw (t', text_eq_refl e.conversation_id, not_any-All e.conversation_id events hs') refl

capture_prepared_batch-ok :
    (rt : Runtime) (segment_id : Option Text) (events : List WireEvent) (r : Request)
    → capture_prepared_batch rt segment_id events ≡ ok r
    → (r ≡ send_segment rt segment_id events) × ((c : Text) × IsOneConversation c events)
unfolding capture_prepared_batch
capture_prepared_batch-ok rt segment_id [] r h = cc
capture_prepared_batch-ok rt segment_id (e ∷ events) r h =
    let c = e.conversation_id in
    (
      ground arith,
      (c, (ground arith, (λ p. cc), (refl, All-not_any c events (ground (arith, text_eq_refl c))))),
    )

-- `capturePreparedBatch` sends a batch exactly if it is not empty and all its events have one
-- conversation, whose id is not empty; then the request carries all of them.
pub capture_prepared_batch_iff :
    (rt : Runtime) (segment_id : Option Text) (events : List WireEvent)
    → (capture_prepared_batch rt segment_id events ≡ ok (whole_request rt segment_id events))
      ↔ ((c : Text) × IsOneConversation c events)
capture_prepared_batch_iff rt segment_id events = (
  λ h. (capture_prepared_batch-ok rt segment_id events _ h).1,
  (λ p.
      capture_prepared_batch-accepts rt segment_id p.0 events p.1
      ∙ ap ok (send_segment-whole rt segment_id events)),
)

-- What the loop of `captureBatch` keeps true.
abbrev IsFilling : Option Text → List WireEvent → Type 0
IsFilling none events = events ≡ []
IsFilling (some c) events = IsOneConversation c events

IsFilling-push :
    (conversation : Option Text) (events : List WireEvent) (e : WireEvent)
    → IsFilling conversation events
    → is_truthy e.conversation_id ≡ true
    → e.conversation_id ≡ get_or conversation e.conversation_id
    → IsFilling (some (get_or conversation e.conversation_id)) (events ++ e ∷ [])
IsFilling-push none events e f t same = rw f (t, (λ p. cc), (refl, tt))
IsFilling-push (some c) events e (t', n, h) t same =
    (t', append-ne-nil events e [], All-append _ events (e ∷ []) h (same, tt))

abbrev HasClock : List (Event × Runtime) → Type 0
HasClock events = All (λ x. is_truthy (x.1).now ≡ true) events

module _ (client : Client) (stored : Option Scope) where
  -- Each event in turn is dropped by the privacy hook or prepared, in the heap that those before it
  -- left, and the ones that are prepared are kept in their order.
  pub data IsPrepared : List (Event × Runtime) → Heap → List WireEvent → Heap → Type 0 where
    done : (h : Heap) → IsPrepared [] h [] h
    drops :
        (event : Event) (rt : Runtime) (more : List (Event × Runtime)) (h : Heap) (message : Text)
        (out : List WireEvent) (h' : Heap)
        → prepare_event client stored rt h event ≡ fault (dropped_event message)
        → IsPrepared more h out h'
        → IsPrepared ((event, rt) ∷ more) h out h'
    keeps :
        (event : Event) (rt : Runtime) (more : List (Event × Runtime)) (h : Heap)
        (value : WireEvent) (h₁ : Heap) (out : List WireEvent) (h' : Heap)
        → prepare_event client stored rt h event ≡ ok (value, h₁)
        → IsPrepared more h₁ out h'
        → IsPrepared ((event, rt) ∷ more) h (value ∷ out) h'

  -- What one round of the loop has done when the loop gets through.
  Round :
      Event
      → Runtime
      → List (Event × Runtime)
      → Heap
      → Option Text
      → List WireEvent
      → List WireEvent
      → Heap
      → Type 0
  Round event rt more h conversation prepared out h' =
      ((m : Text) × (prepare_event client stored rt h event ≡ fault (dropped_event m))
        × (prepare_batch client stored more h conversation prepared ≡ ok (out, h')))
      ⊎ ((value : WireEvent) × (h₁ : Heap) × (prepare_event client stored rt h event
            ≡ ok (value, h₁))
          × (value.conversation_id ≡ get_or conversation value.conversation_id)
          × (prepare_batch client stored more h₁ (some (get_or conversation value.conversation_id))
                (prepared ++ value ∷ [])
              ≡ ok (out, h')))

  prepare_batch-Round :
      (event : Event) (rt : Runtime) (more : List (Event × Runtime)) (h : Heap)
      (conversation : Option Text) (prepared out : List WireEvent) (h' : Heap)
      → prepare_batch client stored ((event, rt) ∷ more) h conversation prepared ≡ ok (out, h')
      → Round event rt more h conversation prepared out h'
  unfolding prepare_batch Round
  prepare_batch-Round event rt more h conversation prepared out h' r =
      go (prepare_event client stored rt h event) refl
    where
      go :
          (p : Result (WireEvent × Heap))
          → prepare_event client stored rt h event ≡ p
          → Round event rt more h conversation prepared out h'
      go (fault (dropped_event m)) e = inl (m, e, rw (e, prepare_batch) at r)
      go (ok (value, h₁)) e =
          let r' = rw (e, prepare_batch) at r in
          let first = get_or conversation value.conversation_id in
          elim (Bool-cases (text_eq value.conversation_id first)) [
            | inl same ↦ inr (value, h₁, e, (text_eq_iff _ _).0 same, rw same at r')
            | inr other ↦ let bad : fault mixed_batch ≡ ok (out, h') = rw other at r' in cc
          ]
      go (fault other) e = let bad : fault other ≡ ok (out, h') = rw (e, prepare_batch) at r in cc

  prepare_batch-IsFilling :
      (events : List (Event × Runtime)) (h : Heap) (conversation : Option Text)
      (prepared out : List WireEvent) (h' : Heap)
      → HasClock events
      → IsFilling conversation prepared
      → prepare_batch client stored events h conversation prepared ≡ ok (out, h')
      → (c : Option Text) × IsFilling c out
  unfolding prepare_batch Round
  prepare_batch-IsFilling [] h conversation prepared out h' clock f r =
      (conversation, subst (IsFilling conversation) (ground arith) f)
  prepare_batch-IsFilling ((event, rt) ∷ more) h conversation prepared out h' (now, clock) f r =
      elim (prepare_batch-Round event rt more h conversation prepared out h' r) [
        | inl (m, e, rest) ↦
            prepare_batch-IsFilling more h conversation prepared out h' clock f rest
        | inr (value, h₁, e, same, rest) ↦
            prepare_batch-IsFilling more h₁ _ _ out h' clock
              (IsFilling-push conversation prepared value f
                (prepare_event-IsSendable client stored rt h event value h₁ now e).has_conversation
                same)
              rest
      ]

  prepare_batch-IsPrepared :
      (events : List (Event × Runtime)) (h : Heap) (conversation : Option Text)
      (prepared out : List WireEvent) (h' : Heap)
      → prepare_batch client stored events h conversation prepared ≡ ok (out, h')
      → (new : List WireEvent) × (out ≡ prepared ++ new) × IsPrepared events h new h'
  unfolding prepare_batch Round
  prepare_batch-IsPrepared [] h conversation prepared out h' r =
      let same : out ≡ prepared = ground arith in
      (
        [],
        same ∙ sym (append-nil prepared),
        subst (λ k. IsPrepared [] h [] k) (ground arith) (done h),
      )
  prepare_batch-IsPrepared ((event, rt) ∷ more) h conversation prepared out h' r =
      elim (prepare_batch-Round event rt more h conversation prepared out h' r) [
        | inl (m, e, rest) ↦
            (let (new, o, p) = prepare_batch-IsPrepared more h conversation prepared out h' rest in
              (new, o, drops event rt more h m new h' e p))
        | inr (value, h₁, e, same, rest) ↦
            (let (new, o, p) = prepare_batch-IsPrepared more h₁ _ _ out h' rest in
              (
                value ∷ new,
                o ∙ append_assoc prepared (value ∷ []) new,
                keeps event rt more h value h₁ new h' e p,
              ))
      ]

IsFilling-cases :
    (c : Option Text) (events : List WireEvent)
    → IsFilling c events
    → (events ≡ []) ⊎ ((id : Text) × IsOneConversation id events)
IsFilling-cases none events f = inl f
IsFilling-cases (some c) events f = inr (c, f)

-- What `captureBatch` does with the events that it could prepare.
abbrev pub SentWhole : Result Request → Runtime → Option Text → List WireEvent → Type 0
SentWhole r rt segment_id out =
    ((out ≡ []) × (r ≡ fault all_dropped))
    ⊎ (((c : Text) × IsOneConversation c out) × (r ≡ ok (whole_request rt segment_id out)))

-- If the loop of `captureBatch` gets through, it kept every event that the privacy hook did not drop,
-- as `prepareEvent` returned it and in order. Then either none is kept and `DroppedEvent` is thrown,
-- or all that are kept belong to one conversation and are sent in the body of one request: the test
-- of `capturePreparedBatch` cannot fail behind it. The clock is assumed to print a time
-- that is not empty.
pub capture_batch-SentWhole :
    (client : Client) (stored : Option Scope) (first : Event × Runtime)
    (events : List (Event × Runtime)) (h : Heap) (rt : Runtime) (segment_id : Option Text)
    (out : List WireEvent) (h' : Heap)
    → HasClock (first ∷ events)
    → prepare_batch client stored (first ∷ events) h none [] ≡ ok (out, h')
    → IsPrepared client stored (first ∷ events) h out h'
      × SentWhole (capture_batch client stored (first ∷ events) h rt segment_id) rt segment_id out
unfolding capture_batch
capture_batch-SentWhole client stored first events h rt segment_id out h' clock r =
    let (c, f) =
      prepare_batch-IsFilling client stored (first ∷ events) h none [] out h' clock refl r in
    let (new, o, p) = prepare_batch-IsPrepared client stored (first ∷ events) h none [] out h' r in
    (rw o p, rw r (go out (IsFilling-cases c out f)))
  where
    send : List WireEvent → Result Request
    send out' = do
      require (some_event client stored out') all_dropped
      capture_prepared_batch rt segment_id out'

    go :
        (out' : List WireEvent)
        → (out' ≡ []) ⊎ ((id : Text) × IsOneConversation id out')
        → SentWhole (send out') rt segment_id out'
    go [] _ = inl (refl, refl)
    go (e ∷ es) (inl empty) = absurd (append-ne-nil [] e es empty)
    go (e ∷ es) (inr (id, one)) = inr (
      (id, one),
      capture_prepared_batch-accepts rt segment_id id (e ∷ es) one
          ∙ ap ok (send_segment-whole rt segment_id (e ∷ es)),
    )
