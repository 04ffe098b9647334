-- ===== src/Sdk/Processor/Refinement.antt =====
-- The background processor seen from outside, sdk/typescript/src/processor.ts: a queue for each
-- conversation, from whose front groups of events are taken.
use farfield.Base.{
  ◌≡◌, ◌≢◌, refl, sym, ap, subst, ◌∙◌, true, false, List, [], ◌∷◌, ◌++◌, Option, none, some, Text,
  text_eq, text_eq_iff, All, All-map, keep-append, keep-same, keep-none, append-nil, arith, take,
}
use farfield.Sdk.Types.{WireEvent}
use farfield.Sdk.Processor.{
  Processor, Options, created, Delivery, sending, reporting, delivered, Prepared, ready, withheld,
  failed_with, Submitted, admitted, refused, thrown, Sent, stored, rejected, Action, submits,
  timer_fires, resumes, flushes, flush_loops, shuts_down, new, admit, submit_prepared, timer_fired,
  resume, resume_delivery, drain_done, flush, drain, deliver_next, advance, shutdown, step, run,
  schedule, clear_timer, push, sent_group, reported_group,
}
use farfield.Sdk.Processor.GroupLaws.{of_conversation, IsGroup, OfConversation, groups-IsGroup}
use farfield.Sdk.Processor.Order.{
  waiting, admitted_by, admitted_of, answered_by, head_group, step-Same, new-waiting,
}

-- What is seen of a step.
pub data Label : Type 0 where
  accepts : WireEvent → Label
  takes : Text → List WireEvent → Label
  silent : Label

abbrev pub Queues : Type 0
Queues = Text → List WireEvent

-- The contract of one step.
pub data Serves : Queues → Label → Queues → Type 0 where
  accepting :
      (q q' : Queues) (e : WireEvent)
      → ((c : Text) → q' c ≡ q c ++ of_conversation c (e ∷ []))
      → Serves q (accepts e) q'
  taking :
      (q q' : Queues) (id : Text) (values : List WireEvent)
      → values ≢ []
      → q id ≡ values ++ q' id
      → ((c : Text) → c ≢ id → q' c ≡ q c)
      → Serves q (takes id values) q'
  keeping : (q q' : Queues) → ((c : Text) → q' c ≡ q c) → Serves q silent q'

-- The contract of a run.
pub data Runs : Queues → List Label → Queues → Type 0 where
  stops : (q : Queues) → Runs q [] q
  goes :
      {q q' q'' : Queues} {l : Label} {ls : List Label}
      → Serves q l q'
      → Runs q' ls q''
      → Runs q (l ∷ ls) q''

abbrev pub queues : Processor → Queues
queues p c = of_conversation c (waiting p)

abbrev label_of : List WireEvent → List WireEvent → Label
label_of (e ∷ _) _ = accepts e
label_of [] (e ∷ values) = takes e.conversation_id (e ∷ values)
label_of [] [] = silent

abbrev label : Processor → Action → Label
label p a = label_of (admitted_by p a) (answered_by p a)

pub labels : Processor → List Action → List Label
labels p [] = []
labels p (a ∷ more) = label p a ∷ labels (step p a) more

-- The groups under way.
abbrev HasGroups : Option Delivery → Type 0
HasGroups (some (sending values rest)) = IsGroup values × All IsGroup rest
HasGroups (some (reporting values rest)) = All IsGroup rest
HasGroups _ = Unit

advance-HasGroups : (gs : List (List WireEvent)) → All IsGroup gs → HasGroups (some (advance gs))
unfolding advance
advance-HasGroups [] h = tt
advance-HasGroups (values ∷ rest) h = h

drain-HasGroups : (p : Processor) → HasGroups p.draining → HasGroups (drain p).draining
unfolding drain deliver_next
drain-HasGroups p h =
    ground (arith, h, advance-HasGroups _ (groups-IsGroup (take p.max_batch_size p.queue)))

module _ (id : Text) where
  own-of_conversation :
      (values : List WireEvent) → OfConversation id values → of_conversation id values ≡ values
  own-of_conversation values h = keep-same _ values (All-map _ _ own values h)
    where
      own : (e : WireEvent) → e.conversation_id ≡ id → text_eq e.conversation_id id ≡ true
      own e same = (text_eq_iff e.conversation_id id).1 same

  other-of_conversation :
      (c : Text) (values : List WireEvent)
      → c ≢ id
      → OfConversation id values
      → of_conversation c values ≡ []
  other-of_conversation c values n h = keep-none _ values (All-map _ _ other values h)
    where
      other : (e : WireEvent) → e.conversation_id ≡ id → text_eq e.conversation_id c ≡ false
      other e same = ground (arith, text_eq_iff e.conversation_id c)

-- The events of a conversation before and after a step, as `step-Same` says.
abbrev Balances : (List WireEvent) → (List WireEvent) → Processor → Processor → Type 0
Balances ads answered p q =
    (c : Text) → of_conversation c (answered ++ waiting q) ≡ of_conversation c (waiting p ++ ads)

accepts-Serves :
    (p q : Processor) (e : WireEvent)
    → Balances (e ∷ []) [] p q
    → Serves (queues p) (accepts e) (queues q)
accepts-Serves p q e h =
    accepting (queues p) (queues q) e
      (λ c. h c ∙ keep-append (λ x. text_eq x.conversation_id c) (waiting p) (e ∷ []))

silent-Serves : (p q : Processor) → Balances [] [] p q → Serves (queues p) silent (queues q)
silent-Serves p q h =
    keeping (queues p) (queues q) (λ c. h c ∙ ap (of_conversation c) (append-nil (waiting p)))

takes-Serves :
    (p q : Processor) (values : List WireEvent)
    → IsGroup values
    → Balances [] values p q
    → Serves (queues p) (label_of [] values) (queues q)
takes-Serves p q [] (n, _) h = absurd (n refl)
takes-Serves p q (e ∷ values) (n, (id, (same, others))) h =
    taking (queues p) (queues q) c (e ∷ values) n
      (split c ∙ ap (λ xs. xs ++ queues q c) (own-of_conversation c (e ∷ values) group))
      (λ d n.
        sym
          (split d ∙ ap (λ xs. xs ++ queues q d) (other-of_conversation c d (e ∷ values) n group)))
  where
    c : Text
    c = e.conversation_id

    group : OfConversation c (e ∷ values)
    group = (refl, All-map _ _ (λ x s. s ∙ sym same) values others)

    split : (d : Text) → queues p d ≡ of_conversation d (e ∷ values) ++ queues q d
    split d =
        ap (of_conversation d) (sym (append-nil (waiting p)))
        ∙ sym (h d)
        ∙ keep-append (λ x. text_eq x.conversation_id d) (e ∷ values) (waiting q)

admit-HasGroups :
    (e : WireEvent) (p : Processor) → HasGroups p.draining → HasGroups (admit e p).draining
unfolding admit schedule clear_timer
admit-HasGroups e p h = ground (arith, h, drain-HasGroups (clear_timer (push e p)))

submit-HasGroups :
    (p : Processor) (prepared : Prepared)
    → HasGroups p.draining
    → HasGroups (submit_prepared p prepared).0.draining
unfolding submit_prepared
submit-HasGroups p (failed_with _) h = h
submit-HasGroups p withheld h = h
submit-HasGroups p (ready e) h = ground (arith, h, admit-HasGroups e p)

resume-HasGroups :
    (p : Processor) (sent : Sent) (d : Option Delivery)
    → p.draining ≡ d
    → HasGroups d
    → HasGroups (resume_delivery p sent d).draining
unfolding resume_delivery sent_group reported_group drain_done schedule
resume-HasGroups p sent none e h = rw e tt
resume-HasGroups p stored (some (sending values rest)) e (_, h) = advance-HasGroups rest h
resume-HasGroups p (rejected t) (some (sending values rest)) e (_, h) = h
resume-HasGroups p sent (some (reporting values rest)) e h = advance-HasGroups rest h
resume-HasGroups p sent (some delivered) e h = ground arith

step-HasGroups : (p : Processor) (a : Action) → HasGroups p.draining → HasGroups (step p a).draining
unfolding step timer_fired flush shutdown resume clear_timer
step-HasGroups p (submits prepared) h = submit-HasGroups p prepared h
step-HasGroups p timer_fires h = ground (arith, h, drain-HasGroups (record p { timer = false }))
step-HasGroups p (resumes sent) h = resume-HasGroups p sent p.draining refl h
step-HasGroups p flushes h = drain-HasGroups (record p { timer = false }) h
step-HasGroups p flush_loops h = drain-HasGroups p h
step-HasGroups p shuts_down h =
    ground (arith, h, drain-HasGroups (record p { timer = false; closed = true }))

submit-Serves :
    (p q : Processor) (e : WireEvent) (r : Submitted)
    → Balances (admitted_of e r) [] p q
    → Serves (queues p) (label_of (admitted_of e r) []) (queues q)
submit-Serves p q e admitted h = accepts-Serves p q e h
submit-Serves p q e refused h = silent-Serves p q h
submit-Serves p q e (thrown message) h = silent-Serves p q h

resume-Serves :
    (p q : Processor) (d : Option Delivery)
    → HasGroups d
    → Balances [] (head_group d) p q
    → Serves (queues p) (label_of [] (head_group d)) (queues q)
resume-Serves p q none g h = silent-Serves p q h
resume-Serves p q (some (sending values rest)) (g, _) h = takes-Serves p q values g h
resume-Serves p q (some (reporting values rest)) g h = silent-Serves p q h
resume-Serves p q (some delivered) g h = silent-Serves p q h

step-Serves :
    (p : Processor) (a : Action)
    → HasGroups p.draining
    → Serves (queues p) (label p a) (queues (step p a))
step-Serves p (submits (ready e)) g =
    submit-Serves p (step p (submits (ready e))) e (submit_prepared p (ready e)).1
      (λ c. step-Same c p (submits (ready e)))
step-Serves p (submits withheld) g =
    silent-Serves p (step p (submits withheld)) (λ c. step-Same c p (submits withheld))
step-Serves p (submits (failed_with error)) g =
    silent-Serves p (step p (submits (failed_with error)))
      (λ c. step-Same c p (submits (failed_with error)))
step-Serves p timer_fires g = silent-Serves p (step p timer_fires) (λ c. step-Same c p timer_fires)
step-Serves p (resumes sent) g =
    resume-Serves p (step p (resumes sent)) p.draining g (λ c. step-Same c p (resumes sent))
step-Serves p flushes g = silent-Serves p (step p flushes) (λ c. step-Same c p flushes)
step-Serves p flush_loops g = silent-Serves p (step p flush_loops) (λ c. step-Same c p flush_loops)
step-Serves p shuts_down g = silent-Serves p (step p shuts_down) (λ c. step-Same c p shuts_down)

run-Runs :
    (p : Processor) (actions : List Action)
    → HasGroups p.draining
    → Runs (queues p) (labels p actions) (queues (run p actions))
unfolding labels run
run-Runs p [] g = stops (queues p)
run-Runs p (a ∷ more) g = goes (step-Serves p a g) (run-Runs (step p a) more (step-HasGroups p a g))

new-HasGroups : (o : Options) (p : Processor) → new o ≡ created p → HasGroups p.draining
unfolding new
new-HasGroups o p h = ground (arith, h)

-- A created processor, under any schedule, does what the contract allows, which knows neither
-- batches nor timers nor deliveries: it starts with an empty queue for each conversation; a step
-- that admits an event puts it at the end of its conversation's queue, a step that gets the answer
-- of a send takes the events of that send, at least one, off the front of the queue of one
-- conversation, and every other step leaves all queues as they are.
pub run-new-Runs :
    (o : Options) (p : Processor) (actions : List Action)
    → new o ≡ created p
    → Runs (λ c. []) (labels p actions) (queues (run p actions))
run-new-Runs o p actions h =
    subst (λ q. Runs q (labels p actions) (queues (run p actions)))
      (ap (λ w c. of_conversation c w) (new-waiting o p h))
      (run-Runs p actions (new-HasGroups o p h))
