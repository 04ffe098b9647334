-- ===== src/Sdk/Processor/Order.antt =====
-- No event that the background processor admits is lost, sent twice or overtaken within its
-- conversation, sdk/typescript/src/processor.ts.
use farfield.Base.{
  ◌≡◌, refl, sym, ap, ◌∙◌, true, false, List, [], ◌∷◌, ◌++◌, Option, none, some, Text, text_eq,
  concat, keep-append, append_assoc, append-nil, take-append-drop, take, drop, arith,
}
use farfield.Sdk.Types.{WireEvent}
use farfield.Sdk.Processor.{
  Processor, Options, created, Delivery, sending, reporting, delivered, Prepared, ready, withheld,
  failed_with, Submitted, admitted, Sent, stored, rejected, Action, submits, timer_fires, resumes,
  flushes, flush_loops, shuts_down, new, admit, submit_prepared, timer_fired, resume,
  resume_delivery, drain_done, flush, drain, deliver_next, advance, shutdown, step, run, groups,
  schedule, clear_timer, push, sent_group, reported_group,
}
use farfield.Sdk.Processor.GroupLaws.{of_conversation, of_conversation-groups}

-- The events whose send has not been answered, in the order in which they are sent.
abbrev pub unanswered : Option Delivery → List WireEvent
unanswered none = []
unanswered (some (sending values rest)) = values ++ concat rest
unanswered (some (reporting values rest)) = concat rest
unanswered (some delivered) = []

abbrev pub waiting : Processor → List WireEvent
waiting p = unanswered p.draining ++ p.queue

abbrev pub admitted_of : WireEvent → Submitted → List WireEvent
admitted_of e admitted = e ∷ []
admitted_of e _ = []

-- What a step admits to the queue.
abbrev pub admitted_by : Processor → Action → List WireEvent
admitted_by p (submits (ready e)) = admitted_of e (submit_prepared p (ready e)).1
admitted_by p _ = []

abbrev pub head_group : Option Delivery → List WireEvent
head_group (some (sending values rest)) = values
head_group _ = []

-- The group about which a step brings the answer.
abbrev pub answered_by : Processor → Action → List WireEvent
answered_by p (resumes sent) = head_group p.draining
answered_by p _ = []

pub admissions : Processor → List Action → List WireEvent
admissions p [] = []
admissions p (a ∷ more) = admitted_by p a ++ admissions (step p a) more

pub answers : Processor → List Action → List WireEvent
answers p [] = []
answers p (a ∷ more) = answered_by p a ++ answers (step p a) more

module _ (c : Text) where
  -- The same events of the conversation `c`, in the same order.
  abbrev Same : List WireEvent → List WireEvent → Type 0
  Same xs ys = of_conversation c xs ≡ of_conversation c ys

  of-append :
      (xs ys : List WireEvent)
      → of_conversation c (xs ++ ys) ≡ of_conversation c xs ++ of_conversation c ys
  of-append xs ys = keep-append (λ e. text_eq e.conversation_id c) xs ys

  Same-append : (xs xs' ys : List WireEvent) → Same xs xs' → Same (xs ++ ys) (xs' ++ ys)
  Same-append xs xs' ys h = rw (of-append xs ys, of-append xs' ys, h)

  Same-prepend : (xs ys ys' : List WireEvent) → Same ys ys' → Same (xs ++ ys) (xs ++ ys')
  Same-prepend xs ys ys' h = rw (of-append xs ys, of-append xs ys', h)

  unanswered-advance : (gs : List (List WireEvent)) → unanswered (some (advance gs)) ≡ concat gs
  unfolding advance
  unanswered-advance [] = refl
  unanswered-advance (values ∷ rest) = refl

  deliver_next-Same : (p : Processor) → Same (waiting (deliver_next p)) p.queue
  unfolding deliver_next
  deliver_next-Same p =
      let batch = take p.max_batch_size p.queue in
      let rest = drop p.max_batch_size p.queue in
      rw unanswered-advance (
        Same-append (concat (groups batch)) batch rest (of_conversation-groups c batch)
        ∙ ap (of_conversation c) (take-append-drop p.max_batch_size p.queue))

  drain-Same : (p : Processor) → Same (waiting (drain p)) (waiting p)
  unfolding drain
  drain-Same p = ground (arith, deliver_next-Same p)

  admit-Same : (e : WireEvent) (p : Processor) → Same (waiting (admit e p)) (waiting p ++ e ∷ [])
  unfolding admit schedule clear_timer
  admit-Same e p = ground (
    arith,
    drain-Same (clear_timer (push e p)),
    append_assoc (unanswered p.draining) p.queue (e ∷ []),
  )

  submit-Same :
      (p : Processor) (prepared : Prepared)
      → Same
          (waiting (submit_prepared p prepared).0)
          (waiting p ++ admitted_by p (submits prepared))
  unfolding submit_prepared
  submit-Same p (failed_with _) = sym (ap (of_conversation c) (append-nil _))
  submit-Same p withheld = sym (ap (of_conversation c) (append-nil _))
  submit-Same p (ready e) = ground (arith, admit-Same e p, append-nil (waiting p))

  resume-Same :
      (p : Processor) (sent : Sent) (d : Option Delivery)
      → p.draining ≡ d
      → head_group d ++ waiting (resume_delivery p sent d) ≡ unanswered d ++ p.queue
  unfolding resume_delivery sent_group reported_group drain_done schedule
  resume-Same p sent none e = ground arith
  resume-Same p stored (some (sending values rest)) e =
      ground (arith, unanswered-advance rest, append_assoc values (concat rest) p.queue)
  resume-Same p (rejected t) (some (sending values rest)) e =
      ground (arith, append_assoc values (concat rest) p.queue)
  resume-Same p sent (some (reporting values rest)) e = ground (arith, unanswered-advance rest)
  resume-Same p sent (some delivered) e = ground arith

  pub step-Same :
      (p : Processor) (a : Action)
      → Same (answered_by p a ++ waiting (step p a)) (waiting p ++ admitted_by p a)
  unfolding step timer_fired flush shutdown resume clear_timer
  step-Same p (submits prepared) = submit-Same p prepared
  step-Same p timer_fires =
      ground (arith, drain-Same (record p { timer = false }), append-nil (waiting p))
  step-Same p (resumes sent) =
      ap (of_conversation c) (resume-Same p sent p.draining refl ∙ sym (append-nil (waiting p)))
  step-Same p flushes =
      ground (arith, drain-Same (record p { timer = false }), append-nil (waiting p))
  step-Same p flush_loops = ground (arith, drain-Same p, append-nil (waiting p))
  step-Same p shuts_down =
      ground (arith, drain-Same (record p { timer = false; closed = true }), append-nil (waiting p))

  run-Same :
      (p : Processor) (actions : List Action)
      → Same (answers p actions ++ waiting (run p actions)) (waiting p ++ admissions p actions)
  unfolding answers admissions run
  run-Same p [] = sym (ap (of_conversation c) (append-nil (waiting p)))
  run-Same p (a ∷ more) =
      let q = step p a in
      rw (append_assoc (answered_by p a) (answers q more) (waiting (run q more))) (
        Same-prepend (answered_by p a) _ _ (run-Same q more)
        ∙ ap (of_conversation c)
            (sym (append_assoc (answered_by p a) (waiting q) (admissions q more)))
        ∙ Same-append (answered_by p a ++ waiting q) (waiting p ++ admitted_by p a) _
            (step-Same p a)
        ∙ ap (of_conversation c) (append_assoc (waiting p) (admitted_by p a) (admissions q more)))

pub new-waiting : (o : Options) (p : Processor) → new o ≡ created p → waiting p ≡ []
unfolding new
new-waiting o p h = ground (arith, h)

-- For every conversation and any schedule of a created processor: the events whose send was
-- answered, then those still being delivered, then those still queued, are exactly the events
-- that `submit` admitted, each once and in the order of admission.
pub run-new-Same :
    (o : Options) (p : Processor) (actions : List Action) (c : Text)
    → new o ≡ created p
    → of_conversation c (answers p actions ++ waiting (run p actions))
      ≡ of_conversation c (admissions p actions)
run-new-Same o p actions c h =
    run-Same c p actions
    ∙ ap (of_conversation c) (ap (λ w. w ++ admissions p actions) (new-waiting o p h))
