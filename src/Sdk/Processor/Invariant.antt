-- ===== src/Sdk/Processor/Invariant.antt =====
-- The counters, the bound of the queue and the wake-up of the background processor,
-- sdk/typescript/src/processor.ts.
use farfield.Base.{
  ℕ, ◌+◌, ◌≤◌, ◌<◌, ◌≡◌, refl, true, false, ◌||◌, List, [], ◌∷◌, Option, none, some, concat, length,
  length-append, length-take, length-drop, take, drop, arith,
}
use farfield.Sdk.Types.{WireEvent}
use farfield.Sdk.Processor.{
  sent_group, reported_group, push, clear_timer, Processor, Options, created, Delivery, sending,
  reporting, delivered, Prepared, ready, withheld, failed_with, Sent, stored, rejected, Action,
  submits, timer_fires, resumes, flushes, flush_loops, shuts_down, new, admit, submit_prepared,
  timer_fired, resume, resume_delivery, drain_done, flush, drain, deliver_next, advance, shutdown,
  step, run, groups, is_empty, is_draining, schedule,
}
use farfield.Sdk.Processor.GroupLaws.{length-groups}

-- How many events are handed over and not settled.
abbrev pub in_flight : Option Delivery → ℕ
in_flight none = 0
in_flight (some (sending values rest)) = length values + length (concat rest)
in_flight (some (reporting values rest)) = length values + length (concat rest)
in_flight (some delivered) = 0

-- How many of those are counted as failed already, while the error observer runs.
abbrev pub reported : Option Delivery → ℕ
reported (some (reporting values rest)) = length values
reported _ = 0

pub record IsBalanced (p : Processor) : Type 0 where
  pub has_room : 1 ≤ p.max_queue_size
  pub has_batch : 1 ≤ p.max_batch_size
  pub bounded : length p.queue ≤ p.max_queue_size
  pub outstanding : p.stats.pending ≡ length p.queue + in_flight p.draining
  pub accounted :
      p.stats.enqueued + reported p.draining ≡ p.stats.committed + p.stats.failed + p.stats.pending

-- A queue that holds events is never left without a wake-up, until shutdown.
abbrev pub IsAwake : Processor → Type 0
IsAwake p = (is_empty p.queue || is_draining p.draining || p.timer || p.closed) ≡ true

in_flight-advance :
    (gs : List (List WireEvent)) → in_flight (some (advance gs)) ≡ length (concat gs)
unfolding advance
in_flight-advance [] = refl
in_flight-advance (values ∷ rest) = omega (arith, length-append values (concat rest))

reported-advance : (gs : List (List WireEvent)) → reported (some (advance gs)) ≡ 0
unfolding advance
reported-advance [] = refl
reported-advance (values ∷ rest) = refl

-- The batch leaves the queue and is in flight.
deliver_next-IsBalanced :
    (p : Processor) → p.draining ≡ none → IsBalanced p → IsBalanced (deliver_next p)
unfolding deliver_next
deliver_next-IsBalanced p idle v =
    let batch = take p.max_batch_size p.queue in
    let facts : (length (drop p.max_batch_size p.queue) + length (concat (groups batch))
        ≡ length p.queue) =
      omega (
        arith,
        length-groups batch,
        length-take p.max_batch_size p.queue,
        length-drop p.max_batch_size p.queue,
      ) in
    ground (arith, facts, in_flight-advance (groups batch), reported-advance (groups batch))

pub drain-IsBalanced : (p : Processor) → IsBalanced p → IsBalanced (drain p)
unfolding drain
drain-IsBalanced p v = ground (arith, deliver_next-IsBalanced p)

drain-IsAwake : (p : Processor) → IsAwake (drain p)
unfolding drain deliver_next
drain-IsAwake p = ground arith

admit-IsBalanced :
    (e : WireEvent) (p : Processor)
    → length p.queue < p.max_queue_size
    → IsBalanced p
    → IsBalanced (admit e p)
unfolding admit schedule clear_timer
admit-IsBalanced e p room v =
    ground (arith, length-append p.queue (e ∷ []), drain-IsBalanced (clear_timer (push e p)))

admit-IsAwake : (e : WireEvent) (p : Processor) → IsAwake (admit e p)
unfolding admit schedule clear_timer
admit-IsAwake e p = ground (arith, drain-IsAwake (clear_timer (push e p)))

submit_prepared-IsBalanced :
    (p : Processor) (prepared : Prepared) → IsBalanced p → IsBalanced (submit_prepared p prepared).0
unfolding submit_prepared
submit_prepared-IsBalanced p (failed_with _) v = v
submit_prepared-IsBalanced p withheld v = ground arith
submit_prepared-IsBalanced p (ready e) v = ground (arith, admit-IsBalanced e p)

submit_prepared-IsAwake :
    (p : Processor) (prepared : Prepared) → IsAwake p → IsAwake (submit_prepared p prepared).0
unfolding submit_prepared
submit_prepared-IsAwake p (failed_with _) v = v
submit_prepared-IsAwake p withheld v = v
submit_prepared-IsAwake p (ready e) v = ground (arith, admit-IsAwake e p)

resume_delivery-IsBalanced :
    (p : Processor) (sent : Sent) (d : Option Delivery)
    → p.draining ≡ d
    → IsBalanced p
    → IsBalanced (resume_delivery p sent d)
unfolding resume_delivery sent_group reported_group drain_done schedule
resume_delivery-IsBalanced p sent none e v = v
resume_delivery-IsBalanced p stored (some (sending values rest)) e v =
    ground (arith, in_flight-advance rest, reported-advance rest)
resume_delivery-IsBalanced p (rejected t) (some (sending values rest)) e v = ground arith
resume_delivery-IsBalanced p sent (some (reporting values rest)) e v =
    ground (arith, in_flight-advance rest, reported-advance rest)
resume_delivery-IsBalanced p sent (some delivered) e v = ground arith

pub resume-IsBalanced : (p : Processor) (sent : Sent) → IsBalanced p → IsBalanced (resume p sent)
unfolding resume
resume-IsBalanced p sent v = resume_delivery-IsBalanced p sent p.draining refl v

resume_delivery-IsAwake :
    (p : Processor) (sent : Sent) (d : Option Delivery)
    → p.draining ≡ d
    → IsAwake p
    → IsAwake (resume_delivery p sent d)
unfolding resume_delivery sent_group reported_group drain_done schedule
resume_delivery-IsAwake p sent none e v = v
resume_delivery-IsAwake p stored (some (sending values rest)) e v = ground arith
resume_delivery-IsAwake p (rejected t) (some (sending values rest)) e v = ground arith
resume_delivery-IsAwake p sent (some (reporting values rest)) e v = ground arith
resume_delivery-IsAwake p sent (some delivered) e v = ground arith

step-IsBalanced : (p : Processor) (a : Action) → IsBalanced p → IsBalanced (step p a)
unfolding step timer_fired flush shutdown clear_timer
step-IsBalanced p (submits prepared) v = submit_prepared-IsBalanced p prepared v
step-IsBalanced p timer_fires v = ground (arith, drain-IsBalanced (record p { timer = false }))
step-IsBalanced p (resumes sent) v = resume-IsBalanced p sent v
step-IsBalanced p flushes v = ground (arith, drain-IsBalanced (record p { timer = false }))
step-IsBalanced p flush_loops v = drain-IsBalanced p v
step-IsBalanced p shuts_down v =
    ground (arith, drain-IsBalanced (record p { timer = false; closed = true }))

step-IsAwake : (p : Processor) (a : Action) → IsAwake p → IsAwake (step p a)
unfolding step timer_fired flush shutdown resume clear_timer
step-IsAwake p (submits prepared) v = submit_prepared-IsAwake p prepared v
step-IsAwake p timer_fires v = ground (arith, drain-IsAwake (record p { timer = false }))
step-IsAwake p (resumes sent) v = resume_delivery-IsAwake p sent p.draining refl v
step-IsAwake p flushes v = drain-IsAwake (record p { timer = false })
step-IsAwake p flush_loops v = drain-IsAwake p
step-IsAwake p shuts_down v =
    ground (arith, drain-IsAwake (record p { timer = false; closed = true }))

run-IsBalanced : (p : Processor) (actions : List Action) → IsBalanced p → IsBalanced (run p actions)
unfolding run
run-IsBalanced p [] v = v
run-IsBalanced p (a ∷ more) v = run-IsBalanced (step p a) more (step-IsBalanced p a v)

run-IsAwake : (p : Processor) (actions : List Action) → IsAwake p → IsAwake (run p actions)
unfolding run
run-IsAwake p [] v = v
run-IsAwake p (a ∷ more) v = run-IsAwake (step p a) more (step-IsAwake p a v)

new-IsBalanced : (o : Options) (p : Processor) → new o ≡ created p → IsBalanced p
unfolding new
new-IsBalanced o p h = ground arith

new-IsAwake : (o : Options) (p : Processor) → new o ≡ created p → IsAwake p
unfolding new
new-IsAwake o p h = ground arith

-- A processor that was created, after any schedule of submissions, timers, answers, flushes and
-- shutdowns: its queue is within `maxQueueSize`; `pending` counts exactly the queue and what is
-- being delivered; and every event enqueued is committed, failed or pending, where the group whose
-- error is being reported counts as both of the last two.
pub run-new-IsBalanced :
    (o : Options) (p : Processor) (actions : List Action)
    → new o ≡ created p
    → IsBalanced (run p actions)
run-new-IsBalanced o p actions h = run-IsBalanced p actions (new-IsBalanced o p h)

-- In the same situation a queue that holds events has a delivery under way or a timer that will
-- start one, unless the processor was shut down.
pub run-new-IsAwake :
    (o : Options) (p : Processor) (actions : List Action)
    → new o ≡ created p
    → IsAwake (run p actions)
run-new-IsAwake o p actions h = run-IsAwake p actions (new-IsAwake o p h)
