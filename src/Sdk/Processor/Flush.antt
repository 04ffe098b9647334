-- ===== src/Sdk/Processor/Flush.antt =====
-- `flush` of the background processor ends, sdk/typescript/src/processor.ts.
use farfield.Base.{
  ℕ, zero, suc, ◌+◌, ◌*◌, ◌≤◌, ◌<◌, ◌≡◌, refl, inl, inr, ◌↔◌, true, false, List, [], ◌∷◌, Option,
  none, some, length, length-take, length-drop, take, arith, if◌then◌else◌, Bool-cases,
}
use farfield.Sdk.Types.{WireEvent}
use farfield.Sdk.Processor.{
  Processor, Options, created, new, Delivery, sending, reporting, delivered, Sent, stored, rejected,
  Action, resume, resume_delivery, drain_done, drain, flush, clear_timer, deliver_next, advance,
  groups, schedule, sent_group, reported_group, is_busy, is_draining, flush_result, run,
}
use farfield.Sdk.Processor.GroupLaws.{count-groups}
use farfield.Sdk.Processor.Invariant.{
  IsBalanced, drain-IsBalanced, resume-IsBalanced, run-new-IsBalanced,
}

-- A round: the delivery under way gets its next answer, or the loop of `flush` starts another.
pub flush_round : Sent → Processor → Processor
flush_round sent p = if is_draining p.draining then resume p sent else drain p

-- The loop of `flush`, with the answers of the server by the rounds that are left, while nothing
-- else runs; `none` means that the rounds ran out.
unfoldable pub flush_loop : ℕ → (ℕ → Sent) → Processor → Option Processor
flush_loop zero answer p = none
flush_loop (suc rounds) answer p =
    let next = flush_loop rounds answer (flush_round (answer rounds) p) in
    if is_busy p then next else some p

unfoldable pub delivery_cost : Option Delivery → ℕ
delivery_cost none = 0
delivery_cost (some (sending values rest)) = 3 + 2 * length rest
delivery_cost (some (reporting values rest)) = 2 + 2 * length rest
delivery_cost (some delivered) = 1

-- A bound for the rounds that are left.
unfoldable pub cost : Processor → ℕ
cost p = 4 * length p.queue + delivery_cost p.draining

cost-advance : (gs : List (List WireEvent)) → delivery_cost (some (advance gs)) ≡ 1 + 2 * length gs
unfolding delivery_cost advance
cost-advance [] = refl
cost-advance (values ∷ rest) = omega arith

deliver_next-cost :
    (p : Processor)
    → 1 ≤ p.max_batch_size
    → 1 ≤ length p.queue
    → cost (deliver_next p) < 4 * length p.queue
unfolding cost deliver_next delivery_cost
deliver_next-cost p b q = omega (
  arith,
  cost-advance (groups (take p.max_batch_size p.queue)),
  count-groups (take p.max_batch_size p.queue),
  length-take p.max_batch_size p.queue,
  length-drop p.max_batch_size p.queue,
)

resume_delivery-cost :
    (p : Processor) (sent : Sent) (d : Delivery)
    → p.draining ≡ some d
    → cost (resume_delivery p sent (some d)) < 4 * length p.queue + delivery_cost (some d)
unfolding cost resume_delivery sent_group reported_group drain_done schedule delivery_cost
resume_delivery-cost p stored (sending values rest) e = ground (arith, cost-advance rest)
resume_delivery-cost p (rejected t) (sending values rest) e = ground arith
resume_delivery-cost p sent (reporting values rest) e = ground (arith, cost-advance rest)
resume_delivery-cost p sent delivered e = ground arith

flush_round-cost :
    (p : Processor) (sent : Sent)
    → 1 ≤ p.max_batch_size
    → is_busy p ≡ true
    → cost (flush_round sent p) < cost p
unfolding flush_round cost resume drain
flush_round-cost p sent b busy = go p.draining refl p.queue refl
  where
    go :
        (d : Option Delivery)
        → p.draining ≡ d
        → (events : List WireEvent) → p.queue ≡ events
        → cost (flush_round sent p) < cost p
    go (some d) e events q = ground (arith, resume_delivery-cost p sent d e)
    go none e [] q = ground arith
    go none e (x ∷ xs) q = ground (arith, deliver_next-cost p b)

flush_round-IsBalanced :
    (p : Processor) (sent : Sent) → IsBalanced p → IsBalanced (flush_round sent p)
unfolding flush_round
flush_round-IsBalanced p sent v = ground (arith, drain-IsBalanced p, resume-IsBalanced p sent)

-- What the end of `flush` finds.
pub record IsFlushed (q : Processor) : Type 0 where
  pub no_queue : q.queue ≡ []
  pub no_delivery : q.draining ≡ none
  pub none_pending : q.stats.pending ≡ 0
  pub all_settled : q.stats.enqueued ≡ q.stats.committed + q.stats.failed
  pub result : (flush_result q ≡ true) ↔ (q.stats.committed ≡ q.stats.enqueued)

idle-IsFlushed : (q : Processor) → IsBalanced q → is_busy q ≡ false → IsFlushed q
idle-IsFlushed q v h = ground arith

flush_loop-ends :
    (rounds : ℕ) (answer : ℕ → Sent) (p : Processor)
    → cost p < rounds
    → IsBalanced p
    → (q : Processor) × (flush_loop rounds answer p ≡ some q) × IsFlushed q
unfolding flush_loop
flush_loop-ends zero answer p h v = absurd (omega arith)
flush_loop-ends (suc rounds) answer p h v = elim (Bool-cases (is_busy p)) [
  | inl busy ↦ rw busy (
      flush_loop-ends rounds answer (flush_round (answer rounds) p)
        (omega (arith, flush_round-cost p (answer rounds) v.has_batch busy))
        (flush_round-IsBalanced p (answer rounds) v))
  | inr idle ↦ rw idle (p, refl, idle-IsFlushed p v idle)
]

-- On a created processor, after any schedule, `flush` ends if nothing else is submitted, whatever
-- the server answers: more rounds of its loop than `cost` are enough. Then the queue is empty,
-- nothing is being delivered or pending, every event enqueued was committed or failed, and the
-- result is true exactly if all of them were committed.
pub flush_ends :
    (o : Options) (p : Processor) (actions : List Action) (rounds : ℕ) (answer : ℕ → Sent)
    → new o ≡ created p
    → cost (flush (run p actions)) < rounds
    → (q : Processor) × (flush_loop rounds answer (flush (run p actions)) ≡ some q) × IsFlushed q
unfolding flush clear_timer
flush_ends o p actions rounds answer h enough =
    let s = clear_timer (run p actions) in
    let v = run-new-IsBalanced o p actions h in
    let cleared : IsBalanced s = ground arith in
    flush_loop-ends rounds answer (drain s) enough (drain-IsBalanced s cleared)
