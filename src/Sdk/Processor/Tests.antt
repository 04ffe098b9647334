-- ===== src/Sdk/Processor/Tests.antt =====
-- Runs of the background processor on small inputs, sdk/typescript/src/processor.ts.
use farfield.Base.{ℕ, ◌≡◌, refl, false, List, [], ◌∷◌, ◌++◌, none, some, text_eq, arith}
use farfield.Sdk.Types.{WireEvent, null}
use farfield.Sdk.Processor.{
  Options, Processor, created, drop_event, no_stats, ready, withheld, submits, timer_fires, resumes,
  stored, rejected, error, Action, Sent, new, run, computes, flush,
}
use farfield.Sdk.Processor.GroupLaws.{of_conversation}
use farfield.Sdk.Processor.Invariant.{IsBalanced, IsAwake, run-new-IsBalanced, run-new-IsAwake}
use farfield.Sdk.Processor.Order.{answers, admissions, waiting, run-new-Same}
use farfield.Sdk.Processor.Refinement.{Runs, labels, queues, run-new-Runs}
use farfield.Sdk.Processor.Flush.{flush_loop, flush_ends, IsFlushed, cost, delivery_cost}

abbrev small : Options
small = record {
  max_queue_size = some 3;
  max_batch_size = some 2;
  schedule_delay = none;
  overflow = none;
}

abbrev empty : Processor
empty = record {
  max_queue_size = 3;
  max_batch_size = 2;
  schedule_delay = 250;
  overflow = drop_event;
  queue = [];
  timer = false;
  draining = none;
  closed = false;
  stats = no_stats;
}

abbrev sample : ℕ → ℕ → WireEvent
sample id conversation = record {
  id = id ∷ [];
  conversation_id = conversation ∷ [];
  kind = 1 ∷ [];
  content = null;
  occurred_at = [];
  sequence = none;
  trace_id = none;
  span_id = none;
  parent_id = none;
  agent = none;
  tool = none;
  status = none;
  tags = [];
}

new-small : new small ≡ created empty
unfolding computes text_eq
new-small = refl

abbrev busy : List Action
busy =
    submits (ready (sample 1 7))
    ∷ submits (ready (sample 2 8))
    ∷ submits (ready (sample 3 7))
    ∷ submits withheld
    ∷ resumes (rejected (error (5 ∷ [])))
    ∷ resumes stored
    ∷ resumes stored
    ∷ resumes stored
    ∷ timer_fires
    ∷ resumes stored
    ∷ []

busy_counts :
    ((run empty busy).stats.committed ≡ 2)
    × ((run empty busy).stats.failed ≡ 1)
    × ((run empty busy).stats.dropped ≡ 1)
    × ((run empty busy).stats.pending ≡ 0)
unfolding computes text_eq
busy_counts = (refl, refl, refl, refl)

run-new-IsBalanced_example : IsBalanced (run empty busy)
run-new-IsBalanced_example = run-new-IsBalanced small empty busy new-small

run-new-IsAwake_example : IsAwake (run empty busy)
run-new-IsAwake_example = run-new-IsAwake small empty busy new-small

run-new-Same_example :
    of_conversation (7 ∷ []) (answers empty busy ++ waiting (run empty busy))
    ≡ of_conversation (7 ∷ []) (admissions empty busy)
run-new-Same_example = run-new-Same small empty busy (7 ∷ []) new-small

run-new-Runs_example : Runs (λ c. []) (labels empty busy) (queues (run empty busy))
run-new-Runs_example = run-new-Runs small empty busy new-small

abbrev three : List Action
three =
    submits (ready (sample 1 7)) ∷ submits (ready (sample 2 8)) ∷ submits (ready (sample 3 7)) ∷ []

abbrev always_stored : ℕ → Sent
always_stored n = stored

flush_ends_example :
    (q : Processor) × (flush_loop 30 always_stored (flush (run empty three)) ≡ some q) × IsFlushed q
unfolding computes text_eq cost delivery_cost
flush_ends_example = flush_ends small empty three 30 always_stored new-small (omega arith)
