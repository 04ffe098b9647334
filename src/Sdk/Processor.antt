-- ===== src/Sdk/Processor.antt =====
-- sdk/typescript/src/processor.ts: the background processor. Its code runs between awaits without
-- interruption, so the model has one function for each stretch between two awaits, and a schedule
-- is a list of such steps. A promise that is awaited is part of the state.
mod Grouping
pub mod GroupLaws
pub mod Invariant
pub mod Order
pub mod Flush
pub mod Refinement
mod Tests
use farfield.Base.{
  ℕ, suc, ◌+◌, ◌-◌, Bool, true, false, not, ◌&&◌, ◌||◌, List, [], ◌∷◌, ◌++◌, Option, none, some,
  Text, text, length, take, drop, ltb, leb, ◌==◌, if◌then◌else◌, get_or,
}
use farfield.Sdk.Types.{WireEvent}
unfoldable pub use Grouping.{groups, group_event, group_from}
pub use Grouping.{values_of}

pub data Overflow : Type 0 where
  drop_event throw_error : Overflow

pub record Options : Type 0 where
  pub max_queue_size : Option ℕ
  pub max_batch_size : Option ℕ
  pub schedule_delay : Option ℕ
  pub overflow : Option Overflow

pub record Stats : Type 0 where
  pub enqueued : ℕ
  pub committed : ℕ
  pub dropped : ℕ
  pub failed : ℕ
  pub batches : ℕ
  pub pending : ℕ
  pub last_error : Option Text

-- `#draining`: the call of `#deliverNext` under way. It awaits the send of one group, or the error
-- observer about that group, with the groups that are left; or it has returned, and `#drain` has
-- yet to go on.
pub data Delivery : Type 0 where
  sending reporting : List WireEvent → List (List WireEvent) → Delivery
  delivered : Delivery

pub record Processor : Type 0 where
  pub max_queue_size : ℕ
  pub max_batch_size : ℕ
  pub schedule_delay : ℕ
  pub overflow : Overflow
  pub queue : List WireEvent
  pub timer : Bool
  pub draining : Option Delivery
  pub closed : Bool
  pub stats : Stats

pub data Created : Type 0 where
  created : Processor → Created
  invalid : Text → Created

abbrev pub no_stats : Stats
no_stats = record {
  enqueued = 0;
  committed = 0;
  dropped = 0;
  failed = 0;
  batches = 0;
  pending = 0;
  last_error = none;
}

-- The constructor. The delay is a natural number, so it is never negative.
unfoldable pub new : Options → Created
new o =
    let p : Processor = record {
      max_queue_size = get_or o.max_queue_size 8192;
      max_batch_size = get_or o.max_batch_size 128;
      schedule_delay = get_or o.schedule_delay 250;
      overflow = get_or o.overflow drop_event;
      queue = [];
      timer = false;
      draining = none;
      closed = false;
      stats = no_stats;
    } in
    if ltb p.max_queue_size 1 || ltb p.max_batch_size 1
    then invalid (text "farfield: processor queue and batch sizes must be positive")
    else created p

abbrev pub is_draining : Option Delivery → Bool
is_draining none = false
is_draining (some _) = true

-- `#schedule`
unfoldable pub schedule : Processor → Processor
schedule p = if p.timer || is_draining p.draining then p else record p { timer = true }

-- `#clearTimer`
unfoldable pub clear_timer : Processor → Processor
clear_timer p = record p { timer = false }

-- The `for` loop of `#deliverNext`, up to its next await.
unfoldable pub advance : List (List WireEvent) → Delivery
advance [] = delivered
advance (values ∷ rest) = sending values rest

-- `#deliverNext`, up to its first await.
unfoldable pub deliver_next : Processor → Processor
deliver_next p = record p {
  queue = drop p.max_batch_size p.queue;
  draining = some (advance (groups (take p.max_batch_size p.queue)));
}

abbrev pub is_empty : List WireEvent → Bool
is_empty [] = true
is_empty (_ ∷ _) = false

-- `#drain`, up to its await.
unfoldable pub drain : Processor → Processor
drain p = if is_draining p.draining || is_empty p.queue then p else deliver_next p

-- The `finally` of `#drain`.
unfoldable pub drain_done : Processor → Processor
drain_done p =
    let q : Processor = record p { draining = none } in
    if not (is_empty q.queue) && not q.closed then schedule q else q

-- What `client.prepareEvent` makes of the event: it returns, or throws `DroppedEvent` or another
-- error.
pub data Prepared : Type 0 where
  ready : WireEvent → Prepared
  withheld : Prepared
  failed_with : Text → Prepared

pub data Submitted : Type 0 where
  admitted refused : Submitted
  thrown : Text → Submitted

abbrev pub shut_down : Submitted
shut_down = thrown (text "farfield: processor is shut down")

abbrev pub queue_full : Submitted
queue_full = thrown (text "farfield: background capture queue is full")

abbrev pub count_dropped : Processor → Processor
count_dropped p = record p { stats = record (p.stats) { dropped = p.stats.dropped + 1 } }

abbrev pub overflowed : Overflow → Submitted
overflowed drop_event = refused
overflowed throw_error = queue_full

abbrev pub push : WireEvent → Processor → Processor
push e p = record p {
  queue = p.queue ++ e ∷ [];
  stats = record (p.stats) { enqueued = p.stats.enqueued + 1; pending = p.stats.pending + 1 };
}

-- The end of `submit`, behind the two tests.
unfoldable pub admit : WireEvent → Processor → Processor
admit e p =
    let q : Processor = push e p in
    if leb q.max_batch_size (length q.queue) then drain (clear_timer q) else schedule q

-- `submit` up to its await: `none` if it goes on.
unfoldable pub submit : Processor → Option Submitted
submit p = if p.closed then some shut_down else none

-- `submit` behind its await.
unfoldable pub submit_prepared : Processor → Prepared → Processor × Submitted
submit_prepared p (failed_with error) = (p, thrown error)
submit_prepared p withheld = (count_dropped p, refused)
submit_prepared p (ready e) =
    if p.closed
    then (p, shut_down)
    else if leb p.max_queue_size (length p.queue)
    then (count_dropped p, overflowed p.overflow)
    else (admit e p, admitted)

-- The callback of the timer.
unfoldable pub timer_fired : Processor → Processor
timer_fired p = if p.timer then drain (record p { timer = false }) else p

-- What is thrown: an `Error` with its message, or another value with its text.
pub data Thrown : Type 0 where
  error value : Text → Thrown

abbrev pub error_message : Thrown → Text
error_message (error message) = message
error_message (value shown) = shown

pub data Sent : Type 0 where
  stored : Sent
  rejected : Thrown → Sent

abbrev pub settle : ℕ → Stats → Stats
settle n s = record s { pending = s.pending - n }

abbrev pub commit : ℕ → Stats → Stats
commit n s = settle n (record s { committed = s.committed + n; batches = s.batches + 1 })

abbrev pub fail : ℕ → Thrown → Stats → Stats
fail n e s = record s { failed = s.failed + n; last_error = some (error_message e) }

-- The await of `capturePreparedBatch` ends, well or badly.
unfoldable pub sent_group : Processor → Sent → List WireEvent → List (List WireEvent) → Processor
sent_group p stored values rest = record p {
  stats = commit (length values) p.stats;
  draining = some (advance rest);
}
sent_group p (rejected e) values rest = record p {
  stats = fail (length values) e p.stats;
  draining = some (reporting values rest);
}

-- The await of `onError` ends; what the observer throws is caught.
unfoldable pub reported_group : Processor → List WireEvent → List (List WireEvent) → Processor
reported_group p values rest = record p {
  stats = settle (length values) p.stats;
  draining = some (advance rest);
}

-- The delivery under way goes on from its await; `sent` is read if it awaits a send.
unfoldable pub resume_delivery : Processor → Sent → Option Delivery → Processor
resume_delivery p sent none = p
resume_delivery p sent (some (sending values rest)) = sent_group p sent values rest
resume_delivery p sent (some (reporting values rest)) = reported_group p values rest
resume_delivery p sent (some delivered) = drain_done p

unfoldable pub resume : Processor → Sent → Processor
resume p sent = resume_delivery p sent p.draining

-- A round of the loop of `flush` finds work left.
abbrev pub is_busy : Processor → Bool
is_busy p = not (is_empty p.queue) || is_draining p.draining

-- `flush` up to its first await, and `#drain` in each later round of its loop.
unfoldable pub flush : Processor → Processor
flush p = drain (clear_timer p)

-- What `flush` returns when its loop ends.
abbrev pub flush_result : Processor → Bool
flush_result p = p.stats.failed == 0

-- `shutdown` up to its first await.
unfoldable pub shutdown : Processor → Processor
shutdown p = if p.closed then p else flush (record p { closed = true })

-- What `shutdown` returns when the processor is shut down already.
abbrev pub shutdown_result : Processor → Bool
shutdown_result p = is_empty p.queue && not (is_draining p.draining) && p.stats.failed == 0

pub data Action : Type 0 where
  submits : Prepared → Action
  timer_fires : Action
  resumes : Sent → Action
  flushes flush_loops shuts_down : Action

unfoldable pub step : Processor → Action → Processor
step p (submits prepared) = (submit_prepared p prepared).0
step p timer_fires = timer_fired p
step p (resumes sent) = resume p sent
step p flushes = flush p
step p flush_loops = drain p
step p shuts_down = shutdown p

unfoldable pub run : Processor → List Action → Processor
run p [] = p
run p (a ∷ as') = run (step p a) as'

-- What a test of the processor computes with.
unfoldable pub computes : Unit {0}
unfolding new schedule clear_timer advance deliver_next drain drain_done admit submit
    submit_prepared timer_fired sent_group reported_group resume_delivery resume flush shutdown step
    run groups group_from group_event
computes = tt
