-- ===== src/Bus/Subscription.antt =====
-- `_InMemoryEventSubscription` and `_InMemoryEventMessage` of packages/events/in_memory.py. The
-- event loop runs one coroutine between two awaits, so an operation is a step on the state. A
-- delayed requeue is a task, kept in a list until its own timer runs out, in any order. The stored
-- event is its data; subjects are matched by the bus before the event comes here.
pub mod Counting
pub mod Soundness
pub mod Conservation
use k8s_ops.Prelude.{
  ℕ, zero, suc, ◌+◌, ◌-◌, String, Bool, true, false, not, ◌&&◌, Option, none, some, List, [], ◌∷◌,
  ◌++◌, length, if◌then◌else◌, eqb, ltb, is_empty, Table, lookup, put, nat_eq, take, drop,
}

pub record Queued : Type 0 where
  pub data_of : String
  pub redelivery : Bool

pub record Subscription : Type 0 where
  pub queue : List Queued
  pub in_flight : Table ℕ Queued
  pub next_delivery_id : ℕ
  pub redelivered : ℕ
  pub scheduled : ℕ
  pub delayed : List Queued
  pub closed : Bool

pub record Message : Type 0 where
  pub data_of : String
  pub delivery_id : ℕ
  pub settled : Bool

pub data FetchError : Type 0 where
  is_closed batch_not_positive timed_out : FetchError

pub data Fetched : Type 0 where
  messages : List Message → Fetched
  raises : FetchError → Fetched

unfoldable pub empty : Subscription
empty = record {
  queue = [];
  in_flight = [];
  next_delivery_id = 1;
  redelivered = 0;
  scheduled = 0;
  delayed = [];
  closed = false;
}

unfoldable pub enqueue : Subscription → String → Subscription
enqueue s stored =
    if s.closed
    then s
    else record s { queue = s.queue ++ record { data_of = stored; redelivery = false } ∷ [] }

-- `_deliver`
unfoldable pub deliver : Subscription → Queued → Subscription × Message
deliver s q = (
  record s {
    in_flight = put s.next_delivery_id q s.in_flight;
    next_delivery_id = s.next_delivery_id + 1;
    redelivered = if q.redelivery then s.redelivered + 1 else s.redelivered;
  },
  record { data_of = q.data_of; delivery_id = s.next_delivery_id; settled = false },
)

-- The items that a fetch takes from the queue, delivered one after the other.
unfoldable pub deliver_all : Subscription → List Queued → Subscription × List Message
unfolding deliver
deliver_all s [] = (s, [])
deliver_all s (q ∷ qs) =
    let (s', m) = deliver s q in let (s'', ms) = deliver_all s' qs in (s'', m ∷ ms)

-- `fetch` where nothing arrives while it waits: an empty queue times out.
unfoldable pub fetch : Subscription → ℕ → Subscription × Fetched
unfolding deliver_all
fetch s batch =
    if s.closed
    then (s, raises is_closed)
    else if ltb batch 1
    then (s, raises batch_not_positive)
    else if is_empty s.queue
    then (s, raises timed_out)
    else (let (s', ms) =
          deliver_all (record s { queue = drop batch s.queue }) (take batch s.queue) in
        (s', messages ms))

-- `self._in_flight.pop(delivery_id, None)`
unfoldable pub pop : ℕ → Table ℕ Queued → Table ℕ Queued
pop id [] = []
pop id ((j, q) ∷ rest) = if eqb j id then rest else (j, q) ∷ pop id rest

-- `_InMemoryEventMessage.ack` with the subscription's `ack`
unfoldable pub ack : Subscription → Message → Subscription × Message
unfolding pop
ack s m =
    if m.settled
    then (s, m)
    else (record s { in_flight = pop m.delivery_id s.in_flight }, record m { settled = true })

-- what `nak` does with the item that it took out of flight
abbrev pub requeue : Subscription → ℕ → Option Queued → Subscription
requeue s delay none = s
requeue s delay (some q) =
    let again : Queued = record { data_of = q.data_of; redelivery = true } in
    if s.closed
    then s
    else if eqb delay 0
    then record s { queue = s.queue ++ again ∷ [] }
    else record s { scheduled = s.scheduled + 1; delayed = s.delayed ++ again ∷ [] }

-- `_InMemoryEventMessage.nak` with the subscription's `nak`, for a delay that is not negative
unfoldable pub nak : Subscription → Message → ℕ → Subscription × Message
unfolding pop
nak s m delay = if m.settled then (s, m) else (
  requeue (record s { in_flight = pop m.delivery_id s.in_flight }) delay
      (lookup m.delivery_id s.in_flight),
  record m { settled = true },
)

-- the delayed task at a position, and those that go on waiting
unfoldable pub take_task : ℕ → List Queued → Option Queued × List Queued
take_task i [] = (none, [])
take_task zero (q ∷ qs) = (some q, qs)
take_task (suc i) (q ∷ qs) = let (found, waiting) = take_task i qs in (found, q ∷ waiting)

-- `_requeue_after` with its delay over: the task counts itself off
abbrev pub requeue_after : Subscription → Option Queued × List Queued → Subscription
requeue_after s (none, waiting) = s
requeue_after s (some q, waiting) = record s {
  delayed = waiting;
  scheduled = s.scheduled - 1;
  queue = if s.closed then s.queue else s.queue ++ q ∷ [];
}

-- The delay of one of the delayed tasks is over. Each sleeps for its own delay, so this may be any
-- of them, whichever was scheduled first; where no task stands at the position nothing happens.
unfoldable pub timer : Subscription → ℕ → Subscription
unfolding take_task
timer s i = requeue_after s (take_task i s.delayed)

-- `close` cancels the delayed tasks, each of which counts itself off. (A task that is cancelled
-- before its first step would not; here each task has begun to wait.)
unfoldable pub close : Subscription → Subscription
close s = record s { closed = true; delayed = []; scheduled = s.scheduled - length s.delayed }

-- `metrics`: pending, ack_pending, redelivered
unfoldable pub metrics : Subscription → ℕ × ℕ × ℕ
metrics s = (length s.queue + s.scheduled, length s.in_flight, s.redelivered)
