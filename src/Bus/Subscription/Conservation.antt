-- ===== src/Bus/Subscription/Conservation.antt =====
-- Runs of one open subscription of packages/events/in_memory.py.
use k8s_ops.Prelude.{
  ℕ, ◌+◌, String, Bool, true, false, Option, none, some, List, [], ◌∷◌, ◌++◌, ◌≡◌, refl, ◌∙◌, arith,
  string_eq, ap, length-append, if◌then◌else◌, eqb, lookup, nat_eq, Bool-cases, inl, inr,
}
use k8s_ops.Bus.Subscription.{
  Queued, Subscription, Message, fetch, pop, ack, nak, requeue, requeue_after, take_task, timer,
  enqueue, empty,
}
use k8s_ops.Bus.Subscription.Counting.{
  held, one_if, one_of, pop_count, AllBelow-pop, queue_count-append, Takes, take_task-Takes,
}
use k8s_ops.Bus.Subscription.Soundness.{IsSound, held-fetch, fetch-IsSound, IsSound-if_first}

-- What the clients and the timers do with an open subscription.
pub data Op : Type 0 where
  put_op : String → Op
  fetch_op : ℕ → Op
  ack_op : Message → Op
  nak_op : Message → ℕ → Op
  timer_op : ℕ → Op

pub step : Subscription → Op → Subscription
step s (put_op stored) = enqueue s stored
step s (fetch_op batch) = (fetch s batch).0
step s (ack_op m) = (ack s m).0
step s (nak_op m delay) = (nak s m delay).0
step s (timer_op i) = timer s i

-- the copies of an event that an operation brings in, and those that it settles by an ack
abbrev pub brought : String → Op → ℕ
brought d (put_op stored) = one_if stored d
brought d _ = 0

abbrev pub settled_by : String → Subscription → Op → ℕ
settled_by d s (ack_op m) = if m.settled then 0 else one_of d (lookup m.delivery_id s.in_flight)
settled_by d s _ = 0

unless : {A : Type 0} (t : Bool) (x y : A) → t ≡ false → (if t then x else y) ≡ y
unless t x y e = rw e refl

queued_held :
    (d : String) (s : Subscription) (q : Queued)
    → held d (record s { queue = s.queue ++ q ∷ [] }) ≡ held d s + one_if q.data_of d
queued_held d s q = ground (arith, queue_count-append d s.queue (q ∷ []))

delayed_held :
    (d : String) (s : Subscription) (q : Queued) (n : ℕ)
    → held d (record s { scheduled = n; delayed = s.delayed ++ q ∷ [] })
      ≡ held d s + one_if q.data_of d
delayed_held d s q n = ground (arith, queue_count-append d s.delayed (q ∷ []))

held-enqueue :
    (d : String) (s : Subscription) (stored : String)
    → s.closed ≡ false
    → held d (enqueue s stored) ≡ held d s + one_if stored d
unfolding enqueue
held-enqueue d s stored is_open =
    ap (held d) (
      unless s.closed s
        (record s { queue = s.queue ++ record { data_of = stored; redelivery = false } ∷ [] })
        is_open)
    ∙ queued_held d s (record { data_of = stored; redelivery = false })

held-requeue :
    (d : String) (s : Subscription) (delay : ℕ) (o : Option Queued)
    → s.closed ≡ false
    → held d (requeue s delay o) ≡ held d s + one_of d o
held-requeue d s delay none is_open = omega arith
held-requeue d s delay (some q) is_open =
    let again : Queued = record { data_of = q.data_of; redelivery = true } in
    elim (Bool-cases (eqb delay 0)) [
      | inl now ↦ rw now (
          ap (held d) (unless s.closed s (record s { queue = s.queue ++ again ∷ [] }) is_open)
          ∙ queued_held d s again)
      | inr later ↦ rw later (
          ap (held d) (
            unless s.closed s
              (record s { scheduled = s.scheduled + 1; delayed = s.delayed ++ again ∷ [] }) is_open)
          ∙ delayed_held d s again (s.scheduled + 1))
    ]

held-nak :
    (d : String) (s : Subscription) (m : Message) (delay : ℕ)
    → s.closed ≡ false
    → held d (nak s m delay).0 ≡ held d s
unfolding nak
held-nak d s m delay is_open =
    let out : Subscription = record s { in_flight = pop m.delivery_id s.in_flight } in
    elim (Bool-cases m.settled) [
      | inl done ↦ simp done refl
      | inr live ↦ simp live (
          omega (
            arith,
            held-requeue d out delay (lookup m.delivery_id s.in_flight) is_open,
            pop_count d m.delivery_id s.in_flight,
          ))
    ]

held-requeue_after :
    (d : String) (s : Subscription) (taken : Option Queued × List Queued)
    → s.closed ≡ false
    → Takes d s.delayed taken
    → held d (requeue_after s taken) ≡ held d s
held-requeue_after d s (none, waiting) is_open takes = refl
held-requeue_after d s (some q, waiting) is_open (count, less) =
    ground (arith, is_open, count, queue_count-append d s.queue (q ∷ []))

held-step :
    (d : String) (s : Subscription) (op : Op)
    → IsSound s
    → held d (step s op) + settled_by d s op ≡ held d s + brought d op
unfolding step
held-step d s (put_op stored) h = omega (arith, held-enqueue d s stored h.is_open)
held-step d s (fetch_op batch) h = omega (arith, held-fetch d s batch h)
held-step d s (ack_op m) h = unfold ack in ground (arith, pop_count d m.delivery_id s.in_flight)
held-step d s (nak_op m delay) h = omega (arith, held-nak d s m delay h.is_open)
held-step d s (timer_op i) h =
    unfold timer in
    omega (
      arith,
      held-requeue_after d s (take_task i s.delayed) h.is_open (take_task-Takes d i s.delayed),
    )

IsSound-if : (t : Bool) (x y : Subscription) → IsSound x → IsSound y → IsSound (if t then x else y)
IsSound-if true x y hx hy = hx
IsSound-if false x y hx hy = hy

requeue-IsSound :
    (s : Subscription) (delay : ℕ) (o : Option Queued) → IsSound s → IsSound (requeue s delay o)
requeue-IsSound s delay none h = h
requeue-IsSound s delay (some q) h =
    let again : Queued = record { data_of = q.data_of; redelivery = true } in
    let now : Subscription = record s { queue = s.queue ++ again ∷ [] } in
    let later : Subscription = record s {
      scheduled = s.scheduled + 1;
      delayed = s.delayed ++ again ∷ [];
    } in
    IsSound-if s.closed s (if eqb delay 0 then now else later) h (
      IsSound-if (eqb delay 0) now later
        (record { below = h.below; tasks = h.tasks; is_open = h.is_open })
        (record {
          below = h.below;
          tasks = ground (arith, h.tasks, length-append s.delayed (again ∷ []));
          is_open = h.is_open;
        }))

requeue_after-IsSound :
    (s : Subscription) (taken : Option Queued × List Queued)
    → IsSound s
    → Takes "" s.delayed taken
    → IsSound (requeue_after s taken)
requeue_after-IsSound s (none, waiting) h takes = h
requeue_after-IsSound s (some q, waiting) h (count, less) = record {
  below = h.below;
  tasks = omega (arith, h.tasks, less);
  is_open = h.is_open;
}

popped :
    (s : Subscription) (id : ℕ) → IsSound s → IsSound (record s { in_flight = pop id s.in_flight })
popped s id h = record {
  below = AllBelow-pop s.next_delivery_id id s.in_flight h.below;
  tasks = h.tasks;
  is_open = h.is_open;
}

ack-IsSound : (s : Subscription) (m : Message) → IsSound s → IsSound (ack s m).0
unfolding ack
ack-IsSound s m h =
    let gone : Subscription = record s { in_flight = pop m.delivery_id s.in_flight } in
    IsSound-if_first m.settled (s, m) (gone, record m { settled = true }) h
      (popped s m.delivery_id h)

nak-IsSound : (s : Subscription) (m : Message) (delay : ℕ) → IsSound s → IsSound (nak s m delay).0
unfolding nak
nak-IsSound s m delay h =
    let gone : Subscription = record s { in_flight = pop m.delivery_id s.in_flight } in
    let item = lookup m.delivery_id s.in_flight in
    IsSound-if_first m.settled (s, m) (requeue gone delay item, record m { settled = true }) h
      (requeue-IsSound gone delay item (popped s m.delivery_id h))

pub step-IsSound : (s : Subscription) (op : Op) → IsSound s → IsSound (step s op)
unfolding step
step-IsSound s (put_op stored) h =
    unfold enqueue in
    let more : Subscription = record s {
      queue = s.queue ++ record { data_of = stored; redelivery = false } ∷ [];
    } in
    IsSound-if s.closed s more h (record { below = h.below; tasks = h.tasks; is_open = h.is_open })
step-IsSound s (fetch_op batch) h = fetch-IsSound s batch h
step-IsSound s (ack_op m) h = ack-IsSound s m h
step-IsSound s (nak_op m delay) h = nak-IsSound s m delay h
step-IsSound s (timer_op i) h =
    unfold timer in
    requeue_after-IsSound s (take_task i s.delayed) h (take_task-Takes "" i s.delayed)

pub run : Subscription → List Op → Subscription
run s [] = s
run s (op ∷ ops) = run (step s op) ops

-- the copies that a run brings in, and those that it settles
pub brought_in : String → List Op → ℕ
brought_in d [] = 0
brought_in d (op ∷ ops) = brought d op + brought_in d ops

pub settled_in : String → Subscription → List Op → ℕ
settled_in d s [] = 0
settled_in d s (op ∷ ops) = settled_by d s op + settled_in d (step s op) ops

held-run :
    (d : String) (s : Subscription) (ops : List Op)
    → IsSound s
    → held d (run s ops) + settled_in d s ops ≡ held d s + brought_in d ops
unfolding run brought_in settled_in
held-run d s [] h = refl
held-run d s (op ∷ ops) h =
    omega (arith, held-step d s op h, held-run d (step s op) ops (step-IsSound s op h))

empty-IsSound : IsSound empty
unfolding empty
empty-IsSound = record { below = tt; tasks = refl; is_open = refl }

-- In a subscription that has not been closed, whatever the clients did and in whatever order the
-- timers of the delayed tasks ran out, the copies of an event that are queued, in flight or delayed
-- are those that were put in less those that an ack settled: none is lost or doubled by a fetch, a
-- nak, a delay or a timer.
pub none_lost :
    (d : String) (ops : List Op)
    → held d (run empty ops) + settled_in d empty ops ≡ brought_in d ops
none_lost d ops = unfold empty in omega (arith, held-run d empty ops empty-IsSound)
