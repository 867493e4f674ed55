-- ===== src/Bus/Subscription/Soundness.antt =====
-- The state of an open subscription of packages/events/in_memory.py between two operations, and
-- the lemmas on a fetch.
use k8s_ops.Prelude.{
  ℕ, ◌+◌, String, Bool, true, false, List, [], ◌∷◌, length, ◌≡◌, arith, string_eq, take, drop,
  take-append-drop, ap, if◌then◌else◌, nat_eq, is_empty, ltb,
}
use k8s_ops.Bus.Subscription.{
  Queued, Subscription, deliver, deliver_all, fetch, Fetched, messages, raises, is_closed,
  batch_not_positive, timed_out,
}
use k8s_ops.Bus.Subscription.Counting.{
  held, queue_count, AllBelow, put_new_count, AllBelow-put, queue_count-append,
}

-- The state between two operations: ids in flight are old ones, every delayed task is scheduled,
-- and the subscription is open.
pub record IsSound (s : Subscription) : Type 0 where
  pub below : AllBelow s.next_delivery_id s.in_flight
  pub tasks : s.scheduled ≡ length s.delayed
  pub is_open : s.closed ≡ false

pub deliver_all-IsSound :
    (s : Subscription) (qs : List Queued) → IsSound s → IsSound (deliver_all s qs).0
unfolding deliver_all
deliver_all-IsSound s [] h = h
deliver_all-IsSound s (q ∷ qs) h = deliver_all-IsSound (deliver s q).0 qs (record {
  below = AllBelow-put s.next_delivery_id q s.in_flight h.below;
  tasks = h.tasks;
  is_open = h.is_open;
})

pub held-deliver_all :
    (d : String) (s : Subscription) (qs : List Queued)
    → IsSound s
    → held d (deliver_all s qs).0 ≡ held d s + queue_count d qs
unfolding deliver_all
held-deliver_all d s [] h = omega arith
held-deliver_all d s (q ∷ qs) h =
    let next : IsSound (deliver s q).0 = record {
      below = AllBelow-put s.next_delivery_id q s.in_flight h.below;
      tasks = h.tasks;
      is_open = h.is_open;
    } in
    ground (
      arith,
      held-deliver_all d (deliver s q).0 qs next,
      put_new_count d s.next_delivery_id q s.in_flight h.below,
    )

pub taken :
    (s : Subscription) (batch : ℕ) → IsSound s → IsSound (record s { queue = drop batch s.queue })
taken s batch h = record { below = h.below; tasks = h.tasks; is_open = h.is_open }

pub held-fetch :
    (d : String) (s : Subscription) (batch : ℕ) → IsSound s → held d (fetch s batch).0 ≡ held d s
unfolding fetch
held-fetch d s batch h =
    let all =
      held-deliver_all d (record s { queue = drop batch s.queue }) (take batch s.queue)
        (taken s batch h) in
    let split = queue_count-append d (take batch s.queue) (drop batch s.queue) in
    let whole = ap (queue_count d) (take-append-drop batch s.queue) in
    ground (arith, all, split, whole)

pub IsSound-if_first :
    {A : Type 0} (t : Bool) (x y : Subscription × A)
    → IsSound x.0
    → IsSound y.0
    → IsSound (if t then x else y).0
IsSound-if_first true x y hx hy = hx
IsSound-if_first false x y hx hy = hy

pub fetch-IsSound : (s : Subscription) (batch : ℕ) → IsSound s → IsSound (fetch s batch).0
unfolding fetch
fetch-IsSound s batch h =
    let got = deliver_all (record s { queue = drop batch s.queue }) (take batch s.queue) in
    let some_got : Subscription × Fetched = (got.0, messages got.1) in
    let timed : Subscription × Fetched = (s, raises timed_out) in
    let refused : Subscription × Fetched = (s, raises batch_not_positive) in
    let shut : Subscription × Fetched = (s, raises is_closed) in
    let waited : Subscription × Fetched = if is_empty s.queue then timed else some_got in
    IsSound-if_first s.closed shut (if ltb batch 1 then refused else waited) h (
      IsSound-if_first (ltb batch 1) refused waited h (
        IsSound-if_first (is_empty s.queue) timed some_got h (
          deliver_all-IsSound (record s { queue = drop batch s.queue }) (take batch s.queue)
            (taken s batch h))))
