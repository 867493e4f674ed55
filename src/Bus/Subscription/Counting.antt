-- ===== src/Bus/Subscription/Counting.antt =====
-- Counting the copies of an event that a subscription of packages/events/in_memory.py holds.
use k8s_ops.Prelude.{
  ℕ, ◌+◌, ◌<◌, String, Option, none, some, List, [], ◌∷◌, ◌++◌, map, ◌≡◌, refl, arith, count,
  string_eq, if◌then◌else◌, eqb, ◌==◌, lookup, put, nat_eq, Table, Bool-cases, inl, inr, zero, suc,
  length,
}
use k8s_ops.Bus.Subscription.{Queued, Subscription, pop, take_task}

-- how many copies of an event the subscription still holds
abbrev pub held : String → Subscription → ℕ
held d s =
    count d (map (λ (q : Queued). q.data_of) s.queue)
    + count d (map (λ (p : ℕ × Queued). p.1.data_of) s.in_flight)
    + count d (map (λ (q : Queued). q.data_of) s.delayed)

abbrev pub queue_count : String → List Queued → ℕ
queue_count d qs = count d (map (λ (q : Queued). q.data_of) qs)

abbrev pub flight_count : String → Table ℕ Queued → ℕ
flight_count d t = count d (map (λ (p : ℕ × Queued). p.1.data_of) t)

-- 1 where the text is the event's data
abbrev pub one_if : String → String → ℕ
one_if a d = if a == d then 1 else 0

abbrev pub one_of : String → Option Queued → ℕ
one_of d none = 0
one_of d (some q) = one_if q.data_of d

-- the ids in flight lie below the next one
abbrev pub AllBelow : ℕ → Table ℕ Queued → Type 0
AllBelow n [] = Unit
AllBelow n ((j, q) ∷ t) = (j < n) × AllBelow n t

pub put_new_count :
    (d : String) (n : ℕ) (q : Queued) (t : Table ℕ Queued)
    → AllBelow n t
    → flight_count d (put n q t) ≡ flight_count d t + one_if q.data_of d
unfolding put
put_new_count d n q [] below = ground arith
put_new_count d n q ((j, r) ∷ t) (less, below) = ground (arith, put_new_count d n q t below)

pub AllBelow-put :
    (n : ℕ) (q : Queued) (t : Table ℕ Queued) → AllBelow n t → AllBelow (n + 1) (put n q t)
unfolding put
AllBelow-put n q [] below = (omega arith, tt)
AllBelow-put n q ((j, r) ∷ t) (less, below) = elim (Bool-cases (eqb j n)) [
  | inl same ↦ absurd (ground (arith, same, less))
  | inr other ↦ rw other (omega arith, AllBelow-put n q t below)
]

pub pop_count :
    (d : String) (id : ℕ) (t : Table ℕ Queued)
    → flight_count d (pop id t) + one_of d (lookup id t) ≡ flight_count d t
unfolding pop lookup
pop_count d id [] = ground arith
pop_count d id ((j, q) ∷ t) = ground (arith, pop_count d id t)

pub AllBelow-pop : (n id : ℕ) (t : Table ℕ Queued) → AllBelow n t → AllBelow n (pop id t)
unfolding pop
AllBelow-pop n id [] below = tt
AllBelow-pop n id ((j, q) ∷ t) (less, below) = elim (Bool-cases (eqb j id)) [
  | inl same ↦ rw same below
  | inr other ↦ rw other (less, AllBelow-pop n id t below)
]

pub queue_count-append :
    (d : String) (xs ys : List Queued)
    → queue_count d (xs ++ ys) ≡ queue_count d xs + queue_count d ys
queue_count-append d [] ys = omega arith
queue_count-append d (x ∷ xs) ys = ground (arith, queue_count-append d xs ys)

-- What becomes of a list by taking one of its tasks: that one is out, and nothing else is.
abbrev pub Takes : String → List Queued → Option Queued × List Queued → Type 0
Takes d qs (none, waiting) = Unit
Takes d qs (some q, waiting) =
    (queue_count d qs ≡ one_if q.data_of d + queue_count d waiting)
    × (length qs ≡ suc (length waiting))

pub take_task-Takes : (d : String) (i : ℕ) (qs : List Queued) → Takes d qs (take_task i qs)
unfolding take_task
take_task-Takes d i [] = tt
take_task-Takes d zero (q ∷ qs) = (ground arith, refl)
take_task-Takes d (suc i) (q ∷ qs) = behind (take_task i qs) (take_task-Takes d i qs)
  where
    behind :
        (taken : Option Queued × List Queued)
        → Takes d qs taken
        → Takes d (q ∷ qs) (taken.0, q ∷ taken.1)
    behind (none, waiting) takes = tt
    behind (some r, waiting) (count, less) = (ground (arith, count), omega (arith, less))
