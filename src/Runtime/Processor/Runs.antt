-- ===== src/Runtime/Processor/Runs.antt =====
-- A worker's life: the deliveries that the loop of `consume_subject` takes one after the other,
-- redeliveries, failures and crashes among them.
use k8s_ops.Prelude.{
  ℕ, String, Bool, true, false, Option, none, some, ◌≡◌, refl, ◌⊎◌, inl, inr, arith, List, [], ◌∷◌,
  ◌++◌, ◌==◌, pair_eq, string_eq, pair_beq-same_right, sym, Bool-cases, count, count-append,
  beq_true, ◌∙◌, ◌≤◌,
}
use k8s_ops.Runtime.Envelope.{Envelope}
use k8s_ops.Runtime.Ledger.{Status, processing, processed, retrying, dead_lettered, key_of}
use k8s_ops.Runtime.Ledger.Laws.{status_of, terminal_in}
use k8s_ops.Runtime.World.{World, returned, Service, Faults}
use k8s_ops.Runtime.Processor.{consume_one}
use k8s_ops.Runtime.Processor.Atomicity.{Unchanged, Committed, Unchanged-refl}
use k8s_ops.Runtime.Processor.Delivery.{process-atomic}

-- A message that the loop takes: its surroundings, whether the worker is stopping, its bytes.
abbrev pub Delivery : Type 0 → Type 0
Delivery B = Faults × Bool × B

module _ {P D B : Type 0} (s : Service P D B) where
  unfoldable pub consume_all : World P D → List (Delivery B) → World P D
  consume_all w [] = w
  consume_all w ((env, stopping, message) ∷ rest) =
      consume_all (consume_one s env stopping message w).0 rest

  consume_one-atomic :
      (env : Faults) (stopping : Bool) (message : B) (w : World P D)
      → Unchanged s w (consume_one s env stopping message w).0
        ⊎ ((evt : Envelope P) × Committed s evt w (consume_one s env stopping message w).0)
  unfolding consume_one
  consume_one-atomic env true message w = inl (Unchanged-refl s w)
  consume_one-atomic env false message w = elim (process-atomic s env message w) [
    | inl kept ↦ inl kept
    | inr (evt, _, c) ↦ inr (evt, c)
  ]

abbrev pub times_processed : Option Status → ℕ
times_processed (some processed) = 1
times_processed _ = 0

times_processed-le_one : (o : Option Status) → times_processed o ≤ 1
times_processed-le_one o = ground arith

not_processed_of_open : (o : Option Status) → terminal_in o ≡ false → times_processed o ≡ 0
not_processed_of_open none h = refl
not_processed_of_open (some processing) h = refl
not_processed_of_open (some retrying) h = refl
not_processed_of_open (some dead_lettered) h = refl
not_processed_of_open (some processed) h = absurd (cc)

times-same :
    (o o' : Option Status)
    → (o' ≡ some processed → o ≡ some processed)
    → (o ≡ some processed → o' ≡ some processed)
    → times_processed o' ≡ times_processed o
times-same o o' f g = ground arith

-- A handler that logs the event's id in its business writes, each time that it returns.
module _ {P D B : Type 0} (s : Service P D B) (log : D → List String)
    (logs : (evt : Envelope P) (before after : D) (out : List (Envelope P))
      → s.handler evt before ≡ returned after out
      → log after ≡ log before ++ evt.event_id ∷ []) where
  -- the log holds an event's id as often as its row is PROCESSED
  abbrev pub LogMatches : World P D → Type 0
  LogMatches w =
      (id : String)
      → count id (log w.business) ≡ times_processed (status_of (id, s.service_name) w.ledger)

  Unchanged-LogMatches : (w w' : World P D) → LogMatches w → Unchanged s w w' → LogMatches w'
  Unchanged-LogMatches w w' h u id =
      let same =
        times-same (status_of (id, s.service_name) w.ledger)
          (status_of (id, s.service_name) w'.ledger) (u.same_processed (id, s.service_name)).0
          (u.same_processed (id, s.service_name)).1 in
      rw u.business (h id ∙ sym same)

  Committed-LogMatches :
      (evt : Envelope P) (w w' : World P D) → LogMatches w → Committed s evt w w' → LogMatches w'
  Committed-LogMatches evt w w' h c id =
      let logged = logs evt w.business c.business_after c.emitted c.handled in
      rw (c.business, logged, count-append)
        (elim (Bool-cases (evt.event_id == id)) [
          | inl same ↦
              let e = beq_true evt.event_id id same in
              ground (
                arith,
                e,
                same,
                h id,
                not_processed_of_open (status_of (key_of evt s.service_name) w.ledger) c.was_open,
                c.is_processed,
              )
          | inr other ↦
              let apart = pair_beq-same_right evt.event_id id s.service_name ∙ other in
              rw (c.others (id, s.service_name) apart) (rw other (omega (arith, h id)))
        ])

  run-LogMatches :
      (w : World P D) (deliveries : List (Delivery B))
      → LogMatches w
      → LogMatches (consume_all s w deliveries)
  unfolding consume_all
  run-LogMatches w [] h = h
  run-LogMatches w ((env, stopping, message) ∷ rest) h =
      run-LogMatches (consume_one s env stopping message w).0 rest
        (elim (consume_one-atomic s env stopping message w) [
          | inl kept ↦ Unchanged-LogMatches w _ h kept
          | inr (evt, c) ↦ Committed-LogMatches evt w _ h c
        ])

  -- For a handler that logs the event's id whenever it returns, and a start where the log holds an
  -- id once if its row is PROCESSED and else not: after any list of deliveries, with whatever
  -- redeliveries, exceptions, crashes and stops, that holds again, and no id is logged twice.
  pub exactly_once :
      (w : World P D) (deliveries : List (Delivery B))
      → LogMatches w
      → LogMatches (consume_all s w deliveries)
        × ((id : String) → count id (log (consume_all s w deliveries).business) ≤ 1)
  exactly_once w deliveries h =
      let run = run-LogMatches w deliveries h in
      (
        run,
        λ id. rw (run id) (
            times_processed-le_one
              (status_of (id, s.service_name) (consume_all s w deliveries).ledger)),
      )
