-- ===== src/Runtime/Processor.antt =====
-- `EventProcessor` of packages/runtime/worker.py, `DeadLetterSink` of packages/events/bus.py and
-- `stage_events` of packages/storage/repositories/outbox.py. One delivery is a function of the
-- world; an exception in a unit of work gives back the world from before it.
pub mod Atomicity
pub mod Delivery
pub mod Runs
pub mod Settlement
mod Samples
use k8s_ops.Prelude.{
  ℕ, String, Bool, true, false, Option, none, some, string_eq, if◌then◌else◌, leb, List, [], ◌∷◌,
  ◌++◌, any, ◌==◌,
}
use k8s_ops.Runtime.Envelope.{Envelope}
use k8s_ops.Runtime.Ledger.{
  Status, processing, processed, retrying, dead_lettered, ClaimStatus, stored, claim_blocked,
  unknown, Claim, compact_error, is_terminal, begin_event_processing, finish_event_processing,
  fail_event_processing, record_event,
}
use k8s_ops.Runtime.World.{
  DeadLetter, World, Handled, returned, raised, Service, SinkOutcome, captured, not_recorded,
  not_emitted, notice_not_recorded, Faults, Settled, acked, nacked, escaped, crashed,
  is_after_claim, is_after_commit, is_after_capture,
}

module _ {P D B : Type 0} (s : Service P D B) where
  -- `on_conflict_do_nothing(event_id)`, one row after the other
  stage_one : List (Envelope P) → Envelope P → List (Envelope P)
  stage_one outbox evt =
      if any (λ row. row.event_id == evt.event_id) outbox then outbox else outbox ++ evt ∷ []

  pub stage_events : List (Envelope P) → List (Envelope P) → List (Envelope P)
  unfolding stage_one
  stage_events outbox [] = outbox
  stage_events outbox (evt ∷ evts) = stage_events (stage_one outbox evt) evts

  -- `DeadLetterSink.capture`: the row, then the notice, then the record of the notice.
  pub capture_row : Faults → DeadLetter P → World P D → World P D × Bool
  capture_row env row w = elim env.sink [
    | captured ↦ (
      record w {
        dead_letters = w.dead_letters ++ row ∷ [];
        events =
            if any (λ id. id == env.notice_id) w.events
            then w.events
            else w.events ++ env.notice_id ∷ [];
      },
      true,
    )
    | not_recorded ↦ (w, false)
    | not_emitted ↦ (record w { dead_letters = w.dead_letters ++ row ∷ [] }, false)
    | notice_not_recorded ↦ (record w { dead_letters = w.dead_letters ++ row ∷ [] }, false)
  ]

  abbrev dead_letter_of : Envelope P → String → ℕ → DeadLetter P
  dead_letter_of evt error attempts = record {
    original_event_id = evt.event_id;
    original_subject = evt.subject;
    consumer = s.service_name;
    correlation_id = evt.correlation_id;
    attempts = attempts;
    error = compact_error s.error_limit error;
    payload = evt.payload;
  }

  abbrev raw_dead_letter : Faults → B → DeadLetter P
  raw_dead_letter env raw = record {
    original_event_id = env.raw_id;
    original_subject = s.raw_subject;
    consumer = s.service_name;
    correlation_id = env.raw_id;
    attempts = 1;
    error = compact_error s.error_limit env.decode_error;
    payload = s.raw_payload raw;
  }

  -- `await message.ack()`
  abbrev ack : Faults → Settled
  ack env = if env.ack_raises then escaped else acked

  -- `ledger.retry` and `ledger.dead_letter`
  mark : Faults → Envelope P → String → Status → World P D → World P D
  mark env evt error status w = record w {
    ledger =
        fail_event_processing s.error_limit env.end_now evt s.service_name error status
          (some env.elapsed) w.ledger;
  }

  -- `ledger.retry`, then `message.nak`
  retry_later : Faults → Envelope P → String → World P D → World P D × Settled
  unfolding mark
  retry_later env evt error w =
      if env.mark_raises then (w, escaped) else (mark env evt error retrying w, nacked)

  -- after a capture that succeeded
  close_dead : Faults → Envelope P → String → World P D → World P D × Settled
  unfolding mark
  close_dead env evt error w =
      if is_after_capture env.crash
      then (w, crashed)
      else if env.mark_raises
      then (w, escaped)
      else (mark env evt error dead_lettered w, ack env)

  fail : Faults → Envelope P → String → ℕ → World P D → World P D × Settled
  unfolding capture_row retry_later close_dead
  fail env evt error attempts w =
      if leb s.max_attempts attempts
      then (let (w', ok) = capture_row env (dead_letter_of evt error attempts) w in
          if ok then close_dead env evt error w' else retry_later env evt error w')
      else retry_later env evt error w

  -- The unit of work commits: business writes, staged events and the ledger's row.
  commit_work : Faults → Envelope P → D → List (Envelope P) → World P D → World P D
  unfolding stage_events
  commit_work env evt business out w = record w {
    business = business;
    outbox = stage_events w.outbox out;
    ledger = finish_event_processing env.end_now evt s.service_name (some env.elapsed) w.ledger;
  }

  finish_work : Faults → Envelope P → ℕ → D → List (Envelope P) → World P D → World P D × Settled
  unfolding commit_work fail
  finish_work env evt attempts business out w = elim env.commit_raises [
    | some error ↦ fail env evt error attempts w
    | none ↦
        (commit_work env evt business out w, if is_after_commit env.crash then crashed else ack env)
  ]

  abbrev attempt_result : Faults → Envelope P → ℕ → World P D → Handled P D → World P D × Settled
  attempt_result env evt attempts w (raised error) = fail env evt error attempts w
  attempt_result env evt attempts w (returned business out) =
      finish_work env evt attempts business out w

  attempt : Faults → Envelope P → ℕ → World P D → World P D × Settled
  unfolding finish_work fail
  attempt env evt attempts w = attempt_result env evt attempts w (s.handler evt w.business)

  -- the tests on `processing.status`
  abbrev on_status : Faults → Envelope P → ℕ → World P D → ClaimStatus → World P D × Settled
  on_status env evt attempts w claim_blocked = (w, nacked)
  on_status env evt attempts w unknown = (w, nacked)
  on_status env evt attempts w (stored processed) = (w, ack env)
  on_status env evt attempts w (stored dead_lettered) = (w, ack env)
  on_status env evt attempts w (stored retrying) = (w, nacked)
  on_status env evt attempts w (stored processing) = attempt env evt attempts w

  pub on_claim : Faults → Envelope P → Claim → World P D → World P D × Settled
  unfolding attempt
  on_claim env evt claim w = on_status env evt claim.attempts w claim.status

  -- `Ledger.begin` in its own unit of work
  pub begin : Faults → Envelope P → World P D → World P D × Claim
  begin env evt w =
      let (rows, claim) =
        begin_event_processing s.stale_seconds env.claim_now evt s.service_name w.ledger in
      (record w { events = record_event evt w.events; ledger = rows }, claim)

  pub process_event : Faults → Envelope P → World P D → World P D × Settled
  unfolding begin on_claim
  process_event env evt w =
      if env.claim_raises
      then (w, escaped)
      else (let (w', claim) = begin env evt w in
          if is_after_claim env.crash then (w', crashed) else on_claim env evt claim w')

  pub process_raw : Faults → B → World P D → World P D × Settled
  unfolding capture_row
  process_raw env raw w =
      let (w', ok) = capture_row env (raw_dead_letter env raw) w in
      (w', if ok then ack env else nacked)

  abbrev process_decoded : Faults → B → World P D → Option (Envelope P) → World P D × Settled
  process_decoded env message w none = process_raw env message w
  process_decoded env message w (some evt) = process_event env evt w

  pub process : Faults → B → World P D → World P D × Settled
  unfolding process_event process_raw
  process env message w = process_decoded env message w (s.decode message)

  -- One message of the loop of `consume_subject`: an exception out of `process` is a `nak`.
  pub consume_one : Faults → Bool → B → World P D → World P D × Settled
  unfolding process
  consume_one env stopping message w =
      if stopping
      then (w, nacked)
      else (let (w', settled) = process env message w in
          (w', elim settled [ escaped ↦ nacked | other ↦ other ]))
