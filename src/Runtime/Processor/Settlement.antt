-- ===== src/Runtime/Processor/Settlement.antt =====
-- The settlement of a delivery with the broker in packages/runtime/worker.py.
use k8s_ops.Prelude.{
  ℕ, String, true, false, Option, none, some, ◌≡◌, refl, inl, inr, arith, [], ◌∷◌, ◌++◌, pair_eq,
  string_eq, Option-cases, Bool-cases, beq_self, leb, if◌then◌else◌, ◌≢◌,
}
use k8s_ops.Runtime.Envelope.{Envelope}
use k8s_ops.Runtime.Ledger.{
  Status, key_of, ClaimStatus, stored, claim_blocked, unknown, processing, processed, retrying,
  dead_lettered, is_terminal, begin_event_processing, record_event,
}
use k8s_ops.Runtime.Ledger.Laws.{status_of, terminal_in, begin-cases, status-finish, status-fail}
use k8s_ops.Runtime.World.{
  World, Handled, returned, raised, Service, Faults, acked, escaped, is_after_claim,
}
use k8s_ops.Runtime.Processor.{
  begin, on_claim, process_event, process_raw, process, process_decoded, raw_dead_letter, ack, mark,
  retry_later, close_dead, fail, commit_work, finish_work, attempt, attempt_result, on_status,
  capture_row, dead_letter_of,
}
use k8s_ops.Runtime.Processor.Atomicity.{capture_frame, Claimed}

module _ {P D B : Type 0} (s : Service P D B) (env : Faults) (evt : Envelope P) where
  -- a claim on a closed row is refused with the row's status
  closed_claim :
      (w : World P D)
      → terminal_in (status_of (key_of evt s.service_name) w.ledger) ≡ true
      → (status : Status) × (is_terminal status ≡ true)
        × ((begin s env evt w).1.status ≡ stored status)
        × ((begin s env evt w).0 ≡ record w { events = record_event evt w.events })
  unfolding begin
  closed_claim w closed =
      elim (begin-cases s.stale_seconds env.claim_now evt s.service_name w.ledger) [
        | inl (is_open, _, _, _, _, _) ↦ absurd (ground (arith, is_open, closed))
        | inr (same, inl (_, held)) ↦ absurd (ground (arith, held, closed))
        | inr (same, inr (status, answer, terminal, _)) ↦ (
          status,
          terminal,
          answer,
          λ i. record w { events = record_event evt w.events; ledger = same i },
        )
      ]

  acks_closed :
      (attempts : ℕ) (w : World P D) (status : Status)
      → is_terminal status ≡ true
      → on_status s env evt attempts w (stored status) ≡ (w, ack s env)
  acks_closed attempts w processed h = refl
  acks_closed attempts w dead_lettered h = refl
  acks_closed attempts w processing h = absurd (cc)
  acks_closed attempts w retrying h = absurd (cc)

  -- A message whose row is closed (PROCESSED or DEAD_LETTERED) is a redelivery: where the claim's
  -- transaction does not raise and the worker does not die behind it, the tables but for the
  -- record of the event stay as they are, the handler is not run, and the message is acked (an
  -- ack that raises escapes).
  pub redelivery_of_closed :
      (message : B) (w : World P D)
      → s.decode message ≡ some evt
      → env.claim_raises ≡ false
      → is_after_claim env.crash ≡ false
      → terminal_in (status_of (key_of evt s.service_name) w.ledger) ≡ true
      → process s env message w ≡ (
        record w { events = record_event evt w.events },
        if env.ack_raises then escaped else acked,
      )
  unfolding process process_event on_claim
  redelivery_of_closed message w decoded begun alive closed =
      let (status, terminal, answer, same) = closed_claim w closed in
      rw decoded (simp (begun, alive) (simp (answer, same) (acks_closed _ _ status terminal)))

  abbrev Closed : World P D → Type 0
  Closed w = terminal_in (status_of (key_of evt s.service_name) w.ledger) ≡ true

  close_dead-acked :
      (error : String) (w : World P D)
      → Claimed s evt w
      → (close_dead s env evt error w).1 ≡ acked
      → Closed (close_dead s env evt error w).0
  unfolding close_dead mark
  close_dead-acked error w claimed =
      let marked =
        status-fail env.end_now evt s.service_name (some env.elapsed) w.ledger s.error_limit error
          dead_lettered (key_of evt s.service_name) in
      λ h. ground (arith, h, marked, claimed, beq_self (key_of evt s.service_name))

  retry_later-not_acked :
      (error : String) (w : World P D) → (retry_later s env evt error w).1 ≢ acked
  unfolding retry_later
  retry_later-not_acked error w h = ground arith

  fail-acked :
      (error : String) (attempts : ℕ) (w : World P D)
      → Claimed s evt w
      → (fail s env evt error attempts w).1 ≡ acked
      → Closed (fail s env evt error attempts w).0
  unfolding fail
  fail-acked error attempts w claimed = elim (Bool-cases (leb s.max_attempts attempts)) [
    | inr more ↦ rw more (λ h. absurd (retry_later-not_acked error w h))
    | inl last ↦
        let row = dead_letter_of s evt error attempts in
        let w' = (capture_row s env row w).0 in
        let claimed' : Claimed s evt w' = rw ((capture_frame s env row w).2) claimed in
        rw last (elim (Bool-cases (capture_row s env row w).1) [
          | inl done ↦ rw done (close_dead-acked error w' claimed')
          | inr lost ↦ rw lost (λ h. absurd (retry_later-not_acked error w' h))
        ])
  ]

  result-acked :
      (attempts : ℕ) (w : World P D) (r : Handled P D)
      → Claimed s evt w
      → (attempt_result s env evt attempts w r).1 ≡ acked
      → Closed (attempt_result s env evt attempts w r).0
  unfolding finish_work
  result-acked attempts w (raised error) claimed = fail-acked error attempts w claimed
  result-acked attempts w (returned business out) claimed = elim (Option-cases env.commit_raises) [
    | inr lost ↦ rw lost.1 (fail-acked lost.0 attempts w claimed)
    | inl kept ↦
        let finished =
          status-finish env.end_now evt s.service_name (some env.elapsed) w.ledger
            (key_of evt s.service_name) in
        rw kept (
          unfold commit_work in
          λ _. rw finished (rw (beq_self (key_of evt s.service_name)) (rw claimed refl)))
  ]

  status-acked :
      (attempts : ℕ) (w : World P D) (status : ClaimStatus)
      → (status ≡ stored processing → Claimed s evt w)
      → ((st : Status) → status ≡ stored st → is_terminal st ≡ true → Closed w)
      → (on_status s env evt attempts w status).1 ≡ acked
      → Closed (on_status s env evt attempts w status).0
  unfolding attempt
  status-acked attempts w claim_blocked c t h = absurd (cc)
  status-acked attempts w unknown c t h = absurd (cc)
  status-acked attempts w (stored retrying) c t h = absurd (cc)
  status-acked attempts w (stored processed) c t h = t processed refl refl
  status-acked attempts w (stored dead_lettered) c t h = t dead_lettered refl refl
  status-acked attempts w (stored processing) c t h =
      result-acked attempts w (s.handler evt w.business) (c refl) h

  begun-acked :
      (w : World P D)
      → (on_claim s env evt (begin s env evt w).1 (begin s env evt w).0).1 ≡ acked
      → Closed (on_claim s env evt (begin s env evt w).1 (begin s env evt w).0).0
  unfolding on_claim begin
  begun-acked w =
      let (rows, claim) =
        begin_event_processing s.stale_seconds env.claim_now evt s.service_name w.ledger in
      let w' = record w { events = record_event evt w.events; ledger = rows } in
      elim (begin-cases s.stale_seconds env.claim_now evt s.service_name w.ledger) [
        | inl (_, answer, _, held, _, _) ↦
            status-acked claim.attempts w' claim.status (λ _. held)
              (λ st e t. absurd (ground (arith, answer, e, t)))
        | inr (same, inl (blocked, _)) ↦
            status-acked claim.attempts w' claim.status (λ e. absurd (cc (e, blocked)))
              (λ st e t. absurd (cc (e, blocked)))
        | inr (same, inr (status, answer, terminal, held)) ↦
            status-acked claim.attempts w' claim.status
              (λ e. absurd (ground (arith, e, answer, terminal)))
              (λ st e t. rw same (ground (arith, held, terminal)))
      ]

  event-acked :
      (w : World P D) → (process_event s env evt w).1 ≡ acked → Closed (process_event s env evt w).0
  unfolding process_event
  event-acked w = elim (Bool-cases env.claim_raises) [
    | inl lost ↦ simp lost (λ h. absurd (cc))
    | inr begun ↦ simp begun (elim (Bool-cases (is_after_claim env.crash)) [
      | inl gone ↦ simp gone (λ h. absurd (cc))
      | inr alive ↦ simp alive (begun-acked w)
    ])
  ]

module _ {P D B : Type 0} (s : Service P D B) (env : Faults) where
  -- What an ack stands for: the row of the event is closed, or, for bytes that do not decode, a
  -- dead letter with them is the last one recorded.
  abbrev pub AckIsSafe : B → World P D → Option (Envelope P) → World P D → Type 0
  AckIsSafe message w none w' =
      w'.dead_letters ≡ w.dead_letters ++ raw_dead_letter s env message ∷ []
  AckIsSafe message w (some evt) w' =
      terminal_in (status_of (key_of evt s.service_name) w'.ledger) ≡ true

  raw-acked :
      (message : B) (w : World P D)
      → (process_raw s env message w).1 ≡ acked
      → (process_raw s env message w).0.dead_letters
        ≡ w.dead_letters ++ raw_dead_letter s env message ∷ []
  unfolding process_raw capture_row
  raw-acked message w h = ground arith

  -- A message that is acked is never lost: its event's row is PROCESSED or DEAD_LETTERED then, or
  -- the bytes that did not decode are in the dead letters.
  pub acked_is_safe :
      (message : B) (w : World P D)
      → (process s env message w).1 ≡ acked
      → AckIsSafe message w (s.decode message) (process s env message w).0
  unfolding process
  acked_is_safe message w = by_code (s.decode message)
    where
      by_code :
          (decoded : Option (Envelope P))
          → (process_decoded s env message w decoded).1 ≡ acked
          → AckIsSafe message w decoded (process_decoded s env message w decoded).0
      by_code none = raw-acked message w
      by_code (some evt) = event-acked s env evt w
