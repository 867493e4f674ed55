-- ===== src/Runtime/Processor/Atomicity.antt =====
-- Lemmas on what `EventProcessor.process` of packages/runtime/worker.py commits.
use k8s_ops.Prelude.{
  ℕ, String, false, some, ◌≡◌, refl, ◌≢◌, ◌⊎◌, inl, inr, arith, List, ◌==◌, pair_eq, string_eq,
  beq_self, beq_true, ◌↔◌, Option-cases, Bool-cases, leb, ◌∙◌,
}
use k8s_ops.Runtime.Envelope.{Envelope}
use k8s_ops.Runtime.Ledger.{
  Status, processing, processed, retrying, dead_lettered, Key, key_of, ClaimStatus, stored,
  claim_blocked, unknown, Claim,
}
use k8s_ops.Runtime.Ledger.Laws.{status_of, terminal_in, status-finish, status-fail}
use k8s_ops.Runtime.World.{
  World, Handled, returned, raised, Service, Faults, DeadLetter, is_after_capture,
}
use k8s_ops.Runtime.Processor.{
  stage_events, capture_row, mark, retry_later, close_dead, fail, commit_work, finish_work, attempt,
  attempt_result, on_status, on_claim, dead_letter_of,
}

module _ {P D B : Type 0} (s : Service P D B) where
  -- Neither business writes nor staged events, and the same rows are PROCESSED.
  pub record Unchanged (w w' : World P D) : Type 0 where
    pub business : w'.business ≡ w.business
    pub outbox : w'.outbox ≡ w.outbox
    pub same_processed :
        (k : Key)
        → (status_of k w'.ledger ≡ some processed) ↔ (status_of k w.ledger ≡ some processed)

  -- The handler's writes, its events and the PROCESSED row together, on an open row.
  pub record Committed (evt : Envelope P) (w w' : World P D) : Type 0 where
    pub business_after : D
    pub emitted : List (Envelope P)
    pub handled : s.handler evt w.business ≡ returned business_after emitted
    pub business : w'.business ≡ business_after
    pub outbox : w'.outbox ≡ stage_events s w.outbox emitted
    pub was_open : terminal_in (status_of (key_of evt s.service_name) w.ledger) ≡ false
    pub is_processed : status_of (key_of evt s.service_name) w'.ledger ≡ some processed
    pub others :
        (k : Key)
        → (key_of evt s.service_name == k) ≡ false
        → status_of k w'.ledger ≡ status_of k w.ledger

  pub Unchanged-refl : (w : World P D) → Unchanged w w
  Unchanged-refl w = record {
    business = refl;
    outbox = refl;
    same_processed = λ k. (λ e. e, λ e. e);
  }

  pub Unchanged-trans : (u v w : World P D) → Unchanged u v → Unchanged v w → Unchanged u w
  Unchanged-trans u v w a b = record {
    business = b.business ∙ a.business;
    outbox = b.outbox ∙ a.outbox;
    same_processed = λ k. (
      λ e. (a.same_processed k).0 ((b.same_processed k).0 e),
      λ e. (b.same_processed k).1 ((a.same_processed k).1 e),
    );
  }

  pub capture_frame :
      (env : Faults) (row : DeadLetter P) (w : World P D)
      → ((capture_row s env row w).0.business ≡ w.business)
        × ((capture_row s env row w).0.outbox ≡ w.outbox)
        × ((capture_row s env row w).0.ledger ≡ w.ledger)
  unfolding capture_row
  capture_frame env row w = ground arith

  pub capture-Unchanged :
      (env : Faults) (row : DeadLetter P) (w : World P D) → Unchanged w (capture_row s env row w).0
  capture-Unchanged env row w = record {
    business = (capture_frame env row w).0;
    outbox = (capture_frame env row w).1;
    same_processed = λ k. rw ((capture_frame env row w).2) (λ e. e, λ e. e);
  }

  abbrev pub Claimed : Envelope P → World P D → Type 0
  Claimed evt w = status_of (key_of evt s.service_name) w.ledger ≡ some processing

  mark-Unchanged :
      (env : Faults) (evt : Envelope P) (error : String) (status : Status) (w : World P D)
      → status ≢ processed
      → Claimed evt w
      → Unchanged w (mark s env evt error status w)
  unfolding mark
  mark-Unchanged env evt error status w h claimed = record {
    business = refl;
    outbox = refl;
    same_processed = λ k.
        let marked =
          status-fail env.end_now evt s.service_name (some env.elapsed) w.ledger s.error_limit error
            status k in
        let same = beq_true (key_of evt s.service_name) k in
        (
          λ e. ground (arith, e, h, marked, claimed),
          λ e. ground (arith, e, h, marked, same, claimed),
        );
  }

  retry_later-Unchanged :
      (env : Faults) (evt : Envelope P) (error : String) (w : World P D)
      → Claimed evt w
      → Unchanged w (retry_later s env evt error w).0
  unfolding retry_later
  retry_later-Unchanged env evt error w c = elim (Bool-cases env.mark_raises) [
    | inl lost ↦ rw lost (Unchanged-refl w)
    | inr kept ↦ rw kept (mark-Unchanged env evt error retrying w (λ e. cc) c)
  ]

  close_dead-Unchanged :
      (env : Faults) (evt : Envelope P) (error : String) (w : World P D)
      → Claimed evt w
      → Unchanged w (close_dead s env evt error w).0
  unfolding close_dead
  close_dead-Unchanged env evt error w c = elim (Bool-cases (is_after_capture env.crash)) [
    | inl gone ↦ rw gone (Unchanged-refl w)
    | inr alive ↦ rw alive (elim (Bool-cases env.mark_raises) [
      | inl lost ↦ rw lost (Unchanged-refl w)
      | inr kept ↦ rw kept (mark-Unchanged env evt error dead_lettered w (λ e. cc) c)
    ])
  ]

  fail-Unchanged :
      (env : Faults) (evt : Envelope P) (error : String) (attempts : ℕ) (w : World P D)
      → Claimed evt w
      → Unchanged w (fail s env evt error attempts w).0
  unfolding fail
  fail-Unchanged env evt error attempts w c = elim (Bool-cases (leb s.max_attempts attempts)) [
    | inr more ↦ rw more (retry_later-Unchanged env evt error w c)
    | inl last ↦ rw last (
        let row = dead_letter_of s evt error attempts in
        let w' = (capture_row s env row w).0 in
        let c' : Claimed evt w' = rw ((capture_frame env row w).2) c in
        elim (Bool-cases (capture_row s env row w).1) [
          | inl ok ↦ rw ok (
              Unchanged-trans w w' _ (capture-Unchanged env row w)
                (close_dead-Unchanged env evt error w' c'))
          | inr lost ↦ rw lost (
              Unchanged-trans w w' _ (capture-Unchanged env row w)
                (retry_later-Unchanged env evt error w' c'))
        ])
  ]

  commit-Committed :
      (env : Faults) (evt : Envelope P) (business : D) (out : List (Envelope P)) (w : World P D)
      → s.handler evt w.business ≡ returned business out
      → status_of (key_of evt s.service_name) w.ledger ≡ some processing
      → Committed evt w (commit_work s env evt business out w)
  unfolding commit_work
  commit-Committed env evt business out w handled claimed =
      let finished = status-finish env.end_now evt s.service_name (some env.elapsed) w.ledger in
      record {
        business_after = business;
        emitted = out;
        handled = handled;
        business = refl;
        outbox = refl;
        was_open = rw claimed refl;
        is_processed = rw finished (rw (beq_self (key_of evt s.service_name)) (rw claimed refl));
        others = λ k e. rw finished (rw e refl);
      }

  attempt-atomic :
      (env : Faults) (evt : Envelope P) (attempts : ℕ) (w : World P D)
      → status_of (key_of evt s.service_name) w.ledger ≡ some processing
      → Unchanged w (attempt s env evt attempts w).0
        ⊎ Committed evt w (attempt s env evt attempts w).0
  unfolding attempt finish_work
  attempt-atomic env evt attempts w claimed = handled (s.handler evt w.business) refl
    where
      handled :
          (r : Handled P D)
          → s.handler evt w.business ≡ r
          → Unchanged w (attempt_result s env evt attempts w r).0
            ⊎ Committed evt w (attempt_result s env evt attempts w r).0
      handled (raised error) e = inl (fail-Unchanged env evt error attempts w claimed)
      handled (returned business out) e = elim (Option-cases env.commit_raises) [
        | inr lost ↦ rw lost.1 (inl (fail-Unchanged env evt lost.0 attempts w claimed))
        | inl kept ↦ rw kept (inr (commit-Committed env evt business out w e claimed))
      ]

  pub on_claim-atomic :
      (env : Faults) (evt : Envelope P) (claim : Claim) (w : World P D)
      → (claim.status ≡ stored processing
          → status_of (key_of evt s.service_name) w.ledger ≡ some processing)
      → Unchanged w (on_claim s env evt claim w).0
        ⊎ ((claim.status ≡ stored processing) × Committed evt w (on_claim s env evt claim w).0)
  unfolding on_claim
  on_claim-atomic env evt claim w claimed = by_status claim.status refl
    where
      by_status :
          (status : ClaimStatus)
          → claim.status ≡ status
          → Unchanged w (on_status s env evt claim.attempts w status).0
            ⊎ ((claim.status ≡ stored processing)
                × Committed evt w (on_status s env evt claim.attempts w status).0)
      by_status claim_blocked e = inl (Unchanged-refl w)
      by_status unknown e = inl (Unchanged-refl w)
      by_status (stored processed) e = inl (Unchanged-refl w)
      by_status (stored dead_lettered) e = inl (Unchanged-refl w)
      by_status (stored retrying) e = inl (Unchanged-refl w)
      by_status (stored processing) e = elim (attempt-atomic env evt claim.attempts w (claimed e)) [
        | inl none_of_it ↦ inl none_of_it
        | inr all_of_it ↦ inr (e, all_of_it)
      ]
