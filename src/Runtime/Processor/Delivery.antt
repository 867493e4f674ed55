-- ===== src/Runtime/Processor/Delivery.antt =====
-- One delivery as a whole: `EventProcessor.process` from the claim to the settlement.
use k8s_ops.Prelude.{
  false, Option, none, some, ◌≡◌, refl, ◌⊎◌, inl, inr, arith, ◌==◌, pair_eq, string_eq, Bool-cases,
  ◌∙◌, beq_true,
}
use k8s_ops.Runtime.Envelope.{Envelope}
use k8s_ops.Runtime.Ledger.{Key, key_of, Claim, stored, processing, Rows, begin_event_processing}
use k8s_ops.Runtime.Ledger.Laws.{
  status_of, status_of-lookup, terminal_in, begin-cases, Granted, Refused,
}
use k8s_ops.Runtime.World.{World, Service, Faults, is_after_claim}
use k8s_ops.Runtime.Processor.{begin, process_event, process, process_decoded, raw_dead_letter}
use k8s_ops.Runtime.Processor.Atomicity.{
  Unchanged, Committed, Unchanged-refl, Unchanged-trans, on_claim-atomic, capture-Unchanged,
}

module _ {P D B : Type 0} (s : Service P D B) where
  -- What `begin` gives: the claim, and rows that differ from the old ones in no PROCESSED row.
  record Begun (evt : Envelope P) (w w' : World P D) (claim : Claim) : Type 0 where
    unchanged : Unchanged s w w'
    others :
        (k : Key)
        → (key_of evt s.service_name == k) ≡ false
        → status_of k w'.ledger ≡ status_of k w.ledger
    granted :
        claim.status ≡ stored processing
        → (status_of (key_of evt s.service_name) w'.ledger ≡ some processing)
          × (terminal_in (status_of (key_of evt s.service_name) w.ledger) ≡ false)

  begin-Begun :
      (env : Faults) (evt : Envelope P) (w : World P D)
      → Begun evt w (begin s env evt w).0 (begin s env evt w).1
  unfolding begin
  begin-Begun env evt w =
      by_cases (begin-cases s.stale_seconds env.claim_now evt s.service_name w.ledger)
    where
      answer : Rows × Claim
      answer = begin_event_processing s.stale_seconds env.claim_now evt s.service_name w.ledger

      by_cases :
          Granted s.stale_seconds env.claim_now evt s.service_name w.ledger answer
            ⊎ Refused s.stale_seconds env.claim_now evt s.service_name w.ledger answer
          → Begun evt w (begin s env evt w).0 (begin s env evt w).1
      by_cases (inl (was_open, _, _, claimed, _, others)) = record {
        unchanged = record {
          business = refl;
          outbox = refl;
          same_processed = λ k. elim (Bool-cases (key_of evt s.service_name == k)) [
            | inl same ↦
                let own = beq_true (key_of evt s.service_name) k same in
                (λ e. absurd (cc (own, claimed, e)), λ e. absurd (ground (arith, own, was_open, e)))
            | inr other ↦
                rw (status_of-lookup k answer.0 w.ledger (others k other)) (λ e. e, λ e. e)
          ];
        };
        others = λ k e. status_of-lookup k answer.0 w.ledger (others k e);
        granted = λ _. (claimed, was_open);
      }
      by_cases (inr (same, why)) = record {
        unchanged = record {
          business = refl;
          outbox = refl;
          same_processed = λ k. rw same (λ e. e, λ e. e);
        };
        others = λ k e. rw same;
        granted = λ e. elim why [
          | inl (blocked, _) ↦ absurd (cc)
          | inr (status, closed, terminal, _) ↦ absurd (ground arith)
        ];
      }

  -- a commit on the rows that the claim left is a commit on the rows before it
  Begun-Committed :
      (evt : Envelope P) (w w' w'' : World P D) (claim : Claim)
      → Begun evt w w' claim
      → claim.status ≡ stored processing
      → Committed s evt w' w''
      → Committed s evt w w''
  Begun-Committed evt w w' w'' claim b e c = record {
    business_after = c.business_after;
    emitted = c.emitted;
    handled = rw (← b.unchanged.business) c.handled;
    business = c.business;
    outbox = c.outbox ∙ rw b.unchanged.outbox;
    was_open = (b.granted e).1;
    is_processed = c.is_processed;
    others = λ k h. c.others k h ∙ b.others k h;
  }

  event-atomic :
      (env : Faults) (evt : Envelope P) (w : World P D)
      → Unchanged s w (process_event s env evt w).0
        ⊎ Committed s evt w (process_event s env evt w).0
  unfolding process_event
  event-atomic env evt w = elim (Bool-cases env.claim_raises) [
    | inl lost ↦ rw lost (inl (Unchanged-refl s w))
    | inr begun ↦ simp begun (
        let b = begin-Begun env evt w in
        let w' = (begin s env evt w).0 in
        elim (Bool-cases (is_after_claim env.crash)) [
          | inl gone ↦ rw gone (inl b.unchanged)
          | inr alive ↦
              simp alive
                (elim (on_claim-atomic s env evt (begin s env evt w).1 w' (λ e. (b.granted e).0)) [
                  | inl kept ↦ inl (Unchanged-trans s w w' _ b.unchanged kept)
                  | inr (e, c) ↦ inr (Begun-Committed evt w w' _ (begin s env evt w).1 b e c)
                ])
        ])
  ]

  -- Every delivery either leaves the business state, the outbox and the set of PROCESSED rows as
  -- they are, or its message decodes to an event whose row was open, and the handler's writes, the
  -- staged events and the PROCESSED row are committed together.
  pub process-atomic :
      (env : Faults) (message : B) (w : World P D)
      → Unchanged s w (process s env message w).0
        ⊎ ((evt : Envelope P) × (s.decode message ≡ some evt)
            × Committed s evt w (process s env message w).0)
  unfolding process
  process-atomic env message w = by_code (s.decode message) refl
    where
      by_code :
          (decoded : Option (Envelope P))
          → s.decode message ≡ decoded
          → Unchanged s w (process_decoded s env message w decoded).0
            ⊎ ((evt : Envelope P) × (s.decode message ≡ some evt)
                × Committed s evt w (process_decoded s env message w decoded).0)
      by_code none e = inl (capture-Unchanged s env (raw_dead_letter s env message) w)
      by_code (some evt) e = elim (event-atomic env evt w) [
        | inl kept ↦ inl kept
        | inr c ↦ inr (evt, e, c)
      ]
