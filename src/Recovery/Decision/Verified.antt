-- ===== src/Recovery/Decision/Verified.antt =====
-- The life of a recovery plan under verification: evidence windows in any order, with whatever
-- clocks, from a verification that has just been started.
use mathlib.Core.Path.{subst}
use k8s_ops.Prelude.{ℕ, none, some, List, [], ◌∷◌, map, ◌≡◌, refl, ◌⊎◌, inl, inr, In, here, there}
use k8s_ops.Recovery.Decision.{
  Verification, Window, DecisionStatus, pending, completed, failed, minimum_of, Plan, on_evidence,
  verify, or_zero,
}
use k8s_ops.Recovery.Decision.Stability.{Stands, Completes, evaluate-Next}

-- Between two windows: the persisted fields stand for a streak of windows seen so far, and a
-- completed plan has one that suffices, by some clock that a window was judged at.
record Sound (minimum cadence started : ℕ) (plan : Plan) (seen : List (Window × ℕ)) : Type 0 where
  same_minimum : minimum_of plan.verification ≡ minimum
  paced : plan.verification.cadence_seconds ≡ some cadence
  begun : plan.verification.started_at ≡ some started
  streak :
      plan.phase ≡ pending
      → (ws : List Window) × Stands cadence started plan.verification.healthy_since
          plan.verification.last_healthy_observed_at
          (or_zero plan.verification.distinct_evidence_count)
          ws
        × ((w : Window) → In w ws → In w (map (λ p. p.0) seen))
  done :
      plan.phase ≡ completed
      → (now : ℕ) × (ws : List Window) × Completes minimum cadence started now ws
        × In now (map (λ p. p.1) seen)
        × ((w : Window) → In w ws → In w (map (λ p. p.0) seen))

rev_onto : List (Window × ℕ) → List (Window × ℕ) → List (Window × ℕ)
rev_onto [] seen = seen
rev_onto (p ∷ rest) seen = rev_onto rest (p ∷ seen)

In-map_rev {ℓ} :
    {A : Type ℓ} (f : Window × ℕ → A) (x : A) (rest seen : List (Window × ℕ))
    → In x (map f (rev_onto rest seen))
    → In x (map f rest) ⊎ In x (map f seen)
unfolding rev_onto
In-map_rev f x [] seen i = inr i
In-map_rev f x (p ∷ rest) seen i = elim (In-map_rev f x rest (p ∷ seen) i) [
  | inl later ↦ inl (there later)
  | inr before ↦ split x before
]
  where
    split : (x : _) → In x (f p ∷ map f seen) → In x (f p ∷ map f rest) ⊎ In x (map f seen)
    split x here = inl here
    split x (there j) = inr j

In-rev {ℓ} :
    {A : Type ℓ} (f : Window × ℕ → A) (x : A) (rest : List (Window × ℕ))
    → In x (map f (rev_onto rest []))
    → In x (map f rest)
In-rev f x rest i = elim (In-map_rev f x rest [] i) [ inl j ↦ j | inr j ↦ elim j [ ] ]

module _ (minimum cadence started : ℕ) where
  pending-Sound :
      (v : Verification) (seen : List (Window × ℕ)) (e : Window) (now : ℕ)
      → Sound minimum cadence started (record { phase = pending; verification = v }) seen
      → Sound minimum cadence started
          (on_evidence (record { phase = pending; verification = v }) (e, now))
          ((e, now) ∷ seen)
  unfolding on_evidence
  pending-Sound v seen e now h =
      let (ws, stands, from) = h.streak refl in
      let (ws', stands', from', completes) =
        evaluate-Next v e now cadence started ws h.paced h.begun stands in
      let inside : (w : Window) → In w ws' → In w (map (λ p. p.0) ((e, now) ∷ seen)) =
        λ w i. grow w (from' w i) from in
      record {
        same_minimum = h.same_minimum;
        paced = h.paced;
        begun = h.begun;
        streak = λ _. (ws', stands', inside);
        done = λ c. (
          now,
          ws',
          subst (λ m. Completes m cadence started now ws') h.same_minimum (completes c),
          here,
          inside,
        );
      }
    where
      grow :
          (w : Window) {ws xs : List Window}
          → In w (e ∷ ws)
          → ((u : Window) → In u ws → In u xs)
          → In w (e ∷ xs)
      grow w here f = here
      grow w (there i) f = there (f w i)

  step-Sound :
      (phase : DecisionStatus) (v : Verification) (seen : List (Window × ℕ)) (e : Window) (now : ℕ)
      → Sound minimum cadence started (record { phase = phase; verification = v }) seen
      → Sound minimum cadence started
          (on_evidence (record { phase = phase; verification = v }) (e, now))
          ((e, now) ∷ seen)
  unfolding on_evidence
  step-Sound pending v seen e now h = pending-Sound v seen e now h
  step-Sound completed v seen e now h = record {
    same_minimum = h.same_minimum;
    paced = h.paced;
    begun = h.begun;
    streak = λ p. absurd (cc);
    done = λ c.
        let (at, ws, enough, clock, from) = h.done c in
        (at, ws, enough, there clock, λ w i. there (from w i));
  }
  step-Sound failed v seen e now h = record {
    same_minimum = h.same_minimum;
    paced = h.paced;
    begun = h.begun;
    streak = λ p. absurd (cc);
    done = λ c. absurd (cc);
  }

  run-Sound :
      (plan : Plan) (seen rest : List (Window × ℕ))
      → Sound minimum cadence started plan seen
      → Sound minimum cadence started (verify plan rest) (rev_onto rest seen)
  unfolding verify rev_onto
  run-Sound plan seen [] h = h
  run-Sound plan seen ((e, now) ∷ rest) h =
      run-Sound (on_evidence plan (e, now)) ((e, now) ∷ seen) rest
        (step-Sound plan.phase plan.verification seen e now h)

  -- For a plan whose verification has just started (no streak and count 0), with a known cadence
  -- and start: if any list of evidence windows and clocks completes it, then some of those windows
  -- form a streak that is long enough: all of them start after the verification did and pass every
  -- check, each starts later than the one before by at most one and a half cadences, they span at
  -- least the minimum of seconds, there are at least `minimum_distinct` of them, and the last one
  -- does not lie after the clock of one of the judgements.
  pub completed_needs_streak :
      (v : Verification) (windows : List (Window × ℕ))
      → minimum_of v ≡ minimum
      → v.cadence_seconds ≡ some cadence
      → v.started_at ≡ some started
      → v.healthy_since ≡ none
      → v.last_healthy_observed_at ≡ none
      → or_zero v.distinct_evidence_count ≡ 0
      → (verify (record { phase = pending; verification = v }) windows).phase ≡ completed
      → (now : ℕ) × (ws : List Window) × Completes minimum cadence started now ws
        × In now (map (λ p. p.1) windows)
        × ((w : Window) → In w ws → In w (map (λ p. p.0) windows))
  completed_needs_streak v windows m paced begun no_start no_last none_yet done =
      let start : Sound minimum cadence started (record { phase = pending; verification = v }) [] =
        record {
          same_minimum = m;
          paced = paced;
          begun = begun;
          streak = λ _. ([], inl (no_start, no_last, none_yet, refl), λ w i. elim i [ ]);
          done = λ c. absurd (cc);
        } in
      let (now, ws, enough, clock, from) =
        (run-Sound (record { phase = pending; verification = v }) [] windows start).done done in
      (
        now,
        ws,
        enough,
        In-rev (λ p. p.1) now windows clock,
        λ w i. In-rev (λ p. p.0) w windows (from w i),
      )
