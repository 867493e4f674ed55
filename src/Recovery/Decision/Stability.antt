-- ===== src/Recovery/Decision/Stability.antt =====
-- The streak of healthy evidence windows that `evaluate_recovery_evidence` of
-- domains/rca/recovery_verification.py and the worker's bookkeeping keep together.
use k8s_ops.Prelude.{
  ℕ, ◌+◌, ◌-◌, ◌*◌, ◌≤◌, ◌<◌, String, Bool, true, false, ◌||◌, Option, none, some, ◌==◌, string_eq,
  List, [], ◌∷◌, any, leb, eqb, ◌≡◌, refl, ◌⊎◌, inl, inr, arith, Bool-cases, Option-cases, In, here,
  there, ◌≢◌, not, ◌&&◌, if◌then◌else◌,
}
use k8s_ops.Recovery.Decision.{
  Verification, Window, Decision, DecisionStatus, pending, completed, failed, second, minimum_of,
  is_false, is_missing, minimum_distinct, failed_checks, missing_checks, is_stale, gap_breaks,
  judge, stabilize, fresh_window, unhealthy, keeping, forgetting, evaluate_recovery_evidence,
  or_zero, deadline_passed, verification_evidence_missing, verification_regressed,
  verification_window_expired, duplicate_evidence_window, stale_evidence_window, ReasonCode,
}

-- every check of a window has the verdict true
abbrev pub AllTrue : List (String × Option Bool) → Type 0
AllTrue [] = Unit
AllTrue ((name, verdict) ∷ checks) = (verdict ≡ some true) × AllTrue checks

-- the window starts at `t`, after the verification did, and passes all its checks
pub record IsHealthy (started : ℕ) (e : Window) (t : ℕ) : Type 0 where
  pub starts : e.window_start ≡ some t
  pub after_start : started ≤ t
  pub passes : AllTrue e.checks

-- A streak from `a` to `b` of `n` healthy windows, the newest first: each starts after the one
-- before it, and at most one and a half cadences after it.
pub data Streak (cadence started : ℕ) : ℕ → ℕ → ℕ → List Window → Type 0 where
  first : (e : Window) (t : ℕ) → IsHealthy started e t → Streak cadence started t t 1 (e ∷ [])
  next :
      {a b n m : ℕ} {ws : List Window} (e : Window) (t : ℕ)
      → Streak cadence started a b n ws
      → IsHealthy started e t
      → b < t
      → 2 * (t - b) ≤ 3 * cadence * second
      → m ≡ n + 1
      → Streak cadence started a t m (e ∷ ws)

AllTrue-of_checks :
    (checks : List (String × Option Bool))
    → any (λ c. is_false c.1) checks ≡ false
    → any (λ c. is_missing c.1) checks ≡ false
    → AllTrue checks
AllTrue-of_checks [] f m = tt
AllTrue-of_checks ((name, some true) ∷ checks) f m = (refl, AllTrue-of_checks checks f m)
AllTrue-of_checks ((name, some false) ∷ checks) f m = absurd (cc)
AllTrue-of_checks ((name, none) ∷ checks) f m = absurd (cc)

-- What the persisted fields stand for: nothing yet, or a streak.
abbrev pub Stands : ℕ → ℕ → Option ℕ → Option ℕ → ℕ → List Window → Type 0
Stands cadence started healthy last count ws =
    (healthy ≡ none) × (last ≡ none) × (count ≡ 0) × (ws ≡ [])
    ⊎ ((a : ℕ) × (b : ℕ) × (healthy ≡ some a)
        × (last ≡ some b)
        × Streak cadence started a b count ws)

-- The streak that a completion needs.
abbrev pub Completes : ℕ → ℕ → ℕ → ℕ → List Window → Type 0
Completes minimum cadence started now ws =
    (a : ℕ) × (b : ℕ) × (n : ℕ) × Streak cadence started a b n ws
    × (minimum * second ≤ b - a)
    × (minimum_distinct minimum cadence ≤ n)
    × (b ≤ now)

-- the two tests of a completion
enough_of_completed :
    (x y m n : ℕ) (expired : Bool)
    → (if leb x y && leb m n then completed else if expired then failed else pending) ≡ completed
    → (x ≤ y) × (m ≤ n)
enough_of_completed x y m n expired h = ground arith

module _ (v : Verification) (e : Window) (now cadence started : ℕ) where
  -- a decision and the windows of the streak that it leaves, from those before it
  abbrev pub Next : List Window → Decision → Type 0
  Next ws d =
      (ws' : List Window) × Stands cadence started d.healthy_since d.last_healthy_observed_at
        d.distinct_evidence_count ws'
      × ((w : Window) → In w ws' → In w (e ∷ ws))
      × (d.status ≡ completed → Completes (minimum_of v) cadence started now ws')

  judge-Next :
      (ws ws' : List Window) (a b n : ℕ)
      → Streak cadence started a b n ws'
      → ((w : Window) → In w ws' → In w (e ∷ ws))
      → b ≤ now
      → Next ws (judge v e now cadence b a n)
  judge-Next ws ws' a b n streak from past = (
    ws',
    inr (a, b, refl, refl, streak),
    from,
    λ h.
        let (long, many) =
          enough_of_completed (minimum_of v * second) (b - a)
            (minimum_distinct (minimum_of v) cadence) n (deadline_passed v.deadline_at now) h in
        (a, b, n, streak, long, many, past),
  )

  stabilize-Next :
      (ws : List Window) (t : ℕ)
      → IsHealthy started e t
      → t ≤ now
      → Stands cadence started v.healthy_since v.last_healthy_observed_at
          (or_zero v.distinct_evidence_count)
          ws
      → Next ws (stabilize v e now cadence t)
  stabilize-Next ws t healthy past (inl (no_start, no_last, none_yet, _)) =
      simp (no_start, no_last, none_yet)
        (judge-Next ws (e ∷ []) t t 1 (first e t healthy) (λ w. only w) past)
    where
      only : (w : Window) → In w (e ∷ []) → In w (e ∷ ws)
      only w here = here
      only w (there i) = elim i [ ]
  stabilize-Next ws t healthy past (inr (a, b, start, last, streak)) =
      simp (start, last)
        (elim (Bool-cases (gap_breaks cadence (some b) t)) [
          | inl broken ↦
              simp broken (judge-Next ws (e ∷ []) t t 1 (first e t healthy) (λ w. only w) past)
          | inr steady ↦ simp steady (
              judge-Next ws (e ∷ ws) a t _
                (next e t streak healthy (ground arith) (ground arith) refl) (λ w i. i) past)
        ])
    where
      only : (w : Window) → In w (e ∷ []) → In w (e ∷ ws)
      only w here = here
      only w (there i) = elim i [ ]

  forgets :
      (ws : List Window) (status : DecisionStatus) (reason : ReasonCode)
      → status ≢ completed
      → Next ws (forgetting v e status reason)
  forgets ws status reason open_still =
      ([], inl (refl, refl, refl, refl), λ w i. elim i [ ], λ h. absurd (open_still h))

  keeps :
      (ws : List Window) (reason : ReasonCode)
      → Stands cadence started v.healthy_since v.last_healthy_observed_at
          (or_zero v.distinct_evidence_count)
          ws
      → Next ws (keeping v reason)
  keeps ws reason stands = (ws, stands, λ w i. there i, λ h. absurd (cc))

  unhealthy-Next : (ws : List Window) → Next ws (unhealthy v e now)
  unhealthy-Next ws = elim (Bool-cases (deadline_passed v.deadline_at now)) [
    | inl over ↦ simp over (forgets ws failed verification_window_expired (λ h. cc))
    | inr in_time ↦ simp in_time (
        forgets ws pending
          (if failed_checks e then verification_regressed else verification_evidence_missing)
          (λ h. cc))
  ]

  fresh-Next :
      (ws : List Window) (t : ℕ)
      → v.cadence_seconds ≡ some cadence
      → e.window_start ≡ some t
      → started ≤ t
      → t ≤ now
      → Stands cadence started v.healthy_since v.last_healthy_observed_at
          (or_zero v.distinct_evidence_count)
          ws
      → Next ws (fresh_window v e now t)
  fresh-Next ws t paced at from past stands =
      elim (Bool-cases (failed_checks e || missing_checks e)) [
        | inl bad ↦ simp bad (unhealthy-Next ws)
        | inr good ↦
            simp (good, paced)
              (elim (Bool-cases (eqb cadence 0)) [
                | inl zero_cadence ↦
                    simp zero_cadence (forgets ws pending verification_evidence_missing (λ h. cc))
                | inr positive ↦ simp positive (
                    stabilize-Next ws t
                      (record {
                        starts = at;
                        after_start = from;
                        passes =
                            AllTrue-of_checks e.checks
                              (neither (failed_checks e) (missing_checks e) good).0
                              (neither (failed_checks e) (missing_checks e) good).1;
                      })
                      past stands)
              ])
      ]
    where
      neither : (x y : Bool) → (x || y) ≡ false → (x ≡ false) × (y ≡ false)
      neither x y h = ground arith

  pub evaluate-Next :
      (ws : List Window)
      → v.cadence_seconds ≡ some cadence
      → v.started_at ≡ some started
      → Stands cadence started v.healthy_since v.last_healthy_observed_at
          (or_zero v.distinct_evidence_count)
          ws
      → Next ws (evaluate_recovery_evidence v e now)
  unfolding evaluate_recovery_evidence
  evaluate-Next ws paced begun stands =
      elim (Bool-cases (not (e.evidence_key == "") && (e.evidence_key == v.last_evidence_key))) [
        | inl known ↦ simp known (keeps ws duplicate_evidence_window stands)
        | inr new ↦ simp new (elim (Option-cases e.window_start) [
          | inl unknown_start ↦ simp unknown_start (keeps ws stale_evidence_window stands)
          | inr (t, at) ↦
              simp (at, begun)
                (elim (Bool-cases (is_stale (some t) (some started) now)) [
                  | inl stale ↦ simp stale (keeps ws stale_evidence_window stands)
                  | inr current ↦
                      simp current (fresh-Next ws t paced at (ground arith) (ground arith) stands)
                ])
        ])
      ]

expired_deadline :
    (deadline_at : Option ℕ) (now : ℕ)
    → deadline_passed deadline_at now ≡ true
    → (deadline : ℕ) × (deadline_at ≡ some deadline) × (deadline ≤ now)
expired_deadline none now h = absurd (cc)
expired_deadline (some deadline) now h = (deadline, refl, ground (arith, h))

-- A decision is `failed` only where the deadline is known and the clock has reached it, and then
-- the reason that it gives is the expired window.
pub failed_means_expired :
    (v : Verification) (e : Window) (now : ℕ)
    → (evaluate_recovery_evidence v e now).status ≡ failed
    → ((deadline : ℕ) × (v.deadline_at ≡ some deadline) × (deadline ≤ now))
      × ((evaluate_recovery_evidence v e now).reason_code ≡ verification_window_expired)
unfolding evaluate_recovery_evidence
failed_means_expired v e now h =
    (expired_deadline v.deadline_at now (ground (arith, h)), ground (arith, h))
