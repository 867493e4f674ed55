-- ===== src/Recovery/Checks/Laws.antt =====
-- The verdicts of `verification_checks` in domains/rca/recovery_verification.py taken together.
use k8s_ops.Prelude.{
  ℕ, String, Bool, true, Option, none, some, List, ◌≡◌, refl, ◌⊎◌, inl, inr, arith,
}
use k8s_ops.Recovery.Observed.{Floats, Deployment, Workload, Session, Target, Observed, Expected}
use k8s_ops.Recovery.Continuity.{
  protected_workloads_unchanged, protected_active_sessions_maintained,
}
use k8s_ops.Recovery.Alerts.{Alert, Before, alert_checks}
use k8s_ops.Recovery.Decision.Stability.{AllTrue}
use k8s_ops.Recovery.Checks.{
  verification_checks, equal_if_known, deployment_of, protected_count, ratio_verdict,
  unavailable_verdict, if_protected,
}

-- The deployment serves as the plan expects: all counts are the expected replicas, no replica is
-- unavailable (a count of 0, or one that the API left out), and its generation is the observed one.
pub record Serves (d : Deployment) (replicas generation : ℕ) : Type 0 where
  pub desired : d.desired_replicas ≡ some replicas
  pub ready : d.ready_replicas ≡ some replicas
  pub updated : d.updated_replicas ≡ some replicas
  pub available : d.available_replicas ≡ some replicas
  pub unavailable :
      (d.unavailable_replicas ≡ some 0)
      ⊎ ((d.unavailable_replicas ≡ none) × (d.unavailable_replicas_omitted ≡ true))
  pub generations : (d.generation ≡ some generation) × (d.observed_generation ≡ some generation)

known_equal :
    (a b : Option ℕ) → equal_if_known a b ≡ some true → (n : ℕ) × (a ≡ some n) × (b ≡ some n)
known_equal none none h = absurd (cc)
known_equal none (some b) h = absurd (cc)
known_equal (some a) none h = absurd (cc)
known_equal (some a) (some b) h = (a, refl, ground (arith, h))

zero_unavailable :
    (d : Deployment) (replicas u : Option ℕ)
    → unavailable_verdict d replicas u ≡ some true
    → (u ≡ some 0) ⊎ ((u ≡ none) × (d.unavailable_replicas_omitted ≡ true))
zero_unavailable d replicas (some u) h = inl (ground (arith, h))
zero_unavailable d none none h = absurd (cc)
zero_unavailable d (some r) none h = inr (refl, ground (arith, h))

serves :
    (o : Option Deployment) (replicas : Option ℕ)
    → equal_if_known (deployment_of o).desired_replicas replicas ≡ some true
    → equal_if_known (deployment_of o).ready_replicas replicas ≡ some true
    → equal_if_known (deployment_of o).updated_replicas replicas ≡ some true
    → equal_if_known (deployment_of o).available_replicas replicas ≡ some true
    → unavailable_verdict (deployment_of o) replicas (deployment_of o).unavailable_replicas
      ≡ some true
    → equal_if_known (deployment_of o).observed_generation (deployment_of o).generation ≡ some true
    → (d : Deployment) × (r : ℕ) × (generation : ℕ) × (o ≡ some d)
      × (replicas ≡ some r)
      × Serves d r generation
serves none replicas desired ready updated available unavailable generation = absurd (cc)
serves (some d) replicas desired ready updated available unavailable generation =
    let (r, desired_r, known) = known_equal d.desired_replicas replicas desired in
    let (r1, ready_r, known1) = known_equal d.ready_replicas replicas ready in
    let (r2, updated_r, known2) = known_equal d.updated_replicas replicas updated in
    let (r3, available_r, known3) = known_equal d.available_replicas replicas available in
    let (g, observed, generated) = known_equal d.observed_generation d.generation generation in
    (
      d,
      r,
      g,
      refl,
      known,
      record {
        desired = desired_r;
        ready = cc (ready_r, known, known1);
        updated = cc (updated_r, known, known2);
        available = cc (available_r, known, known3);
        unavailable = zero_unavailable d replicas d.unavailable_replicas unavailable;
        generations = (generated, observed);
      },
    )

module _ (fl : Floats) where
  ratio_known :
      (a b : Option fl.F)
      → ratio_verdict fl a b ≡ some true
      → (x : fl.F) × (y : fl.F) × (a ≡ some x) × (b ≡ some y) × (fl.le x y ≡ true)
  ratio_known none none h = absurd (cc)
  ratio_known none (some y) h = absurd (cc)
  ratio_known (some x) none h = absurd (cc)
  ratio_known (some x) (some y) h = (x, y, refl, refl, ground (arith, h))

protected_or_none :
    (n : ℕ) (a b : Option Bool)
    → if_protected n a ≡ some true
    → if_protected n b ≡ some true
    → (n ≡ 0) ⊎ ((a ≡ some true) × (b ≡ some true))
protected_or_none n a b h k = grind arith

module _ (fl : Floats) (casefold : String → String) (after : Observed fl.F)
    (alerts : List (Alert fl.F)) (before : Before) (target : Target) (expected : Expected fl.F)
    (workloads : Option (List Workload)) (sessions : Option (List (Session fl.F)))
    (started : Option ℕ) where
  -- A window that passes every check: the failure ratio is at most the known maximum, the
  -- deployment is there and serves with the expected replicas, where workloads are protected they
  -- are unchanged and their sessions are maintained, and the alert is resolved and has not refired.
  pub all_checks_mean_recovered :
      AllTrue (
        verification_checks fl casefold after alerts before target expected workloads sessions
          started)
      → ((ratio : fl.F) × (most : fl.F) × (after.failure_ratio ≡ some ratio)
          × (expected.failure_ratio_max ≡ some most)
          × (fl.le ratio most ≡ true))
        × ((d : Deployment) × (replicas : ℕ) × (generation : ℕ) × (after.deployment ≡ some d)
            × (expected.replicas ≡ some replicas)
            × Serves d replicas generation)
        × ((protected_count expected.protected_workloads ≡ 0)
            ⊎ ((protected_workloads_unchanged workloads after.protected_workloads ≡ some true)
                × (protected_active_sessions_maintained fl casefold sessions
                      after.protected_active_sessions
                    ≡ some true)))
        × (alert_checks casefold alerts before target started ≡ (some true, some true))
  unfolding verification_checks
  all_checks_mean_recovered
        (
          ratio,
          (
            _,
            (
              desired,
              (
                ready,
                (
                  updated,
                  (
                    available,
                    (
                      unavailable,
                      (generation, (_, (_, (same, (_, (kept, (resolved, (quiet, _)))))))),
                    ),
                  ),
                ),
              ),
            ),
          ),
        ) =
      (
        ratio_known fl after.failure_ratio expected.failure_ratio_max ratio,
        serves after.deployment expected.replicas desired ready updated available unavailable
            generation,
        protected_or_none (protected_count expected.protected_workloads)
            (protected_workloads_unchanged workloads after.protected_workloads)
            (protected_active_sessions_maintained fl casefold sessions
              after.protected_active_sessions)
            same kept,
        λ i. (resolved i, quiet i),
      )
