-- ===== src/Recovery/Checks.antt =====
-- `verification_checks` of domains/rca/recovery_verification.py: the fifteen verdicts on one
-- evidence window, each true, false or missing.
pub mod Laws
use k8s_ops.Prelude.{
  ℕ, String, Bool, true, false, not, ◌&&◌, ◌||◌, Option, none, some, List, [], ◌∷◌, if◌then◌else◌,
  leb, ltb, eqb, length,
}
use k8s_ops.Recovery.Observed.{
  Floats, Deployment, no_deployment, Workload, Session, Target, Observed, Expected,
}
use k8s_ops.Recovery.Continuity.{
  protected_workloads_unchanged, protected_active_sessions_maintained,
}
use k8s_ops.Recovery.Alerts.{Alert, Before, alert_checks}

-- `a == b if a is not None and b is not None else None`
abbrev pub equal_if_known : Option ℕ → Option ℕ → Option Bool
equal_if_known (some a) (some b) = some (eqb a b)
equal_if_known _ _ = none

abbrev pub is_value : Option ℕ → ℕ → Bool
is_value none n = false
is_value (some m) n = eqb m n

abbrev pub is_known : Option ℕ → Bool
is_known none = false
is_known (some _) = true

abbrev pub at_least : Option ℕ → Option ℕ → Bool
at_least (some observed) (some generation) = leb generation observed
at_least _ _ = false

abbrev pub deployment_of : Option Deployment → Deployment
deployment_of none = no_deployment
deployment_of (some d) = d

-- An `unavailable` that the API left out stands for 0 only where every other count is there.
abbrev pub omitted_means_zero : Deployment → Option ℕ → Bool
omitted_means_zero d none = false
omitted_means_zero d (some replicas) =
    d.unavailable_replicas_omitted
    && not (is_known d.unavailable_replicas)
    && is_value d.desired_replicas replicas
    && is_value d.ready_replicas replicas
    && is_value d.updated_replicas replicas
    && is_value d.available_replicas replicas
    && at_least d.observed_generation d.generation

abbrev pub unavailable_verdict : Deployment → Option ℕ → Option ℕ → Option Bool
unavailable_verdict d replicas (some unavailable) = some (eqb unavailable 0)
unavailable_verdict d replicas none = if omitted_means_zero d replicas then some true else none

abbrev pub all_healthy : List (Workload × Bool) → Bool
all_healthy [] = true
all_healthy ((w, healthy) ∷ ws) = healthy && all_healthy ws

abbrev pub healthy_verdict : Option (List (Workload × Bool)) → Option Bool
healthy_verdict none = none
healthy_verdict (some ws) = some (all_healthy ws)

abbrev pub count_of : {A : Type 0} → Option (List A) → Option ℕ
count_of none = none
count_of (some xs) = some (length xs)

-- `count >= expected if expected > 0 and count is not None else True if expected == 0 else None`
abbrev pub present_verdict : ℕ → Option ℕ → Option Bool
present_verdict expected none = if eqb expected 0 then some true else none
present_verdict expected (some count) =
    if eqb expected 0 then some true else some (leb expected count)

abbrev pub series_verdict : ℕ → Option ℕ → Option ℕ → Option Bool
series_verdict expected count known =
    if eqb expected 0 then some true else equal_if_known count known

-- the verdict where workloads are protected, and true where none is
abbrev pub if_protected : ℕ → Option Bool → Option Bool
if_protected expected verdict = if ltb 0 expected then verdict else some true

abbrev pub protected_count : Option ℕ → ℕ
protected_count none = 0
protected_count (some n) = n

module _ (fl : Floats) where
  open fl use {F, zero, one, le, lt, mul, abs_diff}

  abbrev pub ratio_verdict : Option F → Option F → Option Bool
  ratio_verdict (some ratio) (some most) = some (le ratio most)
  ratio_verdict _ _ = none

  -- missing unless the baseline is positive and the tolerance lies in [0, 1)
  abbrev pub rate_verdict : Option F → Option F → Option F → Option Bool
  rate_verdict (some rate) (some baseline) (some tolerance) =
      if lt zero baseline && le zero tolerance && lt tolerance one
      then some (le (abs_diff rate baseline) (mul baseline tolerance))
      else none
  rate_verdict _ _ _ = none

module _ (fl : Floats) (casefold : String → String) where
  open fl use {F}

  unfoldable pub verification_checks :
      Observed F
      → List (Alert F)
      → Before
      → Target
      → Expected F
      → Option (List Workload)
      → Option (List (Session F))
      → Option ℕ
      → List (String × Option Bool)
  verification_checks after alerts before target expected workloads sessions started =
      let d = deployment_of after.deployment in
      let n = protected_count expected.protected_workloads in
      let verdicts = alert_checks casefold alerts before target started in
      (
        "failure_ratio_below_threshold",
        ratio_verdict fl after.failure_ratio expected.failure_ratio_max,
      )
      ∷ (
        "request_rate_near_baseline",
        rate_verdict fl after.request_rate expected.request_rate_baseline
            expected.request_rate_tolerance_ratio,
      )
      ∷ ("desired_replicas_restored", equal_if_known d.desired_replicas expected.replicas)
      ∷ ("ready_replicas_restored", equal_if_known d.ready_replicas expected.replicas)
      ∷ ("updated_replicas_restored", equal_if_known d.updated_replicas expected.replicas)
      ∷ ("available_replicas_restored", equal_if_known d.available_replicas expected.replicas)
      ∷ (
        "unavailable_replicas_zero",
        unavailable_verdict d expected.replicas d.unavailable_replicas,
      )
      ∷ ("deployment_generation_observed", equal_if_known d.observed_generation d.generation)
      ∷ ("protected_workloads_present", present_verdict n (count_of after.protected_workloads))
      ∷ ("protected_workloads_healthy", if_protected n (healthy_verdict after.protected_workloads))
      ∷ (
        "protected_workloads_uninterrupted",
        if_protected n (protected_workloads_unchanged workloads after.protected_workloads),
      )
      ∷ (
        "protected_active_session_series_present",
        series_verdict n (count_of after.protected_active_sessions) (count_of sessions),
      )
      ∷ (
        "protected_active_sessions_maintained",
        if_protected n (
            protected_active_sessions_maintained fl casefold sessions
              after.protected_active_sessions),
      )
      ∷ ("alertmanager_resolved", verdicts.0)
      ∷ ("alertmanager_no_refire", verdicts.1)
      ∷ []
