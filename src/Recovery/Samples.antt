-- ===== src/Recovery/Samples.antt =====
-- One recovered deployment: a window with all its checks, and the values they are held against.
-- Floats are instantiated by natural numbers here, and case folding keeps the text.
use k8s_ops.Prelude.{
  ℕ, ◌<◌, ◌*◌, ◌+◌, ◌-◌, String, Bool, true, false, Option, none, some, List, [], ◌∷◌, ◌≡◌, refl,
  arith, In, here, ◌⊎◌, ltb, leb, map, lookup, put, pair_beq, string_eq,
}
use k8s_ops.Recovery.Observed.{Floats, Deployment, Workload, Session, Target, Observed, Expected}
use k8s_ops.Recovery.Continuity.{
  protected_workloads_unchanged, values_from, all_at_least, protected_active_sessions_maintained,
  identity_of,
}
use k8s_ops.Recovery.Continuity.Laws.{unchanged_means_same, maintained_means_no_loss}
use k8s_ops.Recovery.Alerts.{
  Alert, Before, Series, available, alert_matches_target, alert_matches_original_series,
  scan_alerts, alert_checks, is_original, before_alert_snapshot, qualifies, chronology_holds,
  sli_alert_name,
}
use k8s_ops.Recovery.Alerts.Laws.{resolved_means_original, no_refire_means_quiet}
use k8s_ops.Recovery.Alerts.Earlier.{available_is_the_only_one, expected_of}
use k8s_ops.Recovery.Decision.Stability.{AllTrue}
use k8s_ops.Recovery.Checks.{verification_checks, protected_count}
use k8s_ops.Recovery.Checks.Laws.{Serves, all_checks_mean_recovered}

abbrev distance : ℕ → ℕ → ℕ
distance a b = (a - b) + (b - a)

leb_refl : (x : ℕ) → leb x x ≡ true
leb_refl x = ground arith

leb_trans : (x y z : ℕ) → leb x y ≡ true → leb y z ≡ true → leb x z ≡ true
leb_trans x y z h k = ground (arith, h, k)

abbrev whole_numbers : Floats
whole_numbers = record {
  F = ℕ;
  zero = 0;
  one = 1;
  le = leb;
  lt = ltb;
  mul = λ a b. a * b;
  abs_diff = distance;
  le_refl = leb_refl;
  le_trans = leb_trans;
}

abbrev folded : String → String
folded t = t

abbrev api_target : Target
api_target = record {
  cluster_id = "c1";
  namespace = "shop";
  resource_kind = "Deployment";
  resource_name = "api";
}

abbrev api_series : Series
api_series = record {
  namespace = "shop";
  resource_kind = "Deployment";
  resource_name = "api";
  service = "api";
  sli = "availability";
  symptom = "errors";
}

abbrev api_alert : String → String → ℕ → Option ℕ → Alert ℕ
api_alert id status fired resolved = record {
  event_id = id;
  incident_id = "i1";
  source = "alertmanager";
  rule_id = "r1";
  rule_name = sli_alert_name;
  subject_key = "api";
  status = status;
  fired_at = some fired;
  resolved_at = resolved;
  series_identity = api_series;
  subject = api_target;
  observed_value = some 7;
  threshold = some 5;
}

abbrev api_before : Before
api_before = record {
  alert_event_id = "a1";
  rule_id = "r1";
  rule_name = sli_alert_name;
  source = "alertmanager";
  subject_key = "api";
  series_identity = api_series;
}

-- the original alert, resolved, and one that fired before the verification started
abbrev quiet_alerts : List (Alert ℕ)
quiet_alerts =
    api_alert "a1" "resolved" 100 (some 900) ∷ api_alert "a0" "resolved" 50 (some 60) ∷ []

abbrev firing_alerts : List (Alert ℕ)
firing_alerts = api_alert "a1" "firing" 100 none ∷ []

abbrev worker_workload : Workload
worker_workload = record {
  name = "game";
  kind = "StatefulSet";
  namespace = "shop";
  uid = "u1";
  pod_uids = "p1" ∷ [];
  pod_start_times = "t1" ∷ [];
  restart_count = 0;
}

abbrev session_of : ℕ → Session ℕ
session_of n = record {
  namespace = "shop";
  kind = "StatefulSet";
  name = "game";
  continuity_id = "s1";
  pod_uid = "p1";
  value = some n;
}

abbrev serving : Deployment
serving = record {
  generation = some 4;
  observed_generation = some 4;
  desired_replicas = some 3;
  ready_replicas = some 3;
  updated_replicas = some 3;
  available_replicas = some 3;
  unavailable_replicas = none;
  unavailable_replicas_omitted = true;
}

abbrev window_after : Observed ℕ
window_after = record {
  failure_ratio = some 0;
  request_rate = some 5;
  deployment = some serving;
  protected_workloads = some ((worker_workload, true) ∷ []);
  protected_active_sessions = some (session_of 12 ∷ []);
}

abbrev expected_after : Expected ℕ
expected_after = record {
  failure_ratio_max = some 0;
  request_rate_baseline = some 5;
  request_rate_tolerance_ratio = some 0;
  replicas = some 3;
  protected_workloads = some 1;
}

quiet_verdicts :
    alert_checks folded quiet_alerts api_before api_target (some 500) ≡ (some true, some true)
unfolding alert_checks scan_alerts alert_matches_original_series alert_matches_target
quiet_verdicts = refl

resolved_means_original_example :
    (x : Alert ℕ) × (resolved : ℕ) × In x quiet_alerts
    × (alert_matches_original_series folded x api_before api_target ≡ true)
    × (is_original folded x api_before ≡ true)
    × (x.resolved_at ≡ some resolved)
resolved_means_original_example =
    resolved_means_original folded api_before api_target quiet_alerts (some 500)
      (λ i. (quiet_verdicts i).0)

no_refire_means_quiet_example :
    ((x : Alert ℕ) × In x quiet_alerts × (is_original folded x api_before ≡ true))
    × ((x : Alert ℕ) (fired : ℕ)
        → In x quiet_alerts
        → alert_matches_original_series folded x api_before api_target ≡ true
        → is_original folded x api_before ≡ false
        → x.fired_at ≡ some fired
        → fired < 500)
no_refire_means_quiet_example =
    no_refire_means_quiet folded api_before api_target quiet_alerts 500 (λ i. (quiet_verdicts i).1)

firing_alert_found :
    before_alert_snapshot whole_numbers folded firing_alerts api_target "i1" "i1" (some api_series)
    ≡ available (api_alert "a1" "firing" 100 none)
unfolding before_alert_snapshot alert_matches_target
firing_alert_found = refl

available_is_the_only_one_example :
    In (api_alert "a1" "firing" 100 none) firing_alerts
    × (alert_matches_target folded (api_alert "a1" "firing" 100 none) api_target ≡ true)
    × (sli_alert_name ≡ sli_alert_name)
    × (chronology_holds folded (api_alert "a1" "firing" 100 none) ≡ true)
    × ((observed : ℕ) × (threshold : ℕ) × (some 7 ≡ some observed)
        × (some 5 ≡ some threshold)
        × (leb observed threshold ≡ false))
    × ((y : Alert ℕ)
        → In y firing_alerts
        → qualifies whole_numbers folded api_target "i1" "i1" (expected_of (some api_series)) y
          ≡ true
        → y ≡ api_alert "a1" "firing" 100 none)
available_is_the_only_one_example =
    available_is_the_only_one whole_numbers folded firing_alerts api_target "i1" "i1"
      (some api_series) (api_alert "a1" "firing" 100 none) firing_alert_found

same_workloads :
    protected_workloads_unchanged
      (some (worker_workload ∷ []))
      (some ((worker_workload, true) ∷ []))
    ≡ some true
unfolding protected_workloads_unchanged
same_workloads = refl

unchanged_means_same_example :
    (b : Workload) × (bs : List Workload) × (now : List (Workload × Bool)) × (some
        (worker_workload ∷ [])
      ≡ some (b ∷ bs))
    × (some ((worker_workload, true) ∷ []) ≡ some now)
    × (b ∷ bs ≡ map (λ w. w.0) now)
unchanged_means_same_example =
    unchanged_means_same (some (worker_workload ∷ [])) (some ((worker_workload, true) ∷ []))
      same_workloads

more_sessions :
    protected_active_sessions_maintained whole_numbers folded
      (some (session_of 10 ∷ []))
      (some (session_of 12 ∷ []))
    ≡ some true
unfolding protected_active_sessions_maintained values_from all_at_least lookup put pair_beq
more_sessions = refl

maintained_means_no_loss_example :
    (before : ℕ) × (after : ℕ) × (t : Session ℕ) × (some 10 ≡ some before)
    × In t (session_of 12 ∷ [])
    × (identity_of whole_numbers folded t ≡ identity_of whole_numbers folded (session_of 10))
    × (t.value ≡ some after)
    × (leb before after ≡ true)
maintained_means_no_loss_example =
    maintained_means_no_loss whole_numbers folded (session_of 10 ∷ []) (session_of 12 ∷ [])
      more_sessions (session_of 10) here

all_pass : AllTrue (
    verification_checks whole_numbers folded window_after quiet_alerts api_before api_target
      expected_after
      (some (worker_workload ∷ []))
      (some (session_of 10 ∷ []))
      (some 500))
unfolding verification_checks protected_workloads_unchanged protected_active_sessions_maintained
    values_from all_at_least lookup put pair_beq alert_checks scan_alerts
    alert_matches_original_series alert_matches_target
all_pass = (
  refl,
  (
    refl,
    (
      refl,
      (
        refl,
        (refl, (refl, (refl, (refl, (refl, (refl, (refl, (refl, (refl, (refl, (refl, tt))))))))))),
      ),
    ),
  ),
)

all_checks_mean_recovered_example :
    ((ratio : ℕ) × (most : ℕ) × (some 0 ≡ some ratio)
      × (some 0 ≡ some most)
      × (leb ratio most ≡ true))
    × ((d : Deployment) × (replicas : ℕ) × (generation : ℕ) × (some serving ≡ some d)
        × (some 3 ≡ some replicas)
        × Serves d replicas generation)
    × ((protected_count (some 1) ≡ 0)
        ⊎ ((protected_workloads_unchanged
                (some (worker_workload ∷ []))
                window_after.protected_workloads
              ≡ some true)
            × (protected_active_sessions_maintained whole_numbers folded
                  (some (session_of 10 ∷ []))
                  window_after.protected_active_sessions
                ≡ some true)))
    × (alert_checks folded quiet_alerts api_before api_target (some 500) ≡ (some true, some true))
all_checks_mean_recovered_example =
    all_checks_mean_recovered whole_numbers folded window_after quiet_alerts api_before api_target
      expected_after (some (worker_workload ∷ [])) (some (session_of 10 ∷ [])) (some 500) all_pass
