-- ===== src/Recovery/Decision/Samples.antt =====
-- Healthy windows 150 seconds apart, and one that comes with a firing alert at the deadline.
use k8s_ops.Prelude.{
  ℕ, String, true, false, none, some, List, [], ◌∷◌, ◌≡◌, refl, ◌*◌, ◌≤◌, map, In,
}
use k8s_ops.Recovery.Decision.{
  Verification, Window, pending, completed, second, verify, evaluate_recovery_evidence,
  bounded_seconds, failed, verification_window_expired,
}
use k8s_ops.Recovery.Decision.Stability.{Completes, failed_means_expired}
use k8s_ops.Recovery.Decision.Verified.{completed_needs_streak}

abbrev started_verification : Verification
started_verification = record {
  started_at = some (1000 * second);
  deadline_at = some (1600 * second);
  minimum_seconds = some 300;
  cadence_seconds = some 150;
  healthy_since = none;
  last_healthy_observed_at = none;
  distinct_evidence_count = none;
  last_evidence_key = "";
}

abbrev healthy_window : String → ℕ → Window
healthy_window key at = record {
  evidence_key = key;
  window_start = some (at * second);
  checks = ("failure_ratio_below_threshold", some true) ∷ ("alertmanager_resolved", some true) ∷ [];
}

abbrev steady_windows : List (Window × ℕ)
steady_windows =
    (healthy_window "k1" 1010, 1020 * second)
    ∷ (healthy_window "k1" 1010, 1030 * second)
    ∷ (healthy_window "k2" 1160, 1170 * second)
    ∷ (healthy_window "k3" 1310, 1320 * second)
    ∷ []

steady_windows_complete :
    (verify (record { phase = pending; verification = started_verification }) steady_windows).phase
    ≡ completed
unfolding verify evaluate_recovery_evidence
steady_windows_complete = refl

completed_needs_streak_example :
    (now : ℕ) × (ws : List Window) × Completes 300 150 (1000 * second) now ws
    × In now (map (λ p. p.1) steady_windows)
    × ((w : Window) → In w ws → In w (map (λ p. p.0) steady_windows))
unfolding bounded_seconds
completed_needs_streak_example =
    completed_needs_streak 300 150 (1000 * second) started_verification steady_windows refl refl
      refl refl refl refl steady_windows_complete

abbrev firing_window : Window
firing_window = record {
  evidence_key = "k4";
  window_start = some (1590 * second);
  checks =
      ("failure_ratio_below_threshold", some true) ∷ ("alertmanager_resolved", some false) ∷ [];
}

firing_window_fails :
    (evaluate_recovery_evidence started_verification firing_window (1600 * second)).status ≡ failed
unfolding evaluate_recovery_evidence
firing_window_fails = refl

failed_means_expired_example :
    ((deadline : ℕ) × (started_verification.deadline_at ≡ some deadline)
      × (deadline ≤ 1600 * second))
    × ((evaluate_recovery_evidence started_verification firing_window (1600 * second)).reason_code
        ≡ verification_window_expired)
failed_means_expired_example =
    failed_means_expired started_verification firing_window (1600 * second) firing_window_fails
