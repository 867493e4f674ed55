-- ===== src/Recovery/Decision.antt =====
-- `evaluate_recovery_evidence` of domains/rca/recovery_verification.py, from the values that it
-- reads of the plan's verification record and of one evidence window on, and the loop body of
-- `on_recovery_verification_evidence` in services/ai/rca-feedback-worker/app.py.
-- A datetime is a number of microseconds, a text that is missing is empty, and a check is true,
-- false or missing. The reason texts and the snapshot `after` are left out, but for the three
-- fields that the stabilisation writes there.
pub mod Stability
pub mod Verified
mod Samples
use k8s_ops.Prelude.{
  ℕ, ◌+◌, ◌-◌, ◌*◌, ◌/◌, ◌≤◌, ◌<◌, min, max, String, Bool, true, false, not, ◌&&◌, ◌||◌, Option,
  none, some, ◌==◌, string_eq, if◌then◌else◌, List, [], ◌∷◌, any, ltb, leb, eqb, ◌≡◌,
}

abbrev pub second : ℕ
second = 1000000

abbrev pub default_minimum_seconds : ℕ
default_minimum_seconds = 300

abbrev pub default_maximum_seconds : ℕ
default_maximum_seconds = 600

pub data DecisionStatus : Type 0 where
  pending completed failed : DecisionStatus

pub data ReasonCode : Type 0 where
  duplicate_evidence_window stale_evidence_window verification_regressed : ReasonCode
  verification_evidence_missing verification_window_expired : ReasonCode
  stabilization_window_in_progress recovery_verified : ReasonCode

-- The persisted `lifecycle["verification"]`, with the cadence of its `expected`.
pub record Verification : Type 0 where
  pub started_at : Option ℕ
  pub deadline_at : Option ℕ
  pub minimum_seconds : Option ℕ
  pub cadence_seconds : Option ℕ
  pub healthy_since : Option ℕ
  pub last_healthy_observed_at : Option ℕ
  pub distinct_evidence_count : Option ℕ
  pub last_evidence_key : String

-- One evidence window: its key, its trusted start, and the verdicts of `verification_checks`.
pub record Window : Type 0 where
  pub evidence_key : String
  pub window_start : Option ℕ
  pub checks : List (String × Option Bool)

-- `VerificationDecision`; `stable` holds the snapshot's healthy_since, stable microseconds and
-- count where the stabilisation was measured.
pub record Decision : Type 0 where
  pub status : DecisionStatus
  pub reason_code : ReasonCode
  pub healthy_since : Option ℕ
  pub last_healthy_observed_at : Option ℕ
  pub distinct_evidence_count : ℕ
  pub last_evidence_key : Option String
  pub stable : Option (ℕ × ℕ × ℕ)

abbrev pub is_false : Option Bool → Bool
is_false (some false) = true
is_false _ = false

abbrev pub is_missing : Option Bool → Bool
is_missing none = true
is_missing _ = false

abbrev pub failed_checks : Window → Bool
failed_checks e = any (λ c. is_false c.1) e.checks

abbrev pub missing_checks : Window → Bool
missing_checks e = any (λ c. is_missing c.1) e.checks

-- `max(minimum, min(parsed, maximum))`, or the default where nothing parses
unfoldable pub bounded_seconds : Option ℕ → ℕ → ℕ → ℕ → ℕ
bounded_seconds none default minimum maximum = default
bounded_seconds (some parsed) default minimum maximum = max minimum (min parsed maximum)

abbrev pub or_zero : Option ℕ → ℕ
or_zero none = 0
or_zero (some n) = n

abbrev pub or_time : Option ℕ → ℕ → ℕ
or_time none d = d
or_time (some t) d = t

-- `text or None`
abbrev pub text_or_none : String → Option String
text_or_none t = if t == "" then none else some t

-- `evidence_key or previous_key or None`
abbrev pub newest_key : String → String → Option String
newest_key key previous = if key == "" then text_or_none previous else some key

-- `deadline_at is not None and now >= deadline_at`
abbrev pub deadline_passed : Option ℕ → ℕ → Bool
deadline_passed none now = false
deadline_passed (some deadline) now = leb deadline now

-- The four disjuncts that make a window stale.
abbrev pub is_stale : Option ℕ → Option ℕ → ℕ → Bool
is_stale none started now = true
is_stale (some observed) none now = true
is_stale (some observed) (some started) now = ltb observed started || ltb now observed

-- `gap_seconds <= 0 or gap_seconds > cadence_seconds * 1.5`, both sides doubled
abbrev pub gap_breaks : ℕ → Option ℕ → ℕ → Bool
gap_breaks cadence none observed = false
gap_breaks cadence (some previous) observed =
    leb observed previous || ltb (3 * cadence * second) (2 * (observed - previous))

-- `max(2, math.ceil(minimum_seconds / cadence_seconds) + 1)`, for a positive cadence
abbrev pub minimum_distinct : ℕ → ℕ → ℕ
minimum_distinct minimum cadence = max 2 ((minimum + cadence - 1) / cadence + 1)

abbrev pub minimum_of : Verification → ℕ
minimum_of v =
    bounded_seconds v.minimum_seconds default_minimum_seconds default_minimum_seconds
      default_maximum_seconds

-- A decision that keeps what the record holds: duplicates and stale windows.
abbrev pub keeping : Verification → ReasonCode → Decision
keeping v reason = record {
  status = pending;
  reason_code = reason;
  healthy_since = v.healthy_since;
  last_healthy_observed_at = v.last_healthy_observed_at;
  distinct_evidence_count = or_zero v.distinct_evidence_count;
  last_evidence_key = text_or_none v.last_evidence_key;
  stable = none;
}

-- A decision that forgets the streak.
abbrev pub forgetting : Verification → Window → DecisionStatus → ReasonCode → Decision
forgetting v e status reason = record {
  status = status;
  reason_code = reason;
  healthy_since = none;
  last_healthy_observed_at = none;
  distinct_evidence_count = 0;
  last_evidence_key = newest_key e.evidence_key v.last_evidence_key;
  stable = none;
}

-- The end of the function: the window at `observed` continues the streak since `stable_from`.
abbrev pub judge : Verification → Window → ℕ → ℕ → ℕ → ℕ → ℕ → Decision
judge v e now cadence observed stable_from count =
    let stable_for = observed - stable_from in
    let enough =
      leb (minimum_of v * second) stable_for
      && leb (minimum_distinct (minimum_of v) cadence) count in
    let expired = deadline_passed v.deadline_at now in
    record {
      status = if enough then completed else if expired then failed else pending;
      reason_code =
          if enough
          then recovery_verified
          else if expired
          then verification_window_expired
          else stabilization_window_in_progress;
      healthy_since = some stable_from;
      last_healthy_observed_at = some observed;
      distinct_evidence_count = count;
      last_evidence_key = newest_key e.evidence_key v.last_evidence_key;
      stable = some (stable_from, stable_for, count);
    }

-- The streak goes on, or a gap that is too long (or no gap) starts it again.
abbrev pub stabilize : Verification → Window → ℕ → ℕ → ℕ → Decision
stabilize v e now cadence observed =
    if gap_breaks cadence v.last_healthy_observed_at observed
    then judge v e now cadence observed observed 1
    else judge v e now cadence observed (or_time v.healthy_since observed)
        (or_zero v.distinct_evidence_count + 1)

-- A cadence that is missing or 0 ends the measurement.
abbrev pub with_cadence : Verification → Window → ℕ → ℕ → Option ℕ → Decision
with_cadence v e now observed none = forgetting v e pending verification_evidence_missing
with_cadence v e now observed (some cadence) =
    if eqb cadence 0
    then forgetting v e pending verification_evidence_missing
    else stabilize v e now cadence observed

abbrev pub unhealthy : Verification → Window → ℕ → Decision
unhealthy v e now =
    if deadline_passed v.deadline_at now
    then forgetting v e failed verification_window_expired
    else forgetting v e pending
        (if failed_checks e then verification_regressed else verification_evidence_missing)

abbrev pub fresh_window : Verification → Window → ℕ → ℕ → Decision
fresh_window v e now observed =
    if failed_checks e || missing_checks e
    then unhealthy v e now
    else with_cadence v e now observed v.cadence_seconds

unfoldable pub evaluate_recovery_evidence : Verification → Window → ℕ → Decision
unfolding bounded_seconds
evaluate_recovery_evidence v e now =
    if not (e.evidence_key == "") && (e.evidence_key == v.last_evidence_key)
    then keeping v duplicate_evidence_window
    else if is_stale e.window_start v.started_at now
    then keeping v stale_evidence_window
    else fresh_window v e now (or_zero e.window_start)

-- The worker's plan: `update_recovery_plan_lifecycle_if_status` writes only while the phase is
-- VERIFICATION_PENDING.
pub record Plan : Type 0 where
  pub phase : DecisionStatus
  pub verification : Verification

abbrev pub key_text : Option String → String
key_text none = ""
key_text (some k) = k

-- `verification.update(…)`
abbrev pub record_decision : Verification → Decision → Verification
record_decision v d = record v {
  healthy_since = d.healthy_since;
  last_healthy_observed_at = d.last_healthy_observed_at;
  distinct_evidence_count = some d.distinct_evidence_count;
  last_evidence_key = key_text d.last_evidence_key;
}

unfoldable pub on_evidence : Plan → Window × ℕ → Plan
on_evidence plan (e, now) = elim plan.phase [
  | pending ↦
      let d = evaluate_recovery_evidence plan.verification e now in
      record { phase = d.status; verification = record_decision plan.verification d }
  | _ ↦ plan
]

unfoldable pub verify : Plan → List (Window × ℕ) → Plan
unfolding on_evidence
verify plan [] = plan
verify plan (e ∷ rest) = verify (on_evidence plan e) rest
