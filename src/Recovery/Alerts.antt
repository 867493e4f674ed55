-- ===== src/Recovery/Alerts.antt =====
-- The Alertmanager side of domains/rca/recovery_verification.py: `alert_checks`,
-- `before_alert_snapshot` and the matching of alerts with the recovery's target and series.
-- `casefold` is the text's own method, a datetime is a number of microseconds, and a text that is
-- missing is empty.
pub mod Laws
pub mod Earlier
use k8s_ops.Prelude.{
  ℕ, String, Bool, true, false, not, ◌&&◌, ◌||◌, Option, none, some, ◌==◌, string_eq, List, [], ◌∷◌,
  select, if◌then◌else◌, leb, ltb,
}
use k8s_ops.Recovery.Observed.{Target, Floats}

-- The six labels of `STANDARD_SLI_IDENTITY_LABELS`.
pub record Series : Type 0 where
  pub namespace : String
  pub resource_kind : String
  pub resource_name : String
  pub service : String
  pub sli : String
  pub symptom : String

pub record Alert (F : Type 0) : Type 0 where
  pub event_id : String
  pub incident_id : String
  pub source : String
  pub rule_id : String
  pub rule_name : String
  pub subject_key : String
  pub status : String
  pub fired_at : Option ℕ
  pub resolved_at : Option ℕ
  pub series_identity : Series
  pub subject : Target
  pub observed_value : Option F
  pub threshold : Option F

-- What `before` keeps of the alert from before the recovery.
pub record Before : Type 0 where
  pub alert_event_id : String
  pub rule_id : String
  pub rule_name : String
  pub source : String
  pub subject_key : String
  pub series_identity : Series

pub data Snapshot (F : Type 0) : Type 0 where
  missing ambiguous : Snapshot F
  available : Alert F → Snapshot F

abbrev pub sli_alert_name : String
sli_alert_name = "KyroSliFailureRatioHigh"

abbrev pub present : String → Bool
present t = not (t == "")

-- `identity if all(identity.values()) else None`
abbrev pub standard_sli_series_identity : Series → Option Series
standard_sli_series_identity s =
    if present s.namespace
      && present s.resource_kind
      && present s.resource_name
      && present s.service
      && present s.sli
      && present s.symptom
    then some s
    else none

abbrev pub series_eq : Series → Series → Bool
series_eq a b =
    (a.namespace == b.namespace)
    && (a.resource_kind == b.resource_kind)
    && (a.resource_name == b.resource_name)
    && (a.service == b.service)
    && (a.sli == b.sli)
    && (a.symptom == b.symptom)

-- `expected is not None and current == expected`
abbrev pub same_series : Option Series → Option Series → Bool
same_series (some a) (some b) = series_eq a b
same_series _ _ = false

-- a field that `before` does not hold is not compared
abbrev pub field_matches : String → String → Bool
field_matches expected current = not (present expected) || (current == expected)

-- `fired_at >= verification_started_at`, both known
abbrev pub fired_since : Option ℕ → Option ℕ → Bool
fired_since none fired = false
fired_since (some started) none = false
fired_since (some started) (some fired) = leb started fired

abbrev pub series_matches_target : (String → String) → Series → Target → Bool
series_matches_target casefold s target =
    (s.namespace == target.namespace)
    && (casefold s.resource_kind == casefold target.resource_kind)
    && (s.resource_name == target.resource_name)

abbrev pub series_qualifies : (String → String) → Option Series → Option Series → Target → Bool
series_qualifies casefold expected none target = false
series_qualifies casefold none (some s) target = series_matches_target casefold s target
series_qualifies casefold (some e) (some s) target =
    series_matches_target casefold s target && series_eq s e

abbrev pub single : {F : Type 0} → List (Alert F) → Snapshot F
single [] = missing
single (alert ∷ []) = available alert
single (alert ∷ other ∷ alerts) = ambiguous

module _ {F : Type 0} (casefold : String → String) where
  unfoldable pub alert_matches_target : Alert F → Target → Bool
  alert_matches_target alert target =
      (alert.subject.cluster_id == target.cluster_id)
      && (alert.subject.namespace == target.namespace)
      && (casefold alert.subject.resource_kind == casefold target.resource_kind)
      && (alert.subject.resource_name == target.resource_name)

  unfoldable pub alert_matches_original_series : Alert F → Before → Target → Bool
  unfolding alert_matches_target
  alert_matches_original_series alert before target =
      alert_matches_target alert target
      && (not (before.rule_name == sli_alert_name)
          || same_series (standard_sli_series_identity before.series_identity)
              (standard_sli_series_identity alert.series_identity))
      && field_matches before.rule_id alert.rule_id
      && field_matches before.rule_name alert.rule_name
      && field_matches before.source alert.source
      && field_matches before.subject_key alert.subject_key

  abbrev pub is_original : Alert F → Before → Bool
  is_original alert before =
      present before.alert_event_id && (alert.event_id == before.alert_event_id)

  -- The loop: the last alert with the original's id, and whether another one has fired since.
  unfoldable pub scan_alerts :
      List (Alert F)
      → Before
      → Target
      → Option ℕ
      → Option (Alert F)
      → Bool
      → Option (Alert F) × Bool
  scan_alerts [] before target started original refired = (original, refired)
  scan_alerts (alert ∷ alerts) before target started original refired =
      let matches = alert_matches_original_series alert before target in
      scan_alerts alerts before target started
        (if matches && is_original alert before then some alert else original)
        (if matches && not (is_original alert before) && fired_since started alert.fired_at
          then true
          else refired)

  abbrev pub is_resolved : Alert F → Bool
  is_resolved alert =
      (casefold alert.status == "resolved")
      && (elim alert.resolved_at [ none ↦ false | some _ ↦ true ])

  abbrev pub alert_verdicts : Option (Alert F) × Bool → Option Bool × Option Bool
  alert_verdicts (none, refired) = (none, if refired then some false else none)
  alert_verdicts (some original, refired) = (some (is_resolved original), some (not refired))

  unfoldable pub alert_checks :
      List (Alert F) → Before → Target → Option ℕ → Option Bool × Option Bool
  alert_checks alerts before target started =
      alert_verdicts (scan_alerts alerts before target started none false)

  -- the filters of `before_alert_snapshot`, one after the other
  abbrev pub chronology_holds : Alert F → Bool
  chronology_holds alert =
      let status = casefold alert.status in
      if status == "resolved"
      then (elim alert.fired_at [
        | none ↦ false
        | some fired ↦ elim alert.resolved_at [ none ↦ false | some resolved ↦ leb fired resolved ]
      ])
      else (((status == "firing") || (status == "acked"))
          && (elim alert.fired_at [ none ↦ false | some _ ↦ true ]))

module _ (fl : Floats) (casefold : String → String) where
  open fl use {F, le}

  -- `observed is None or threshold is None or observed <= threshold` skips
  abbrev pub exceeds : Option F → Option F → Bool
  exceeds (some observed) (some threshold) = not (le observed threshold)
  exceeds _ _ = false

  abbrev pub qualifies : Target → String → String → Option Series → Alert F → Bool
  qualifies target correlation_id incident_id expected alert =
      alert_matches_target casefold alert target
      && ((alert.incident_id == correlation_id) || (alert.incident_id == incident_id))
      && (casefold alert.source == "alertmanager")
      && (alert.rule_name == sli_alert_name)
      && chronology_holds casefold alert
      && exceeds alert.observed_value alert.threshold
      && series_qualifies casefold expected (standard_sli_series_identity alert.series_identity)
          target

  -- An expected series that is given and incomplete finds nothing.
  unfoldable pub before_alert_snapshot :
      List (Alert F) → Target → String → String → Option Series → Snapshot F
  before_alert_snapshot alerts target correlation_id incident_id none =
      single (select (qualifies target correlation_id incident_id none) alerts)
  before_alert_snapshot alerts target correlation_id incident_id (some given) =
      elim (standard_sli_series_identity given) [
        | none ↦ missing
        | some expected ↦
            single (select (qualifies target correlation_id incident_id (some expected)) alerts)
      ]
