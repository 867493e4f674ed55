-- ===== src/Recovery/Alerts/Earlier.antt =====
-- Lemmas on `before_alert_snapshot` of domains/rca/recovery_verification.py.
use k8s_ops.Prelude.{
  String, Bool, true, false, ◌&&◌, Option, none, some, ◌==◌, string_eq, List, [], ◌∷◌, ◌≡◌, refl,
  arith, In, here, there, select, In-select, select-In, beq_true,
}
use k8s_ops.Recovery.Observed.{Target, Floats}
use k8s_ops.Recovery.Alerts.{
  Alert, Snapshot, available, missing, series_qualifies, alert_matches_target, chronology_holds,
  exceeds, sli_alert_name, qualifies, before_alert_snapshot, single, Series,
  standard_sli_series_identity,
}

-- the series that the alert has to have, where one is given
abbrev pub expected_of : Option Series → Option Series
expected_of none = none
expected_of (some given) = standard_sli_series_identity given

In-single : {A : Type 0} (x y : A) → In y (x ∷ []) → y ≡ x
In-single x y here = refl
In-single x y (there i) = elim i [ ]

single_available :
    {F : Type 0} (xs : List (Alert F)) (x : Alert F) → single xs ≡ available x → xs ≡ x ∷ []
single_available [] x h = absurd (cc)
single_available (y ∷ []) x h = cc
single_available (y ∷ z ∷ xs) x h = absurd (cc)

only_one :
    {F : Type 0} (p : Alert F → Bool) (xs : List (Alert F)) (x : Alert F)
    → single (select p xs) ≡ available x
    → In x xs × (p x ≡ true) × ((y : Alert F) → In y xs → p y ≡ true → y ≡ x)
only_one p xs x h =
    let alone = single_available (select p xs) x h in
    let (i, t) = In-select p xs x (rw alone here) in
    (i, t, λ y j u. In-single x y (rw alone at (select-In p xs y j u)))

module _ (fl : Floats) (casefold : String → String) where
  open fl use {F, le}

  exceeded :
      (o t : Option F)
      → exceeds fl casefold o t ≡ true
      → (observed : F) × (threshold : F) × (o ≡ some observed)
        × (t ≡ some threshold)
        × (le observed threshold ≡ false)
  exceeded none t h = absurd (cc)
  exceeded (some o) none h = absurd (cc)
  exceeded (some o) (some t) h = (o, t, refl, refl, ground (arith, h))

  qualified :
      (target : Target) (correlation_id incident_id : String) (expected : Option Series)
      (x : Alert F)
      → qualifies fl casefold target correlation_id incident_id expected x ≡ true
      → (alert_matches_target casefold x target ≡ true)
        × ((x.rule_name == sli_alert_name) ≡ true)
        × (chronology_holds casefold x ≡ true)
        × (exceeds fl casefold x.observed_value x.threshold ≡ true)
  qualified target correlation_id incident_id expected x q =
      seven (alert_matches_target casefold x target) _ _ (x.rule_name == sli_alert_name)
        (chronology_holds casefold x) (exceeds fl casefold x.observed_value x.threshold)
        (series_qualifies casefold expected (standard_sli_series_identity x.series_identity) target)
        q
    where
      seven :
          (a b c d e f g : Bool)
          → (a && b && c && d && e && f && g) ≡ true
          → (a ≡ true) × (d ≡ true) × (e ≡ true) × (f ≡ true)
      seven a b c d e f g h = ground arith

  found :
      (alerts : List (Alert F)) (target : Target) (correlation_id incident_id : String)
      (given : Option Series) (x : Alert F)
      → before_alert_snapshot fl casefold alerts target correlation_id incident_id given
        ≡ available x
      → single (
          select
            (qualifies fl casefold target correlation_id incident_id (expected_of given))
            alerts)
        ≡ available x
  unfolding before_alert_snapshot
  found alerts target correlation_id incident_id none x h = h
  found alerts target correlation_id incident_id (some given) x h =
      by_series (standard_sli_series_identity given) h
    where
      by_series :
          (expected : Option Series)
          → (elim expected as (λ _. Snapshot F) [
            | none ↦ missing
            | some e ↦
                single
                  (select (qualifies fl casefold target correlation_id incident_id (some e)) alerts)
          ])
            ≡ available x
          → single
              (select (qualifies fl casefold target correlation_id incident_id expected) alerts)
            ≡ available x
      by_series none k = absurd (cc k)
      by_series (some e) k = k

  -- The snapshot from before the recovery is available only for one of the alerts, that belongs to
  -- the target, comes under the SLI rule with a chronology that holds and a value known to exceed
  -- its threshold, and no other alert qualifies: an ambiguous or harmless alert is never taken.
  pub available_is_the_only_one :
      (alerts : List (Alert F)) (target : Target) (correlation_id incident_id : String)
      (given : Option Series) (x : Alert F)
      → before_alert_snapshot fl casefold alerts target correlation_id incident_id given
        ≡ available x
      → In x alerts
        × (alert_matches_target casefold x target ≡ true)
        × (x.rule_name ≡ sli_alert_name)
        × (chronology_holds casefold x ≡ true)
        × ((observed : F) × (threshold : F) × (x.observed_value ≡ some observed)
            × (x.threshold ≡ some threshold)
            × (le observed threshold ≡ false))
        × ((y : Alert F)
            → In y alerts
            → qualifies fl casefold target correlation_id incident_id (expected_of given) y ≡ true
            → y ≡ x)
  available_is_the_only_one alerts target correlation_id incident_id given x h =
      let (i, q, others) =
        only_one (qualifies fl casefold target correlation_id incident_id (expected_of given))
          alerts x (found alerts target correlation_id incident_id given x h) in
      let (matches, rule, chronology, over) =
        qualified target correlation_id incident_id (expected_of given) x q in
      (
        i,
        matches,
        beq_true x.rule_name sli_alert_name rule,
        chronology,
        exceeded x.observed_value x.threshold over,
        others,
      )
