-- ===== src/Recovery/Alerts/Laws.antt =====
-- Lemmas on the two verdicts of `alert_checks` in domains/rca/recovery_verification.py.
use k8s_ops.Prelude.{
  ℕ, ◌<◌, String, Bool, true, false, not, ◌&&◌, Option, none, some, string_eq, List, [], ◌∷◌, ◌≡◌,
  refl, arith, In, here, there, Bool-cases, Option-cases, ◌⊎◌, inl, inr, if◌then◌else◌, &&_iff, leb,
}
use k8s_ops.Recovery.Observed.{Target}
use k8s_ops.Recovery.Alerts.{
  Alert, Before, alert_matches_original_series, fired_since, is_original, scan_alerts,
  alert_verdicts, alert_checks,
}

some_eq {ℓ} : {A : Type ℓ} (x y : A) → some x ≡ some y → x ≡ y
some_eq x y h = ground (arith, h)

if_true : (b r : Bool) → r ≡ true → (if b then true else r) ≡ true
if_true b r h = ground arith

refires :
    (m o f r : Bool)
    → m ≡ true
    → o ≡ false
    → f ≡ true
    → (if m && not o && f then true else r) ≡ true
refires m o f r hm ho hf = ground arith

module _ {F : Type 0} (casefold : String → String) (before : Before) (target : Target) where
  -- the original that the loop ends with is one of the alerts, or the one it began with
  scan_original :
      (alerts : List (Alert F)) (started : Option ℕ) (o : Option (Alert F)) (r : Bool) (x : Alert F)
      → (scan_alerts casefold alerts before target started o r).0 ≡ some x
      → (o ≡ some x)
        ⊎ (In x alerts
            × (alert_matches_original_series casefold x before target ≡ true)
            × (is_original casefold x before ≡ true))
  unfolding scan_alerts
  scan_original [] started o r x h = inl h
  scan_original (a ∷ alerts) started o r x h =
      let matches = alert_matches_original_series casefold a before target in
      let original = is_original casefold a before in
      elim (scan_original alerts started _ _ x h) [
        | inr (i, m, e) ↦ inr (there i, m, e)
        | inl now ↦ elim (Bool-cases (matches && original)) [
          | inr other ↦ inl (rw other at now)
          | inl this ↦
              let e : a ≡ x = some_eq a x (rw this at now) in
              let (m, own) = (&&_iff matches original).0 this in inr (rw (← e) (here, m, own))
        ]
      ]

  -- once refired, always refired
  scan_refired :
      (alerts : List (Alert F)) (started : Option ℕ) (o : Option (Alert F)) (r : Bool)
      → r ≡ true
      → (scan_alerts casefold alerts before target started o r).1 ≡ true
  unfolding scan_alerts
  scan_refired [] started o r h = h
  scan_refired (a ∷ alerts) started o r h = scan_refired alerts started _ _ (if_true _ r h)

  -- where nothing has refired, an alert of the series is the original or has not fired since
  scan_quiet :
      (alerts : List (Alert F)) (started fired : ℕ) (o : Option (Alert F)) (r : Bool) (x : Alert F)
      → (scan_alerts casefold alerts before target (some started) o r).1 ≡ false
      → In x alerts
      → alert_matches_original_series casefold x before target ≡ true
      → is_original casefold x before ≡ false
      → x.fired_at ≡ some fired
      → fired < started
  unfolding scan_alerts
  scan_quiet [] started fired o r x h i m other at = elim i [ ]
  scan_quiet (a ∷ alerts) started fired o r x h (there i) m other at =
      scan_quiet alerts started fired _ _ x h i m other at
  scan_quiet (a ∷ alerts) started fired o r x h here m other at =
      elim (Bool-cases (leb started fired)) [
        | inr earlier ↦ ground (arith, earlier)
        | inl since ↦ absurd (
            cc (
              h,
              scan_refired alerts (some started) _ _ (
                  refires (alert_matches_original_series casefold a before target)
                    (is_original casefold a before) (fired_since (some started) a.fired_at) r m
                    other (rw at since)),
            ))
      ]

  resolved_verdict :
      (o : Option (Alert F)) (r : Bool)
      → (alert_verdicts casefold (o, r)).0 ≡ some true
      → (x : Alert F) × (resolved : ℕ) × (o ≡ some x) × (x.resolved_at ≡ some resolved)
  resolved_verdict none r h = absurd (cc)
  resolved_verdict (some x) r h = elim (Option-cases x.resolved_at) [
    | inl unknown ↦ absurd (ground (arith, h, unknown))
    | inr (resolved, at) ↦ (x, resolved, refl, at)
  ]

  quiet_verdict :
      (o : Option (Alert F)) (r : Bool)
      → (alert_verdicts casefold (o, r)).1 ≡ some true
      → (x : Alert F) × (o ≡ some x) × (r ≡ false)
  quiet_verdict none r h = absurd (ground (arith, h))
  quiet_verdict (some x) r h = (x, refl, ground (arith, h))

  from_alerts :
      (alerts : List (Alert F)) (started : Option ℕ) (x : Alert F)
      → (scan_alerts casefold alerts before target started none false).0 ≡ some x
      → In x alerts
        × (alert_matches_original_series casefold x before target ≡ true)
        × (is_original casefold x before ≡ true)
  from_alerts alerts started x h = elim (scan_original alerts started none false x h) [
    | inl nothing ↦ absurd (cc nothing)
    | inr found ↦ found
  ]

  -- The verdict "resolved" is true only where one of the alerts is the original one, of the
  -- original series, and its resolution time is known.
  pub resolved_means_original :
      (alerts : List (Alert F)) (started : Option ℕ)
      → (alert_checks casefold alerts before target started).0 ≡ some true
      → (x : Alert F) × (resolved : ℕ) × In x alerts
        × (alert_matches_original_series casefold x before target ≡ true)
        × (is_original casefold x before ≡ true)
        × (x.resolved_at ≡ some resolved)
  unfolding alert_checks
  resolved_means_original alerts started h =
      let (original, refired) = scan_alerts casefold alerts before target started none false in
      let (x, resolved, held, at) = resolved_verdict original refired h in
      let (i, m, e) = from_alerts alerts started x held in (x, resolved, i, m, e, at)

  -- For a verification that has started, the verdict "no refire" is true only where the original
  -- is among the alerts, and every other alert of the original series with a known firing time
  -- fired before the verification started.
  pub no_refire_means_quiet :
      (alerts : List (Alert F)) (started : ℕ)
      → (alert_checks casefold alerts before target (some started)).1 ≡ some true
      → ((x : Alert F) × In x alerts × (is_original casefold x before ≡ true))
        × ((x : Alert F) (fired : ℕ)
            → In x alerts
            → alert_matches_original_series casefold x before target ≡ true
            → is_original casefold x before ≡ false
            → x.fired_at ≡ some fired
            → fired < started)
  unfolding alert_checks
  no_refire_means_quiet alerts started h =
      let (original, refired) =
        scan_alerts casefold alerts before target (some started) none false in
      let (x, held, quiet) = quiet_verdict original refired h in
      let (i, m, e) = from_alerts alerts (some started) x held in
      (
        (x, i, e),
        λ y fired j my other at. scan_quiet alerts started fired none false y quiet j my other at,
      )
