-- ===== src/Timeline/Soundness.antt =====
-- Where the intervals of domains/timeline/coverage.py come from.
use k8s_ops.Prelude.{
  ℕ, ◌<◌, String, Option, none, some, List, [], ◌∷◌, ◌++◌, leb, Table, lookup, put, remove,
  lookup-put, lookup-remove, ◌==◌, string_eq, ◌≡◌, refl, sym, ap, Bool-cases, inl, inr, In, here,
  there, arith, beq_true,
}
use k8s_ops.Timeline.Coverage.{
  gap, recovery, Observation, Scope, Window, TimelineCoverage, Projection, projects, interval,
  append_coverage_intervals, close_gap, closes, first_opened, intersects_window, is_full,
  project_ordered, recovered_in, too_early,
}
use k8s_ops.Timeline.Intervals.{CaptureState-cases, then_project-projects}
use k8s_ops.Timeline.Proven.{Proven, OpenGap, In-append, closes-some}

module _ (milliseconds : ℕ → ℕ) (scopes_of : String → List Scope) (window : Window)
    (max_intervals : Option ℕ) (seen : List Observation) where
  AllProven : List TimelineCoverage → Type 0
  AllProven items = (item : TimelineCoverage) → In item items → Proven milliseconds window seen item

  AllOpen : Table String ℕ → Type 0
  AllOpen opened =
      (cluster : String) (opened_at : ℕ)
      → lookup cluster opened ≡ some opened_at
      → OpenGap seen cluster opened_at

  append-Proven :
      (scopes : List Scope) (from_ms to_ms : ℕ) (projected result : List TimelineCoverage)
      → ((scope : Scope)
          → from_ms < to_ms
          → Proven milliseconds window seen (interval scope from_ms to_ms))
      → AllProven projected
      → append_coverage_intervals scopes from_ms to_ms max_intervals projected ≡ projects result
      → AllProven result
  unfolding append_coverage_intervals AllProven
  append-Proven [] from_ms to_ms projected result new old e =
      let same : projected ≡ result = cc e in rw (sym same) old
  append-Proven (scope ∷ scopes) from_ms to_ms projected result new old e =
      elim (Bool-cases (is_full max_intervals projected)) [
        | inl full ↦ absurd (cc (simp full at e))
        | inr room ↦ elim (Bool-cases (leb to_ms from_ms)) [
          | inl narrow ↦ absurd (cc (simp (room, narrow) at e))
          | inr wide ↦
              append-Proven scopes from_ms to_ms (projected ++ interval scope from_ms to_ms ∷ [])
                result new
                (λ item i. elim (In-append item (interval scope from_ms to_ms) projected i) [
                  | inl before ↦ old item before
                  | inr same ↦ rw same (new scope (ground (arith, wide)))
                ])
                (simp (room, wide) at e)
        ]
      ]

  closed_proven :
      (o : Observation) (opened_at : ℕ) (projected result : List TimelineCoverage)
      → In o seen
      → o.state ≡ recovery
      → OpenGap seen o.cluster_id opened_at
      → opened_at < o.observed_at
      → AllProven projected
      → close_gap milliseconds
          (scopes_of o.cluster_id)
          window
          max_intervals
          opened_at
          o.observed_at
          projected
        ≡ projects result
      → AllProven result
  unfolding close_gap
  closed_proven o opened_at projected result i s g later old e =
      elim (Bool-cases
        (intersects_window (milliseconds opened_at) (milliseconds o.observed_at) window)) [
          | inl q ↦
              append-Proven (scopes_of o.cluster_id) (milliseconds opened_at)
                (milliseconds o.observed_at) projected result
                (λ scope wide. record {
                  failed = g.opening;
                  recovered = o;
                  failed_seen = g.opening_seen;
                  recovered_seen = i;
                  is_gap = g.opening_is_gap;
                  is_recovery = s;
                  one_cluster = g.opening_cluster;
                  later = rw g.opening_at later;
                  starts = ap milliseconds (sym g.opening_at);
                  ends = refl;
                  wide = wide;
                  meets_window = q;
                })
                old (simp q at e)
          | inr q ↦ let same : projected ≡ result = cc (simp q at e) in rw (sym same) old
        ]

  opened_by_gap :
      (o : Observation) (opened : Table String ℕ)
      → In o seen
      → o.state ≡ gap
      → AllOpen opened
      → (found : Option ℕ) → lookup o.cluster_id opened ≡ found
      → OpenGap seen o.cluster_id (first_opened found o.observed_at)
  unfolding first_opened AllOpen
  opened_by_gap o opened i s standing none e = record {
    opening = o;
    opening_seen = i;
    opening_is_gap = s;
    opening_cluster = refl;
    opening_at = refl;
  }
  opened_by_gap o opened i s standing (some opened_at) e = standing o.cluster_id opened_at e

  AllOpen-put :
      (cluster : String) (opened_at : ℕ) (opened : Table String ℕ)
      → OpenGap seen cluster opened_at
      → AllOpen opened
      → AllOpen (put cluster opened_at opened)
  unfolding AllOpen
  AllOpen-put cluster opened_at opened g standing other moment e =
      elim (Bool-cases (cluster == other)) [
        | inl q ↦
            let found : some opened_at ≡ some moment =
              rw (lookup-put cluster other opened_at opened, q) at e in
            let same : opened_at ≡ moment = cc found in
            rw (sym (beq_true cluster other q), sym same) g
        | inr q ↦ standing other moment (rw (lookup-put cluster other opened_at opened, q) at e)
      ]

  AllOpen-remove :
      (cluster : String) (opened : Table String ℕ)
      → AllOpen opened
      → AllOpen (remove cluster opened)
  unfolding AllOpen
  AllOpen-remove cluster opened standing other moment e = elim (Bool-cases (cluster == other)) [
    | inl q ↦ absurd (cc (rw (lookup-remove cluster other opened, q) at e))
    | inr q ↦ standing other moment (rw (lookup-remove cluster other opened, q) at e)
  ]

  recovered_proven :
      (o : Observation) (closing : Option ℕ)
      (next : Table String ℕ → List TimelineCoverage → Projection) (opened : Table String ℕ)
      (projected result : List TimelineCoverage)
      → closes (lookup o.cluster_id opened) o.observed_at ≡ closing
      → In o seen
      → o.state ≡ recovery
      → AllOpen opened
      → AllProven projected
      → ((t : Table String ℕ) (p : List TimelineCoverage)
          → AllOpen t
          → AllProven p
          → next t p ≡ projects result
          → AllProven result)
      → recovered_in milliseconds scopes_of window max_intervals o.cluster_id o.observed_at closing
          next opened projected
        ≡ projects result
      → AllProven result
  unfolding recovered_in AllOpen
  recovered_proven o none next opened projected result c i s standing old more e =
      more opened projected standing old e
  recovered_proven o (some opened_at) next opened projected result c i s standing old more e =
      let (found, later) = closes-some (lookup o.cluster_id opened) o.observed_at opened_at c in
      let (middle, first, rest) =
        then_project-projects
          (close_gap milliseconds (scopes_of o.cluster_id) window max_intervals opened_at
            o.observed_at projected)
          (next (remove o.cluster_id opened)) result e in
      more (remove o.cluster_id opened) middle (AllOpen-remove o.cluster_id opened standing)
        (closed_proven o opened_at projected middle i s (standing o.cluster_id opened_at found)
          later old first)
        rest

  ordered_proven :
      (observations : List Observation) (opened last : Table String ℕ)
      (projected result : List TimelineCoverage)
      → ((o : Observation) → In o observations → In o seen)
      → AllOpen opened
      → AllProven projected
      → project_ordered milliseconds scopes_of window max_intervals observations opened last
          projected
        ≡ projects result
      → AllProven result
  unfolding project_ordered
  ordered_proven [] opened last projected result known standing old e =
      let same : projected ≡ result = cc e in rw (sym same) old
  ordered_proven (o ∷ observations) opened last projected result known standing old e =
      elim (Bool-cases (too_early (lookup o.cluster_id last) o.observed_at)) [
        | inl early ↦ absurd (cc (simp early at e))
        | inr on_time ↦ elim (CaptureState-cases o.state) [
          | inl s ↦
              let opened_at = first_opened (lookup o.cluster_id opened) o.observed_at in
              ordered_proven observations (put o.cluster_id opened_at opened)
                (put o.cluster_id o.observed_at last) projected result (λ x i. known x (there i))
                (AllOpen-put o.cluster_id opened_at opened
                  (opened_by_gap o opened (known o here) s standing (lookup o.cluster_id opened)
                    refl)
                  standing)
                old (simp (on_time, s) at e)
          | inr s ↦
              recovered_proven o (closes (lookup o.cluster_id opened) o.observed_at)
                (λ t p.
                  project_ordered milliseconds scopes_of window max_intervals observations t
                    (put o.cluster_id o.observed_at last) p)
                opened projected result refl (known o here) s standing old
                (λ t p standing' old'.
                  ordered_proven observations t (put o.cluster_id o.observed_at last) p result
                    (λ x i. known x (there i)) standing' old')
                (simp (on_time, s) at e)
        ]
      ]

-- Every interval that an accepted cursor reports runs from an observed gap to a later observed
-- recovery of the same cluster, has a positive width and meets the window.
pub project_ordered-Proven :
    (milliseconds : ℕ → ℕ) (scopes_of : String → List Scope) (window : Window)
    (max_intervals : Option ℕ) (seen : List Observation) (result : List TimelineCoverage)
    → project_ordered milliseconds scopes_of window max_intervals seen [] [] [] ≡ projects result
    → (item : TimelineCoverage) → In item result
    → Proven milliseconds window seen item
unfolding AllOpen AllProven lookup
project_ordered-Proven milliseconds scopes_of window max_intervals seen result e =
    ordered_proven milliseconds scopes_of window max_intervals seen seen [] [] [] result (λ o i. i)
      (λ cluster opened_at found. absurd (cc found)) (λ item i. elim i [ ]) e
