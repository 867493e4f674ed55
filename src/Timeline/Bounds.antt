-- ===== src/Timeline/Bounds.antt =====
-- What domains/timeline/coverage.py may report: its limit, and the shape of an interval.
use k8s_ops.Prelude.{
  ℕ, ◌≤◌, String, Option, none, some, List, [], ◌∷◌, ◌++◌, leb, length, length-append, Table,
  lookup, put, remove, string_eq, ◌≡◌, sym, Bool-cases, inl, inr, arith,
}
use k8s_ops.Timeline.Coverage.{
  Observation, Scope, Window, TimelineCoverage, Projection, projects, intersects_window, is_full,
  interval, append_coverage_intervals, close_gap, first_opened, closes, too_early, recovered_in,
  project_ordered,
}
use k8s_ops.Timeline.Intervals.{CaptureState-cases, then_project-projects}

append-within :
    (scopes : List Scope) (from_ms to_ms max_intervals : ℕ)
    (projected result : List TimelineCoverage)
    → length projected ≤ max_intervals
    → append_coverage_intervals scopes from_ms to_ms (some max_intervals) projected
      ≡ projects result
    → length result ≤ max_intervals
unfolding append_coverage_intervals is_full
append-within [] from_ms to_ms max_intervals projected result h e =
    let same : projected ≡ result = cc e in rw (sym same) h
append-within (scope ∷ scopes) from_ms to_ms max_intervals projected result h e =
    elim (Bool-cases (leb max_intervals (length projected))) [
      | inl full ↦ absurd (cc (simp full at e))
      | inr room ↦ elim (Bool-cases (leb to_ms from_ms)) [
        | inl narrow ↦ absurd (cc (simp (room, narrow) at e))
        | inr wide ↦
            let longer = length-append projected (interval scope from_ms to_ms ∷ []) in
            append-within scopes from_ms to_ms max_intervals
              (projected ++ interval scope from_ms to_ms ∷ []) result (ground (arith, room, longer))
              (simp (room, wide) at e)
      ]
    ]

close_gap-within :
    (milliseconds : ℕ → ℕ) (scopes : List Scope) (window : Window)
    (max_intervals opened_at observed_at : ℕ) (projected result : List TimelineCoverage)
    → length projected ≤ max_intervals
    → close_gap milliseconds scopes window (some max_intervals) opened_at observed_at projected
      ≡ projects result
    → length result ≤ max_intervals
unfolding close_gap
close_gap-within milliseconds scopes window max_intervals opened_at observed_at projected result h
      e =
    elim (Bool-cases
      (intersects_window (milliseconds opened_at) (milliseconds observed_at) window)) [
        | inl q ↦
            append-within scopes (milliseconds opened_at) (milliseconds observed_at) max_intervals
              projected result h (simp q at e)
        | inr q ↦ let same : projected ≡ result = cc (simp q at e) in rw (sym same) h
      ]

module _ (milliseconds : ℕ → ℕ) (scopes_of : String → List Scope) (window : Window)
    (max_intervals : ℕ) where
  recovered_in-within :
      (cluster : String) (observed_at : ℕ) (closing : Option ℕ)
      (next : Table String ℕ → List TimelineCoverage → Projection) (opened : Table String ℕ)
      (projected result : List TimelineCoverage)
      → length projected ≤ max_intervals
      → ((t : Table String ℕ) (p : List TimelineCoverage)
          → length p ≤ max_intervals
          → next t p ≡ projects result
          → length result ≤ max_intervals)
      → recovered_in milliseconds scopes_of window
          (some max_intervals)
          cluster
          observed_at
          closing
          next
          opened
          projected
        ≡ projects result
      → length result ≤ max_intervals
  unfolding recovered_in
  recovered_in-within cluster observed_at none next opened projected result h more e =
      more opened projected h e
  recovered_in-within cluster observed_at (some opened_at) next opened projected result h more e =
      let (middle, first, rest) =
        then_project-projects
          (close_gap milliseconds (scopes_of cluster) window (some max_intervals) opened_at
            observed_at projected)
          (next (remove cluster opened)) result e in
      more (remove cluster opened) middle
        (close_gap-within milliseconds (scopes_of cluster) window max_intervals opened_at
          observed_at projected middle h first)
        rest

  ordered_within :
      (observations : List Observation) (opened last : Table String ℕ)
      (projected result : List TimelineCoverage)
      → length projected ≤ max_intervals
      → project_ordered milliseconds scopes_of window
          (some max_intervals)
          observations
          opened
          last
          projected
        ≡ projects result
      → length result ≤ max_intervals
  unfolding project_ordered
  ordered_within [] opened last projected result h e =
      let same : projected ≡ result = cc e in rw (sym same) h
  ordered_within (o ∷ observations) opened last projected result h e =
      elim (Bool-cases (too_early (lookup o.cluster_id last) o.observed_at)) [
        | inl early ↦ absurd (cc (simp early at e))
        | inr on_time ↦ elim (CaptureState-cases o.state) [
          | inl s ↦
              ordered_within observations
                (put o.cluster_id (first_opened (lookup o.cluster_id opened) o.observed_at) opened)
                (put o.cluster_id o.observed_at last) projected result h (simp (on_time, s) at e)
          | inr s ↦
              recovered_in-within o.cluster_id o.observed_at
                (closes (lookup o.cluster_id opened) o.observed_at)
                (λ t p.
                  project_ordered milliseconds scopes_of window (some max_intervals) observations t
                    (put o.cluster_id o.observed_at last) p)
                opened projected result h
                (λ t p.
                  ordered_within observations t (put o.cluster_id o.observed_at last) p result)
                (simp (on_time, s) at e)
        ]
      ]

  -- A projection that is not refused reports no more intervals than its limit.
  pub coverage_within_limit :
      (observations : List Observation) (result : List TimelineCoverage)
      → project_ordered milliseconds scopes_of window (some max_intervals) observations [] [] []
        ≡ projects result
      → length result ≤ max_intervals
  coverage_within_limit observations result e =
      ordered_within observations [] [] [] result (omega arith) e
