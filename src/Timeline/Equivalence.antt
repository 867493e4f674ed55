-- ===== src/Timeline/Equivalence.antt =====
-- The two loops of domains/timeline/coverage.py, cluster by cluster.
use k8s_ops.Prelude.{
  ℕ, String, false, Option, none, some, List, [], ◌∷◌, ◌++◌, select, Table, lookup, put, remove,
  lookup-put, lookup-put_self, lookup-remove, ◌==◌, string_eq, ◌≡◌, refl, sym, Bool-cases, inl, inr,
  In, beq_self, beq_true,
}
use k8s_ops.Timeline.Coverage.{
  Observation, Scope, Window, TimelineCoverage, Projection, projects, then_project, first_opened,
  closes, recovered, project_cluster, too_early, recovered_in, project_ordered, close_gap,
}
use k8s_ops.Timeline.Intervals.{
  covers_cluster, observes_cluster, select-append, append_nil, added, close_gap_lem,
  then_project-projects, added-own, added-other, CaptureState-cases,
}

module _ (milliseconds : ℕ → ℕ) (scopes_of : String → List Scope) (window : Window) where
  -- One loop stands for the other from a state on.
  Agrees :
      String → List Observation → Table String ℕ → Table String ℕ → List TimelineCoverage → Type 0
  Agrees cluster observations opened last projected =
      (result : List TimelineCoverage)
      → project_ordered milliseconds scopes_of window none observations opened last projected
        ≡ projects result
      → project_cluster milliseconds scopes_of window none
          (select (observes_cluster cluster) observations) (lookup cluster opened)
          (select (covers_cluster cluster) projected)
        ≡ projects (select (covers_cluster cluster) result)

  AllAgree : String → List Observation → Type 0
  AllAgree cluster observations =
      (opened last : Table String ℕ) (projected : List TimelineCoverage)
      → Agrees cluster observations opened last projected

  recovered_own :
      (cluster : String) (observed_at : ℕ) (closing : Option ℕ)
      (next : Option ℕ → List TimelineCoverage → Projection)
      (next_in : Table String ℕ → List TimelineCoverage → Projection) (opened : Table String ℕ)
      (projected result : List TimelineCoverage)
      → ((s : Scope) → In s (scopes_of cluster) → s.cluster_id ≡ cluster)
      → ((t : Table String ℕ) (p : List TimelineCoverage)
          → next_in t p ≡ projects result
          → next (lookup cluster t) (select (covers_cluster cluster) p)
            ≡ projects (select (covers_cluster cluster) result))
      → recovered_in milliseconds scopes_of window none cluster observed_at closing next_in opened
          projected
        ≡ projects result
      → recovered milliseconds scopes_of window none cluster observed_at closing next
          (lookup cluster opened)
          (select (covers_cluster cluster) projected)
        ≡ projects (select (covers_cluster cluster) result)
  unfolding recovered recovered_in then_project
  recovered_own cluster observed_at none next next_in opened projected result own more e =
      more opened projected e
  recovered_own cluster observed_at (some opened_at) next next_in opened projected result own more
        e =
      let scopes = scopes_of cluster in
      let new = added milliseconds scopes window opened_at observed_at in
      let (middle, first, rest) =
        then_project-projects
          (close_gap milliseconds scopes window none opened_at observed_at projected)
          (next_in (remove cluster opened)) result e in
      let a =
        close_gap_lem milliseconds scopes window opened_at observed_at projected middle first in
      let h = more (remove cluster opened) (projected ++ new) (rw a.adds at rest) in
      let h' =
        simp
          (
            lookup-remove,
            beq_self,
            select-append,
            added-own cluster milliseconds scopes window opened_at observed_at own,
          )
          at h in
      rw (a.adds_elsewhere (select (covers_cluster cluster) projected)) h'

  recovered_other :
      (cluster other : String) (observed_at : ℕ) (closing : Option ℕ)
      (next : Option ℕ → List TimelineCoverage → Projection)
      (next_in : Table String ℕ → List TimelineCoverage → Projection) (opened : Table String ℕ)
      (projected result : List TimelineCoverage)
      → (other == cluster) ≡ false
      → ((s : Scope) → In s (scopes_of other) → s.cluster_id ≡ other)
      → ((t : Table String ℕ) (p : List TimelineCoverage)
          → next_in t p ≡ projects result
          → next (lookup cluster t) (select (covers_cluster cluster) p)
            ≡ projects (select (covers_cluster cluster) result))
      → recovered_in milliseconds scopes_of window none other observed_at closing next_in opened
          projected
        ≡ projects result
      → next (lookup cluster opened) (select (covers_cluster cluster) projected)
        ≡ projects (select (covers_cluster cluster) result)
  unfolding recovered_in then_project
  recovered_other cluster other observed_at none next next_in opened projected result away own more
        e =
      more opened projected e
  recovered_other cluster other observed_at (some opened_at) next next_in opened projected result
        away own more e =
      let scopes = scopes_of other in
      let new = added milliseconds scopes window opened_at observed_at in
      let (middle, first, rest) =
        then_project-projects
          (close_gap milliseconds scopes window none opened_at observed_at projected)
          (next_in (remove other opened)) result e in
      let a =
        close_gap_lem milliseconds scopes window opened_at observed_at projected middle first in
      let h = more (remove other opened) (projected ++ new) (rw a.adds at rest) in
      simp
        (
          lookup-remove,
          away,
          select-append,
          added-other cluster other milliseconds scopes window opened_at observed_at away own,
          append_nil,
        )
        at h

  own_step :
      (o : Observation) (observations : List Observation) (opened last : Table String ℕ)
      (projected : List TimelineCoverage)
      → ((s : Scope) → In s (scopes_of o.cluster_id) → s.cluster_id ≡ o.cluster_id)
      → AllAgree o.cluster_id observations
      → Agrees o.cluster_id (o ∷ observations) opened last projected
  unfolding Agrees AllAgree project_ordered project_cluster observes_cluster
  own_step o observations opened last projected own more result e =
      elim (Bool-cases (too_early (lookup o.cluster_id last) o.observed_at)) [
        | inl early ↦ absurd (cc (simp early at e))
        | inr on_time ↦ elim (CaptureState-cases o.state) [
          | inl s ↦
              let e' = simp (on_time, s) at e in
              let h =
                more
                  (put o.cluster_id (first_opened (lookup o.cluster_id opened) o.observed_at)
                    opened)
                  (put o.cluster_id o.observed_at last) projected result e' in
              simp (beq_self, s) (simp lookup-put_self at h)
          | inr s ↦
              let e' = simp (on_time, s) at e in
              simp (beq_self, s)
                (recovered_own o.cluster_id o.observed_at
                  (closes (lookup o.cluster_id opened) o.observed_at)
                  (project_cluster milliseconds scopes_of window none
                    (select (observes_cluster o.cluster_id) observations))
                  (λ t p.
                    project_ordered milliseconds scopes_of window none observations t
                      (put o.cluster_id o.observed_at last) p)
                  opened projected result own
                  (λ t p. more t (put o.cluster_id o.observed_at last) p result) e')
        ]
      ]

  other_step :
      (cluster : String) (o : Observation) (observations : List Observation)
      (opened last : Table String ℕ) (projected : List TimelineCoverage)
      → (o.cluster_id == cluster) ≡ false
      → ((s : Scope) → In s (scopes_of o.cluster_id) → s.cluster_id ≡ o.cluster_id)
      → AllAgree cluster observations
      → Agrees cluster (o ∷ observations) opened last projected
  unfolding Agrees AllAgree project_ordered observes_cluster
  other_step cluster o observations opened last projected away own more result e =
      elim (Bool-cases (too_early (lookup o.cluster_id last) o.observed_at)) [
        | inl early ↦ absurd (cc (simp early at e))
        | inr on_time ↦ elim (CaptureState-cases o.state) [
          | inl s ↦
              let e' = simp (on_time, s) at e in
              let h =
                more
                  (put o.cluster_id (first_opened (lookup o.cluster_id opened) o.observed_at)
                    opened)
                  (put o.cluster_id o.observed_at last) projected result e' in
              simp away (simp (lookup-put, away) at h)
          | inr s ↦
              let e' = simp (on_time, s) at e in
              simp away (
                recovered_other cluster o.cluster_id o.observed_at
                  (closes (lookup o.cluster_id opened) o.observed_at)
                  (project_cluster milliseconds scopes_of window none
                    (select (observes_cluster cluster) observations))
                  (λ t p.
                    project_ordered milliseconds scopes_of window none observations t
                      (put o.cluster_id o.observed_at last) p)
                  opened projected result away own
                  (λ t p. more t (put o.cluster_id o.observed_at last) p result) e')
        ]
      ]

  own_step_at :
      (cluster : String) (o : Observation) (observations : List Observation)
      (opened last : Table String ℕ) (projected : List TimelineCoverage)
      → o.cluster_id ≡ cluster
      → ((s : Scope) → In s (scopes_of o.cluster_id) → s.cluster_id ≡ o.cluster_id)
      → AllAgree o.cluster_id observations
      → Agrees cluster (o ∷ observations) opened last projected
  own_step_at cluster o observations opened last projected same own more =
      rw (sym same) (own_step o observations opened last projected own more)

  all_agree :
      ((c : String) (s : Scope) → In s (scopes_of c) → s.cluster_id ≡ c)
      → (cluster : String) (observations : List Observation) → AllAgree cluster observations
  unfolding AllAgree Agrees project_ordered project_cluster
  all_agree own cluster [] opened last projected result e =
      let same : projected ≡ result = cc e in rw same refl
  all_agree own cluster (o ∷ observations) opened last projected result h =
      elim (Bool-cases (o.cluster_id == cluster)) [
        | inl e ↦
            own_step_at cluster o observations opened last projected
              (beq_true o.cluster_id cluster e) (own o.cluster_id)
              (all_agree own o.cluster_id observations) result h
        | inr e ↦
            other_step cluster o observations opened last projected e (own o.cluster_id)
              (all_agree own cluster observations) result h
      ]

  -- Where the scopes listed for a cluster are its own and there is no limit on the intervals: if
  -- the cursor is accepted, then for each cluster the intervals that the ordered projection
  -- reports are those, in the same order, that the loop over the observations of that cluster alone
  -- reports, however the clusters are interleaved.
  pub ordered_as_by_cluster :
      ((c : String) (s : Scope) → In s (scopes_of c) → s.cluster_id ≡ c)
      → (cluster : String) (observations : List Observation) (result : List TimelineCoverage)
      → project_ordered milliseconds scopes_of window none observations [] [] [] ≡ projects result
      → project_cluster milliseconds scopes_of window none
          (select (observes_cluster cluster) observations)
          none
          []
        ≡ projects (select (covers_cluster cluster) result)
  unfolding lookup AllAgree Agrees
  ordered_as_by_cluster own cluster observations result e =
      all_agree own cluster observations [] [] [] result e
