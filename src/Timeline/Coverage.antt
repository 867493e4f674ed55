-- ===== src/Timeline/Coverage.antt =====
-- The two ways in which domains/timeline/coverage.py projects gaps, on observations that have been
-- read from the snapshots. A moment is a whole number of microseconds; `milliseconds` is what
-- `_milliseconds` makes of it with Python's floats. The sort of the result and
-- the clusters that a reader may see come before and after; `scopes_of` is what
-- `_authorized_scopes_by_cluster` has for a cluster.
use k8s_ops.Prelude.{
  ℕ, String, Bool, false, ◌&&◌, Option, none, some, List, [], ◌∷◌, ◌++◌, if◌then◌else◌, leb, ltb,
  length, Table, lookup, put, remove, string_eq,
}

pub data CaptureState : Type 0 where
  gap recovery : CaptureState

pub record Observation : Type 0 where
  pub cluster_id : String
  pub observed_at : ℕ
  pub state : CaptureState

pub record Scope : Type 0 where
  pub workspace_id : String
  pub cluster_id : String
  pub namespaces : List String
  pub freshness : String

pub record Window : Type 0 where
  pub from_ms : ℕ
  pub to_ms : ℕ

pub record TimelineCoverage : Type 0 where
  pub scope : Scope
  pub source : String
  pub from_ms : ℕ
  pub to_ms : ℕ
  pub reason : String

-- The intervals projected so far, or the exception: the limit, a cursor out of order, or the
-- `ValueError` of `TimelineCoverage` for an interval without a positive width.
pub data Projection : Type 0 where
  projects : List TimelineCoverage → Projection
  limit_exceeded not_ordered not_positive : Projection

unfoldable pub then_project : Projection → (List TimelineCoverage → Projection) → Projection
then_project (projects projected) next = next projected
then_project limit_exceeded next = limit_exceeded
then_project not_ordered next = not_ordered
then_project not_positive next = not_positive

unfoldable pub intersects_window : ℕ → ℕ → Window → Bool
intersects_window from_ms to_ms window = ltb from_ms window.to_ms && ltb window.from_ms to_ms

unfoldable pub is_full : Option ℕ → List TimelineCoverage → Bool
is_full none projected = false
is_full (some max_intervals) projected = leb max_intervals (length projected)

abbrev pub interval : Scope → ℕ → ℕ → TimelineCoverage
interval scope from_ms to_ms = record {
  scope = scope;
  source = "kubernetes_event";
  from_ms = from_ms;
  to_ms = to_ms;
  reason = "collection_gap";
}

unfoldable pub append_coverage_intervals :
    List Scope → ℕ → ℕ → Option ℕ → List TimelineCoverage → Projection
unfolding is_full
append_coverage_intervals [] from_ms to_ms max_intervals projected = projects projected
append_coverage_intervals (scope ∷ scopes) from_ms to_ms max_intervals projected =
    let rest =
      append_coverage_intervals scopes from_ms to_ms max_intervals
        (projected ++ interval scope from_ms to_ms ∷ []) in
    if is_full max_intervals projected
    then limit_exceeded
    else if leb to_ms from_ms
    then not_positive
    else rest

-- A gap that a recovery has closed.
unfoldable pub close_gap :
    (ℕ → ℕ) → List Scope → Window → Option ℕ → ℕ → ℕ → List TimelineCoverage → Projection
unfolding append_coverage_intervals intersects_window
close_gap milliseconds scopes window max_intervals opened_at observed_at projected =
    if intersects_window (milliseconds opened_at) (milliseconds observed_at) window
    then append_coverage_intervals scopes (milliseconds opened_at) (milliseconds observed_at)
        max_intervals projected
    else projects projected

-- `opened_at or observed_at`, and `setdefault`
unfoldable pub first_opened : Option ℕ → ℕ → ℕ
first_opened none observed_at = observed_at
first_opened (some opened_at) observed_at = opened_at

-- The moment at which a recovery closes a gap, if it does.
unfoldable pub closes : Option ℕ → ℕ → Option ℕ
closes none observed_at = none
closes (some opened_at) observed_at = if leb observed_at opened_at then none else some opened_at

unfoldable pub too_early : Option ℕ → ℕ → Bool
too_early none observed_at = false
too_early (some previous) observed_at = ltb observed_at previous

module _ (milliseconds : ℕ → ℕ) (scopes_of : String → List Scope) (window : Window)
    (max_intervals : Option ℕ) where
  unfoldable pub recovered :
      String
      → ℕ
      → Option ℕ
      → (Option ℕ → List TimelineCoverage → Projection)
      → Option ℕ
      → List TimelineCoverage
      → Projection
  unfolding close_gap then_project
  recovered cluster observed_at none next opened projected = next opened projected
  recovered cluster observed_at (some opened_at) next opened projected =
      then_project
        (close_gap milliseconds (scopes_of cluster) window max_intervals opened_at observed_at
          projected)
        (next none)

  -- The loop over the sorted observations of one cluster.
  unfoldable pub project_cluster : List Observation → Option ℕ → List TimelineCoverage → Projection
  unfolding recovered first_opened closes
  project_cluster [] opened projected = projects projected
  project_cluster (o ∷ observations) opened projected = elim o.state [
    | gap ↦ project_cluster observations (some (first_opened opened o.observed_at)) projected
    | recovery ↦
        recovered o.cluster_id o.observed_at (closes opened o.observed_at)
          (project_cluster observations) opened projected
  ]

  unfoldable pub recovered_in :
      String
      → ℕ
      → Option ℕ
      → (Table String ℕ → List TimelineCoverage → Projection)
      → Table String ℕ
      → List TimelineCoverage
      → Projection
  unfolding close_gap then_project
  recovered_in cluster observed_at none next opened projected = next opened projected
  recovered_in cluster observed_at (some opened_at) next opened projected =
      then_project
        (close_gap milliseconds (scopes_of cluster) window max_intervals opened_at observed_at
          projected)
        (next (remove cluster opened))

  -- The loop over a cursor that is ordered within each cluster.
  unfoldable pub project_ordered :
      List Observation → Table String ℕ → Table String ℕ → List TimelineCoverage → Projection
  unfolding recovered_in first_opened closes too_early
  project_ordered [] opened last projected = projects projected
  project_ordered (o ∷ observations) opened last projected =
      let next = λ (t : Table String ℕ).
        project_ordered observations t (put o.cluster_id o.observed_at last) in
      if too_early (lookup o.cluster_id last) o.observed_at then not_ordered else elim o.state [
        | gap ↦
            next (put o.cluster_id (first_opened (lookup o.cluster_id opened) o.observed_at) opened)
              projected
        | recovery ↦
            recovered_in o.cluster_id o.observed_at
              (closes (lookup o.cluster_id opened) o.observed_at) next opened projected
      ]
