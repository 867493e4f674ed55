-- ===== src/Timeline/Samples.antt =====
-- Gaps of two clusters whose observations interleave.
use k8s_ops.Prelude.{
  ℕ, ◌≤◌, ◌/◌, String, lookup, put, remove, none, List, [], ◌∷◌, length, select, ◌≡◌, refl, In,
  In-split, inl, inr, here, ap, string_eq,
}
use k8s_ops.Timeline.Coverage.{
  Observation, gap, recovery, Scope, Window, TimelineCoverage, projects, interval, project_ordered,
  project_cluster,
}
use k8s_ops.Timeline.Intervals.{observes_cluster, covers_cluster}
use k8s_ops.Timeline.Equivalence.{ordered_as_by_cluster}
use k8s_ops.Timeline.Soundness.{project_ordered-Proven}
use k8s_ops.Timeline.Proven.{Proven}
use k8s_ops.Timeline.Bounds.{coverage_within_limit}

abbrev scope_in : String → Scope
scope_in cluster = record {
  workspace_id = "w";
  cluster_id = cluster;
  namespaces = [];
  freshness = "live";
}

abbrev one_scope : String → List Scope
one_scope cluster = scope_in cluster ∷ []

only_scope : (cluster : String) (s : Scope) → In s (one_scope cluster) → s.cluster_id ≡ cluster
only_scope cluster s i = elim (In-split i) [
  | inl same ↦ ap (λ (x : Scope). x.cluster_id) same
  | inr none_left ↦ elim none_left [ ]
]

abbrev to_milliseconds : ℕ → ℕ
to_milliseconds moment = moment / 1000

abbrev day : Window
day = record { from_ms = 0; to_ms = 1000 }

abbrev seen : List Observation
seen =
    record { cluster_id = "a"; observed_at = 1000; state = gap }
    ∷ record { cluster_id = "b"; observed_at = 2000; state = gap }
    ∷ record { cluster_id = "a"; observed_at = 5000; state = recovery }
    ∷ record { cluster_id = "b"; observed_at = 4000; state = recovery }
    ∷ []

abbrev covered : List TimelineCoverage
covered = interval (scope_in "a") 1 5 ∷ interval (scope_in "b") 2 4 ∷ []

ordered_as_by_cluster_example :
    project_cluster to_milliseconds one_scope day none (select (observes_cluster "b") seen) none []
    ≡ projects (select (covers_cluster "b") covered)
unfolding project_ordered lookup put remove
ordered_as_by_cluster_example =
    ordered_as_by_cluster to_milliseconds one_scope day only_scope "b" seen covered refl

coverage_within_limit_example : length covered ≤ 2
unfolding project_ordered lookup put remove
coverage_within_limit_example =
    coverage_within_limit to_milliseconds one_scope day 2 seen covered refl

project_ordered-Proven_example : Proven to_milliseconds day seen (interval (scope_in "a") 1 5)
unfolding project_ordered lookup put remove
project_ordered-Proven_example =
    project_ordered-Proven to_milliseconds one_scope day none seen covered refl
      (interval (scope_in "a") 1 5) here
