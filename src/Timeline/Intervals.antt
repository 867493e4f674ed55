-- ===== src/Timeline/Intervals.antt =====
-- The intervals that one closed gap adds in domains/timeline/coverage.py, without a limit.
use k8s_ops.Prelude.{
  leb, ◌∙◌, sym, ℕ, String, Bool, true, false, none, List, [], ◌∷◌, ◌++◌, if◌then◌else◌, select,
  ◌==◌, string_eq, ◌≡◌, refl, ap, Bool-cases, inl, inr, ◌⊎◌, In, here, there,
}
use k8s_ops.Timeline.Coverage.{
  CaptureState, gap, recovery, Observation, Scope, Window, TimelineCoverage, Projection, projects,
  not_ordered, intersects_window, is_full, interval, append_coverage_intervals, close_gap,
  then_project, limit_exceeded, not_positive,
}

-- The intervals of one cluster, and its observations.
unfoldable pub covers_cluster : String → TimelineCoverage → Bool
covers_cluster cluster item = item.scope.cluster_id == cluster

unfoldable pub observes_cluster : String → Observation → Bool
observes_cluster cluster o = o.cluster_id == cluster

pub select-append :
    {A : Type 0} (p : A → Bool) (xs ys : List A) → select p (xs ++ ys) ≡ select p xs ++ select p ys
select-append p [] ys = refl
select-append p (x ∷ xs) ys = elim (Bool-cases (p x)) [
  | inl e ↦ simp e (ap (λ zs. x ∷ zs) (select-append p xs ys))
  | inr e ↦ simp e (select-append p xs ys)
]

append_step : {A : Type 0} (xs : List A) (y : A) (zs : List A) → (xs ++ y ∷ []) ++ zs ≡ xs ++ y ∷ zs
append_step [] y zs = refl
append_step (x ∷ xs) y zs = ap (λ t. x ∷ t) (append_step xs y zs)

pub append_nil : {A : Type 0} (xs : List A) → xs ++ [] ≡ xs
append_nil [] = refl
append_nil (x ∷ xs) = ap (λ t. x ∷ t) (append_nil xs)

-- The intervals that a closed gap adds, without a limit.
unfoldable added_for : List Scope → ℕ → ℕ → List TimelineCoverage
added_for [] from_ms to_ms = []
added_for (scope ∷ scopes) from_ms to_ms =
    interval scope from_ms to_ms ∷ added_for scopes from_ms to_ms

unfoldable pub added : (ℕ → ℕ) → List Scope → Window → ℕ → ℕ → List TimelineCoverage
unfolding added_for
added milliseconds scopes window opened_at observed_at =
    if intersects_window (milliseconds opened_at) (milliseconds observed_at) window
    then added_for scopes (milliseconds opened_at) (milliseconds observed_at)
    else []

-- What a successful step adds, whatever stood before it.
pub record Adds (step : List TimelineCoverage → Projection) (new : List TimelineCoverage)
    (projected result : List TimelineCoverage) : Type 0 where
  pub adds : result ≡ projected ++ new
  pub adds_elsewhere : (other : List TimelineCoverage) → step other ≡ projects (other ++ new)

append_coverage_intervals_lem :
    (scopes : List Scope) (from_ms to_ms : ℕ) (projected result : List TimelineCoverage)
    → append_coverage_intervals scopes from_ms to_ms none projected ≡ projects result
    → Adds
        (append_coverage_intervals scopes from_ms to_ms none)
        (added_for scopes from_ms to_ms)
        projected
        result
unfolding append_coverage_intervals is_full added_for
append_coverage_intervals_lem [] from_ms to_ms projected result e =
    let same : projected ≡ result = cc e in
    record {
      adds = sym (append_nil projected ∙ same);
      adds_elsewhere = λ other. ap projects (sym (append_nil other));
    }
append_coverage_intervals_lem (scope ∷ scopes) from_ms to_ms projected result e =
    let one = interval scope from_ms to_ms in
    let new = added_for scopes from_ms to_ms in
    elim (Bool-cases (leb to_ms from_ms)) [
      | inl narrow ↦ absurd (cc (simp narrow at e))
      | inr wide ↦
          let more =
            append_coverage_intervals_lem scopes from_ms to_ms (projected ++ one ∷ []) result
              (simp wide at e) in
          record {
            adds = more.adds ∙ append_step projected one new;
            adds_elsewhere = λ other.
                simp wide (
                  more.adds_elsewhere (other ++ one ∷ [])
                  ∙ ap projects (append_step other one new));
          }
    ]

pub close_gap_lem :
    (milliseconds : ℕ → ℕ) (scopes : List Scope) (window : Window) (opened_at observed_at : ℕ)
    (projected result : List TimelineCoverage)
    → close_gap milliseconds scopes window none opened_at observed_at projected ≡ projects result
    → Adds
        (close_gap milliseconds scopes window none opened_at observed_at)
        (added milliseconds scopes window opened_at observed_at)
        projected
        result
unfolding close_gap added
close_gap_lem milliseconds scopes window opened_at observed_at projected result e =
    elim (Bool-cases
      (intersects_window (milliseconds opened_at) (milliseconds observed_at) window)) [
        | inl q ↦
            let more =
              append_coverage_intervals_lem scopes (milliseconds opened_at)
                (milliseconds observed_at) projected result (simp q at e) in
            record {
              adds = simp q more.adds;
              adds_elsewhere = λ other. simp q (more.adds_elsewhere other);
            }
        | inr q ↦
            let same : projected ≡ result = cc (simp q at e) in
            record {
              adds = simp q (sym (append_nil projected ∙ same));
              adds_elsewhere = λ other. simp q (ap projects (sym (append_nil other)));
            }
      ]

pub then_project-projects :
    (first : Projection) (next : List TimelineCoverage → Projection)
    (result : List TimelineCoverage)
    → then_project first next ≡ projects result
    → (middle : List TimelineCoverage) × (first ≡ projects middle) × (next middle ≡ projects result)
unfolding then_project
then_project-projects (projects middle) next result e = (middle, refl, e)
then_project-projects limit_exceeded next result e = absurd (cc e)
then_project-projects not_ordered next result e = absurd (cc e)
then_project-projects not_positive next result e = absurd (cc e)

added_for-own :
    (cluster : String) (scopes : List Scope) (from_ms to_ms : ℕ)
    → ((s : Scope) → In s scopes → s.cluster_id ≡ cluster)
    → select (covers_cluster cluster) (added_for scopes from_ms to_ms)
      ≡ added_for scopes from_ms to_ms
unfolding added_for covers_cluster
added_for-own cluster [] from_ms to_ms own = refl
added_for-own cluster (scope ∷ scopes) from_ms to_ms own =
    let same : (scope.cluster_id == cluster) ≡ true =
      (string_eq.test_iff scope.cluster_id cluster).1 (own scope here) in
    simp same (
      ap (λ t. interval scope from_ms to_ms ∷ t)
        (added_for-own cluster scopes from_ms to_ms (λ s i. own s (there i))))

added_for-other :
    (cluster other : String) (scopes : List Scope) (from_ms to_ms : ℕ)
    → (other == cluster) ≡ false
    → ((s : Scope) → In s scopes → s.cluster_id ≡ other)
    → select (covers_cluster cluster) (added_for scopes from_ms to_ms) ≡ []
unfolding added_for covers_cluster
added_for-other cluster other [] from_ms to_ms away own = refl
added_for-other cluster other (scope ∷ scopes) from_ms to_ms away own =
    let differs : (scope.cluster_id == cluster) ≡ false =
      ap (λ x. x == cluster) (own scope here) ∙ away in
    simp differs (added_for-other cluster other scopes from_ms to_ms away (λ s i. own s (there i)))

-- Scopes of one cluster cover that cluster alone.
pub added-own :
    (cluster : String) (milliseconds : ℕ → ℕ) (scopes : List Scope) (window : Window)
    (opened_at observed_at : ℕ)
    → ((s : Scope) → In s scopes → s.cluster_id ≡ cluster)
    → select (covers_cluster cluster) (added milliseconds scopes window opened_at observed_at)
      ≡ added milliseconds scopes window opened_at observed_at
unfolding added
added-own cluster milliseconds scopes window opened_at observed_at own =
    elim (Bool-cases
      (intersects_window (milliseconds opened_at) (milliseconds observed_at) window)) [
        | inl e ↦
            simp e
              (added_for-own cluster scopes (milliseconds opened_at) (milliseconds observed_at) own)
        | inr e ↦ simp e refl
      ]

pub added-other :
    (cluster other : String) (milliseconds : ℕ → ℕ) (scopes : List Scope) (window : Window)
    (opened_at observed_at : ℕ)
    → (other == cluster) ≡ false
    → ((s : Scope) → In s scopes → s.cluster_id ≡ other)
    → select (covers_cluster cluster) (added milliseconds scopes window opened_at observed_at) ≡ []
unfolding added
added-other cluster other milliseconds scopes window opened_at observed_at away own =
    elim (Bool-cases
      (intersects_window (milliseconds opened_at) (milliseconds observed_at) window)) [
        | inl e ↦ simp e (
            added_for-other cluster other scopes (milliseconds opened_at) (milliseconds observed_at)
              away own)
        | inr e ↦ simp e refl
      ]

pub in_time :
    (rest : Projection) (early : Bool) (result : List TimelineCoverage)
    → (if early then not_ordered else rest) ≡ projects result
    → (early ≡ false) × (rest ≡ projects result)
in_time rest false result e = (refl, e)
in_time rest true result e = absurd (cc e)

pub CaptureState-cases : (s : CaptureState) → (s ≡ gap) ⊎ (s ≡ recovery)
CaptureState-cases gap = inl refl
CaptureState-cases recovery = inr refl
