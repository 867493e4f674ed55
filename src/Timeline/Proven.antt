-- ===== src/Timeline/Proven.antt =====
-- What bounds an interval of domains/timeline/coverage.py.
use k8s_ops.Prelude.{
  ℕ, ◌<◌, String, true, Option, none, some, List, [], ◌∷◌, ◌++◌, leb, string_eq, ◌≡◌, Bool-cases,
  inl, inr, ◌⊎◌, In, here, there, In-split, arith,
}
use k8s_ops.Timeline.Coverage.{
  gap, recovery, Observation, Window, TimelineCoverage, closes, intersects_window,
}

-- An interval that a gap and a later recovery of one cluster bound, that has a width and meets the
-- window.
pub record Proven (milliseconds : ℕ → ℕ) (window : Window) (seen : List Observation)
    (item : TimelineCoverage) : Type 0 where
  pub failed : Observation
  pub recovered : Observation
  pub failed_seen : In failed seen
  pub recovered_seen : In recovered seen
  pub is_gap : failed.state ≡ gap
  pub is_recovery : recovered.state ≡ recovery
  pub one_cluster : failed.cluster_id ≡ recovered.cluster_id
  pub later : failed.observed_at < recovered.observed_at
  pub starts : item.from_ms ≡ milliseconds failed.observed_at
  pub ends : item.to_ms ≡ milliseconds recovered.observed_at
  pub wide : item.from_ms < item.to_ms
  pub meets_window : intersects_window item.from_ms item.to_ms window ≡ true

-- What a cluster's entry among the standing gaps stands for.
pub record OpenGap (seen : List Observation) (cluster : String) (opened_at : ℕ) : Type 0 where
  pub opening : Observation
  pub opening_seen : In opening seen
  pub opening_is_gap : opening.state ≡ gap
  pub opening_cluster : opening.cluster_id ≡ cluster
  pub opening_at : opening.observed_at ≡ opened_at

pub In-append : {A : Type 0} (x y : A) (xs : List A) → In x (xs ++ y ∷ []) → In x xs ⊎ (x ≡ y)
In-append x y [] i = elim (In-split i) [ inl e ↦ inr e | inr j ↦ elim j [ ] ]
In-append x y (z ∷ xs) here = inl here
In-append x y (z ∷ xs) (there i) = elim (In-append x y xs i) [
  | inl j ↦ inl (there j)
  | inr e ↦ inr e
]

pub closes-some :
    (opened : Option ℕ) (observed_at opened_at : ℕ)
    → closes opened observed_at ≡ some opened_at
    → (opened ≡ some opened_at) × (opened_at < observed_at)
unfolding closes
closes-some none observed_at opened_at e = absurd (cc e)
closes-some (some held) observed_at opened_at e = elim (Bool-cases (leb observed_at held)) [
  | inl early ↦ absurd (cc (rw early at e))
  | inr late ↦
      let kept : some held ≡ some opened_at = rw late at e in
      let same : held ≡ opened_at = cc kept in (kept, ground (arith, late, same))
]
