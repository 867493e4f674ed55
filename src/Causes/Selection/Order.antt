-- ===== src/Causes/Selection/Order.antt =====
-- The order of the selection key in services/ai/agent/causes/engine.py, and the minimum by it.
use k8s_ops.Prelude.{
  ℕ, ◌≤◌, Bool, true, false, not, ◌&&◌, ◌||◌, List, [], ◌∷◌, length, if◌then◌else◌, eqb, ltb, ◌≡◌,
  arith, In, In-split, here, there, Bool-cases, inl, inr,
}
use k8s_ops.Causes.Evaluation.{CauseEvaluation, Scores}
use k8s_ops.Causes.Selection.{key_less, min_by_key}

-- the comparison of two keys, from the comparisons of their parts
abbrev less : Bool → Bool → ℕ → ℕ → ℕ → ℕ → Bool
less ab ba m n k l = if ab && ba then (if eqb m n then ltb k l else ltb n m) else not ab

less_trans :
    (ab ba bc cb ac ca : Bool) (m n o k l j : ℕ)
    → (ab || ba) ≡ true
    → (bc || cb) ≡ true
    → (ac || ca) ≡ true
    → (ab ≡ true → bc ≡ true → ac ≡ true)
    → (cb ≡ true → ba ≡ true → ca ≡ true)
    → (ca ≡ true → ab ≡ true → cb ≡ true)
    → (bc ≡ true → ca ≡ true → ba ≡ true)
    → (ba ≡ true → ac ≡ true → bc ≡ true)
    → (ac ≡ true → cb ≡ true → ab ≡ true)
    → less ab ba m n k l ≡ false
    → less bc cb n o l j ≡ false
    → less ac ca m o k j ≡ false
less_trans ab ba bc cb ac ca m n o k l j t1 t2 t3 p1 p2 p3 p4 p5 p6 x y = ground arith

less_asym :
    (ab ba : Bool) (m n k l : ℕ)
    → less ab ba m n k l ≡ true
    → (ab || ba) ≡ true
    → less ba ab n m l k ≡ false
less_asym ab ba m n k l h t = ground arith

-- what it means that a key is not less than another, part by part
not_less :
    (ab ba : Bool) (m n k l : ℕ)
    → (ab || ba) ≡ true
    → less ab ba m n k l ≡ false
    → (ab ≡ true) × (ba ≡ true → (m ≤ n) × (m ≡ n → l ≤ k))
not_less ab ba m n k l total h = (
  ground (arith, total, h),
  λ same. (ground (arith, h, same, total), λ tie. ground (arith, h, same, total, tie)),
)

module _ (sc : Scores) where
  open sc use {F, le, le_total, le_trans}

  -- An evaluation is no better than another: its score is not higher; where the scores are equal
  -- it has no more matched signals; where these are as many it misses no fewer entries.
  abbrev pub NoBetter : CauseEvaluation F → CauseEvaluation F → Type 0
  NoBetter x e =
      (le x.score e.score ≡ true)
      × (le e.score x.score ≡ true
          → (x.matched_signal_count ≤ e.matched_signal_count)
            × (x.matched_signal_count ≡ e.matched_signal_count
                → length e.missing_evidence ≤ length x.missing_evidence))

  pub key_less-NoBetter : (x e : CauseEvaluation F) → key_less sc x e ≡ false → NoBetter x e
  key_less-NoBetter x e h =
      not_less (le x.score e.score) (le e.score x.score) x.matched_signal_count
        e.matched_signal_count (length x.missing_evidence) (length e.missing_evidence)
        (le_total _ _) h

  key_less_trans :
      (a b c : CauseEvaluation F)
      → key_less sc a b ≡ false
      → key_less sc b c ≡ false
      → key_less sc a c ≡ false
  key_less_trans a b c x y =
      less_trans (le a.score b.score) (le b.score a.score) (le b.score c.score) (le c.score b.score)
        (le a.score c.score) (le c.score a.score) a.matched_signal_count b.matched_signal_count
        c.matched_signal_count (length a.missing_evidence) (length b.missing_evidence)
        (length c.missing_evidence) (le_total _ _) (le_total _ _) (le_total _ _) (le_trans _ _ _)
        (le_trans _ _ _) (le_trans _ _ _) (le_trans _ _ _) (le_trans _ _ _) (le_trans _ _ _) x y

  key_less_asym : (a b : CauseEvaluation F) → key_less sc a b ≡ true → key_less sc b a ≡ false
  key_less_asym a b h =
      less_asym (le a.score b.score) (le b.score a.score) a.matched_signal_count
        b.matched_signal_count (length a.missing_evidence) (length b.missing_evidence) h
        (le_total _ _)

  key_less_self : (a : CauseEvaluation F) → key_less sc a a ≡ false
  key_less_self a = ground (arith, le_total a.score a.score)

  -- what the minimum keeps or takes
  abbrev better : CauseEvaluation F → CauseEvaluation F → CauseEvaluation F
  better e best = if key_less sc e best then e else best

  better-least :
      (e best x : CauseEvaluation F)
      → key_less sc x best ≡ false
      → key_less sc x (better e best) ≡ false
  better-least e best x h = elim (Bool-cases (key_less sc e best)) [
    | inl wins ↦ rw wins (key_less_trans x best e h (key_less_asym e best wins))
    | inr loses ↦ rw loses h
  ]

  better_self : (e best : CauseEvaluation F) → key_less sc e (better e best) ≡ false
  better_self e best = elim (Bool-cases (key_less sc e best)) [
    | inl wins ↦ rw wins (key_less_self e)
    | inr loses ↦ rw loses loses
  ]

  min_by_key-least :
      (best : CauseEvaluation F) (es : List (CauseEvaluation F)) (x : CauseEvaluation F)
      → key_less sc x best ≡ false
      → key_less sc x (min_by_key sc best es) ≡ false
  unfolding min_by_key
  min_by_key-least best [] x h = h
  min_by_key-least best (e ∷ es) x h =
      min_by_key-least (better e best) es x (better-least e best x h)

  min_by_key-later :
      (x best : CauseEvaluation F) (es : List (CauseEvaluation F))
      → In x es
      → key_less sc x (min_by_key sc best es) ≡ false
  unfolding min_by_key
  min_by_key-later x best [] i = elim i [ ]
  min_by_key-later x best (e ∷ es) i = elim (In-split i) [
    | inl same ↦ rw same (min_by_key-least (better e best) es e (better_self e best))
    | inr j ↦ min_by_key-later x (better e best) es j
  ]

  -- no key of the list is less than the minimum's
  pub min_by_key-minimal :
      (x best : CauseEvaluation F) (es : List (CauseEvaluation F))
      → In x (best ∷ es)
      → key_less sc x (min_by_key sc best es) ≡ false
  min_by_key-minimal x best es i = elim (In-split i) [
    | inl same ↦ rw same (min_by_key-least best es best (key_less_self best))
    | inr j ↦ min_by_key-later x best es j
  ]

  pub min_by_key-In :
      (best : CauseEvaluation F) (es : List (CauseEvaluation F))
      → In (min_by_key sc best es) (best ∷ es)
  unfolding min_by_key
  min_by_key-In best [] = here
  min_by_key-In best (e ∷ es) = elim (Bool-cases (key_less sc e best)) [
    | inl wins ↦ rw wins (there (min_by_key-In e es))
    | inr loses ↦ rw loses (skip (min_by_key-In best es))
  ]
    where
      skip :
          {x b : CauseEvaluation F} {xs : List (CauseEvaluation F)}
          → In x (b ∷ xs)
          → In x (b ∷ e ∷ xs)
      skip here = here
      skip (there i) = there (there i)
