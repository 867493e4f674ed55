-- ===== src/Causes/Selection.antt =====
-- `analyze_root_cause` of services/ai/agent/causes/engine.py: which evaluated candidate, if any,
-- becomes the root cause. The report's texts follow from the case and the selected evaluation.
pub mod Order
pub mod Laws
use k8s_ops.Prelude.{
  ℕ, String, Bool, true, false, not, ◌&&◌, ◌||◌, Option, none, some, List, [], ◌∷◌, ◌++◌, select,
  is_empty, string_eq, length, if◌then◌else◌, eqb, ltb, ◌==◌,
}
use k8s_ops.Causes.Evaluation.{
  CauseEvaluation, Scores, unknown_evaluation_id, matching_cause_rule_evidence, unique_ordered,
}

-- The four returns of the function, with what they report.
pub data RootCause (F : Type 0) : Type 0 where
  no_candidates : RootCause F
  unknown : List String → RootCause F
  insufficient_evidence : List String → RootCause F
  selected : CauseEvaluation F → RootCause F

abbrev pub all_missing : {F : Type 0} → List (CauseEvaluation F) → List String
all_missing [] = []
all_missing (e ∷ es) = e.missing_evidence ++ all_missing es

-- `discriminator_eligible`
abbrev pub is_eligible : {F : Type 0} → CauseEvaluation F → Bool
is_eligible e = eqb e.required_signal_count 0 || eqb e.matched_signal_count e.required_signal_count

-- `supported`
abbrev pub is_supported : {F : Type 0} → CauseEvaluation F → Bool
is_supported e = is_eligible e && not (is_empty e.supporting_evidence)

module _ (sc : Scores) where
  open sc use {F, le}

  -- `<` on the keys `(-score, -matched_signal_count, len(missing_evidence))`
  abbrev pub key_less : CauseEvaluation F → CauseEvaluation F → Bool
  key_less a b =
      if le a.score b.score && le b.score a.score
      then (if eqb a.matched_signal_count b.matched_signal_count
          then ltb (length a.missing_evidence) (length b.missing_evidence)
          else ltb b.matched_signal_count a.matched_signal_count)
      else not (le a.score b.score)

  -- `min(…)`: a later one wins only where its key is less
  unfoldable pub min_by_key : CauseEvaluation F → List (CauseEvaluation F) → CauseEvaluation F
  min_by_key best [] = best
  min_by_key best (e ∷ es) = min_by_key (if key_less e best then e else best) es

  abbrev pub choose : List (CauseEvaluation F) → List (CauseEvaluation F) → RootCause F
  choose evaluations [] = insufficient_evidence (unique_ordered (all_missing evaluations))
  choose evaluations (e ∷ es) = selected (min_by_key e es)

  unfoldable pub analyze_root_cause : List (CauseEvaluation F) → RootCause F
  analyze_root_cause [] = no_candidates
  analyze_root_cause (first ∷ rest) =
      if first.candidate_id == unknown_evaluation_id
      then unknown (unique_ordered (matching_cause_rule_evidence ∷ first.missing_evidence))
      else choose (first ∷ rest) (select (λ e. is_supported e) (first ∷ rest))
