-- ===== src/Causes/Samples.antt =====
-- Two candidates for a pod that cannot pull its image.
use k8s_ops.Prelude.{
  ℕ, ◌*◌, ◌/◌, String, true, ◌||◌, none, some, List, [], ◌∷◌, string_eq, contains, count,
  if◌then◌else◌, leb, ◌≡◌, refl, arith, In,
}
use k8s_ops.Causes.Signals.{SignalGroup, BundleSignals, match_signal_group, split_signal_groups}
use k8s_ops.Causes.Evaluation.{
  CauseCandidate, CauseEvaluation, EvidenceItem, Scores, unique_ordered, evidence_keys,
  evaluate_cause, evaluate_causes,
}
use k8s_ops.Causes.Evaluation.Laws.{unique_ordered_lem}
use k8s_ops.Causes.Selection.{selected, min_by_key, analyze_root_cause}
use k8s_ops.Causes.Selection.Laws.{Qualifies, selected_is_best, root_cause_is_discriminated}
use k8s_ops.Causes.Selection.Order.{NoBetter}
use k8s_ops.Causes.Merge.{merge_candidates, ids_of, merge_candidates_lem}

leb_total : (x y : ℕ) → (leb x y || leb y x) ≡ true
leb_total x y = ground arith

leb_trans : (x y z : ℕ) → leb x y ≡ true → leb y z ≡ true → leb x z ≡ true
leb_trans x y z h k = ground (arith, h, k)

-- percent in place of floats
abbrev percent : Scores
percent = record {
  F = ℕ;
  zero = 0;
  ratio = λ a b. a * 100 / b;
  le = leb;
  le_total = leb_total;
  le_trans = leb_trans;
}

abbrev candidate : String → List SignalGroup → CauseCandidate
candidate id signals = record {
  candidate_id = id;
  title = id;
  description = "";
  expected_evidence = "kubernetes" ∷ "kubernetes" ∷ [];
  checks = [];
  signals = signals;
  source = "rule";
}

abbrev pull_signal : SignalGroup
pull_signal = record {
  id = some "image_pull";
  any_of =
      record { fact = some "reason=ImagePullBackOff"; log_pattern = none; event_pattern = none }
      ∷ [];
}

abbrev memory_signal : SignalGroup
memory_signal = record {
  id = some "oom";
  any_of = record { fact = some "reason=OOMKilled"; log_pattern = none; event_pattern = none } ∷ [];
}

abbrev two_candidates : List CauseCandidate
two_candidates =
    candidate "out_of_memory" (memory_signal ∷ []) ∷ candidate "bad_image" (pull_signal ∷ []) ∷ []

abbrev pod_items : List EvidenceItem
pod_items = record { source = "kubernetes"; name = "pod" } ∷ []

abbrev pull_signals : BundleSignals
pull_signals = record { facts = "reason=ImagePullBackOff" ∷ []; log_lines = []; event_texts = [] }

abbrev evaluated : List (CauseEvaluation ℕ)
evaluated = evaluate_causes percent (λ t. t) two_candidates pod_items pull_signals none

abbrev bad_image : CauseEvaluation ℕ
bad_image = record {
  candidate_id = "bad_image";
  score = 100;
  checks = [];
  supporting_evidence = "kubernetes" ∷ [];
  missing_evidence = [];
  matched_signal_count = 1;
  required_signal_count = 1;
}

bad_image_selected : analyze_root_cause percent evaluated ≡ selected bad_image
unfolding analyze_root_cause evaluate_causes evaluate_cause evidence_keys unique_ordered
    split_signal_groups match_signal_group min_by_key
bad_image_selected = refl

selected_is_best_example :
    In bad_image evaluated
    × Qualifies percent bad_image
    × ((x : CauseEvaluation ℕ)
        → In x evaluated
        → Qualifies percent x
        → NoBetter percent x bad_image)
selected_is_best_example = selected_is_best percent evaluated bad_image bad_image_selected

root_cause_is_discriminated_example :
    (c : CauseCandidate) × In c two_candidates
    × (bad_image ≡ evaluate_cause percent (λ t. t) (evidence_keys pod_items) pull_signals c)
    × ((key : String) × In key c.expected_evidence
        × (contains (evidence_keys pod_items) key ≡ true))
    × ((g : SignalGroup) → In g c.signals → match_signal_group (λ t. t) g pull_signals ≡ true)
root_cause_is_discriminated_example =
    root_cause_is_discriminated percent (λ t. t) two_candidates pod_items pull_signals bad_image
      bad_image_selected

abbrev named_sources : List String
named_sources = "logs" ∷ "metrics" ∷ "logs" ∷ []

unique_ordered_lem_example :
    count "logs" (unique_ordered named_sources) ≡ (if contains named_sources "logs" then 1 else 0)
unique_ordered_lem_example = unique_ordered_lem named_sources "logs"

merge_candidates_lem_example :
    count "bad_image" (ids_of (merge_candidates (candidate "bad_image" [] ∷ two_candidates)))
    ≡ (if contains (ids_of (candidate "bad_image" [] ∷ two_candidates)) "bad_image" then 1 else 0)
merge_candidates_lem_example =
    merge_candidates_lem (candidate "bad_image" [] ∷ two_candidates) "bad_image"
