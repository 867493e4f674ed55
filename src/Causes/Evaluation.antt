-- ===== src/Causes/Evaluation.antt =====
-- `evaluate_causes` of services/ai/agent/causes/engine.py, with `unique_ordered` and
-- `evidence_keys`. Scores are Python's floats; the model takes their division of two counts and
-- their order as a parameter. Reasons and check lists, which are texts for the reader, are left out.
pub mod Laws
use Prim.Native.String.{compare}
use Prim.Native.Nat.{Ordering}
use Prim.Native.String.{◌++◌ as text_append}
use k8s_ops.Prelude.{
  ℕ, ◌+◌, String, Bool, true, false, not, ◌&&◌, ◌||◌, Option, none, some, List, [], ◌∷◌, ◌++◌, map,
  select, contains, string_eq, length, if◌then◌else◌, eqb, ◌==◌, ◌≡◌,
}
use k8s_ops.Causes.Signals.{SignalGroup, BundleSignals, split_signal_groups}

pub record CauseCandidate : Type 0 where
  pub candidate_id : String
  pub title : String
  pub description : String
  pub expected_evidence : List String
  pub checks : List String
  pub signals : List SignalGroup
  pub source : String

pub record CauseEvaluation (F : Type 0) : Type 0 where
  pub candidate_id : String
  pub score : F
  pub checks : List String
  pub supporting_evidence : List String
  pub missing_evidence : List String
  pub matched_signal_count : ℕ
  pub required_signal_count : ℕ

-- One item of the bundle.
pub record EvidenceItem : Type 0 where
  pub source : String
  pub name : String

-- Python's floats as scores: 0.0, the division of counts, and `<=`.
pub record Scores : Type 1 where
  pub F : Type 0
  pub zero : F
  pub ratio : ℕ → ℕ → F
  pub le : F → F → Bool
  pub le_total : (x y : F) → (le x y || le y x) ≡ true
  pub le_trans : (x y z : F) → le x y ≡ true → le y z ≡ true → le x z ≡ true

abbrev pub unknown_evaluation_id : String
unknown_evaluation_id = "unknown"

abbrev pub matching_cause_rule_evidence : String
matching_cause_rule_evidence = "matching_cause_rule"

-- The loop of `unique_ordered`: what was seen, in the order of the result.
abbrev pub unique_from : List String → List String → List String
unique_from seen [] = []
unique_from seen (value ∷ values) =
    let skipped = unique_from seen values in
    let kept = unique_from (value ∷ seen) values in
    if contains seen value then skipped else value ∷ kept

unfoldable pub unique_ordered : List String → List String
unique_ordered values = unique_from [] values

-- `sorted` on texts
abbrev pub text_le : String → String → Bool
text_le a b = elim (compare a b) [ Ordering.gt ↦ false | _ ↦ true ]

abbrev pub insert_sorted : String → List String → List String
insert_sorted a [] = a ∷ []
insert_sorted a (b ∷ bs) =
    let rest = insert_sorted a bs in if text_le a b then a ∷ b ∷ bs else b ∷ rest

abbrev pub sorted : List String → List String
sorted [] = []
sorted (a ∷ bs) = insert_sorted a (sorted bs)

abbrev pub evidence_key : String → String → String
evidence_key source name = text_append source (text_append ":" name)

unfoldable pub evidence_keys : List EvidenceItem → List String
evidence_keys [] = []
evidence_keys (item ∷ items) =
    item.source ∷ evidence_key item.source item.name ∷ evidence_keys items

-- `str(group.get("id") or "unnamed")`
abbrev pub signal_group_id : Option String → String
signal_group_id none = "unnamed"
signal_group_id (some id) = if id == "" then "unnamed" else id

abbrev pub signal_missing_token : SignalGroup → String
signal_missing_token group = text_append "signal:" (signal_group_id group.id)

module _ (sc : Scores) (casefold : String → String) where
  open sc use {F, zero, ratio}

  -- the sets of the loop body are lists without duplicates
  unfoldable pub evaluate_cause : List String → BundleSignals → CauseCandidate → CauseEvaluation F
  evaluate_cause actual signals candidate =
      let expected = unique_ordered candidate.expected_evidence in
      let supporting = sorted (select (λ e. contains actual e) expected) in
      let missing_sources = sorted (select (λ e. not (contains actual e)) expected) in
      let (matched, unmatched) = split_signal_groups casefold candidate.signals signals in
      let denominator = length expected + length candidate.signals in
      record {
        candidate_id = candidate.candidate_id;
        score =
            if eqb denominator 0
            then zero
            else ratio (length supporting + length matched) denominator;
        checks = candidate.checks;
        supporting_evidence = supporting;
        missing_evidence = missing_sources ++ map signal_missing_token unmatched;
        matched_signal_count = length matched;
        required_signal_count = length candidate.signals;
      }

  -- the evaluation that stands for a missing rule
  abbrev pub unknown_evaluation : List String → CauseEvaluation F
  unknown_evaluation missing = record {
    candidate_id = unknown_evaluation_id;
    score = zero;
    checks = matching_cause_rule_evidence ∷ [];
    supporting_evidence = [];
    missing_evidence = missing;
    matched_signal_count = 0;
    required_signal_count = 0;
  }

  unfoldable pub evaluate_causes :
      List CauseCandidate
      → List EvidenceItem
      → BundleSignals
      → Option (List String)
      → List (CauseEvaluation F)
  evaluate_causes candidates items signals (some missing) = unknown_evaluation missing ∷ []
  evaluate_causes candidates items signals none =
      map (λ c. evaluate_cause (evidence_keys items) signals c) candidates
