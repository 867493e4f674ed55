-- ===== src/Causes/Merge.antt =====
-- `plan_causes`, `merge_candidates` and `merge_signal_groups` of services/ai/agent/causes/engine.py.
-- A rule is its test and its candidates, already applied to the incident and the bundle.
use k8s_ops.Prelude.{
  String, Bool, true, false, ◌||◌, Option, none, some, List, [], ◌∷◌, ◌++◌, map, string_eq, ◌==◌,
  contains, count, if◌then◌else◌, ◌≡◌, refl, arith, ◌≤◌, beq_self, Bool-cases, inl, inr, beq_true,
}
use k8s_ops.Causes.Signals.{SignalGroup}
use k8s_ops.Causes.Evaluation.{CauseCandidate, unique_ordered}

-- `str(group.get("id"))`
abbrev pub group_key : Option String → String
group_key none = "None"
group_key (some id) = id

-- the loop over the incoming groups: what is appended to the existing ones
abbrev pub new_groups : List String → List SignalGroup → List SignalGroup
new_groups seen_ids [] = []
new_groups seen_ids (group ∷ groups) =
    let skipped = new_groups seen_ids groups in
    let kept = new_groups (group_key group.id ∷ seen_ids) groups in
    if contains seen_ids (group_key group.id) then skipped else group ∷ kept

unfoldable pub merge_signal_groups : List SignalGroup → List SignalGroup → List SignalGroup
merge_signal_groups existing incoming =
    existing ++ new_groups (map (λ g. group_key g.id) existing) incoming

abbrev pub combine : CauseCandidate → CauseCandidate → CauseCandidate
combine existing candidate = record existing {
  expected_evidence = unique_ordered (existing.expected_evidence ++ candidate.expected_evidence);
  checks = unique_ordered (existing.checks ++ candidate.checks);
  signals = merge_signal_groups existing.signals candidate.signals;
}

-- one turn of the loop; the dictionary keeps the order in which ids came
abbrev pub merge_one : CauseCandidate → List CauseCandidate → List CauseCandidate
merge_one candidate [] = candidate ∷ []
merge_one candidate (existing ∷ by_id) =
    let rest = merge_one candidate by_id in
    if existing.candidate_id == candidate.candidate_id
    then combine existing candidate ∷ by_id
    else existing ∷ rest

abbrev pub merge_into : List CauseCandidate → List CauseCandidate → List CauseCandidate
merge_into by_id [] = by_id
merge_into by_id (candidate ∷ candidates) = merge_into (merge_one candidate by_id) candidates

unfoldable pub merge_candidates : List CauseCandidate → List CauseCandidate
merge_candidates candidates = merge_into [] candidates

abbrev pub rule_candidates : List (Bool × List CauseCandidate) → List CauseCandidate
rule_candidates [] = []
rule_candidates ((matches, candidates) ∷ rules) =
    if matches then candidates ++ rule_candidates rules else rule_candidates rules

-- The plan, and whether a rule is missing.
unfoldable pub plan_causes : List (Bool × List CauseCandidate) → List CauseCandidate × Bool
unfolding merge_candidates
plan_causes rules = elim (merge_candidates (rule_candidates rules)) [
  | [] ↦ ([], true)
  | c ∷ cs ↦ (c ∷ cs, false)
]

abbrev pub ids_of : List CauseCandidate → List String
ids_of cs = map (λ (c : CauseCandidate). c.candidate_id) cs

-- a candidate adds its id once, or is merged into the one that has it
contains-merge_one :
    (c : CauseCandidate) (by_id : List CauseCandidate) (id : String)
    → contains (ids_of (merge_one c by_id)) id
      ≡ (contains (ids_of by_id) id || (c.candidate_id == id))
contains-merge_one c [] id = ground arith
contains-merge_one c (e ∷ by_id) id = elim (Bool-cases (e.candidate_id == c.candidate_id)) [
  | inl same ↦ rw same (one_id e.candidate_id c.candidate_id (beq_true _ _ same))
  | inr other ↦ rw other (ground (arith, contains-merge_one c by_id id))
]
  where
    one_id :
        (a b : String)
        → a ≡ b
        → ((a == id) || contains (ids_of by_id) id)
          ≡ (((a == id) || contains (ids_of by_id) id) || (b == id))
    one_id a b e = rw e (ground arith)

present_counts : (xs : List String) (id : String) → contains xs id ≡ true → 1 ≤ count id xs
present_counts [] id h = absurd (cc)
present_counts (x ∷ xs) id h = ground (arith, present_counts xs id)

absent_counts : (xs : List String) (id : String) → contains xs id ≡ false → count id xs ≡ 0
absent_counts [] id h = refl
absent_counts (x ∷ xs) id h = ground (arith, absent_counts xs id)

-- no id comes twice
abbrev NoTwice : List String → Type 0
NoTwice ids = (id : String) → count id ids ≡ (if contains ids id then 1 else 0)

NoTwice-tail : (x : String) (xs : List String) → NoTwice (x ∷ xs) → NoTwice xs
NoTwice-tail x xs h id = elim (Bool-cases (contains xs id)) [
  | inl among ↦ rw among (ground (arith, among, h id, present_counts xs id among))
  | inr absent ↦ rw absent (absent_counts xs id absent)
]

exclusive : (a b id : String) → (a == b) ≡ false → (a == id) ≡ true → (b == id) ≡ false
exclusive a b id h k = elim (Bool-cases (b == id)) [
  | inl same ↦
      let e = beq_true a id k in let f = beq_true b id same in absurd (cc (h, e, f, beq_self b))
  | inr other ↦ other
]

head_absent :
    (x id : String) (xs : List String)
    → NoTwice (x ∷ xs)
    → (x == id) ≡ true
    → contains xs id ≡ false
head_absent x id xs h k = elim (Bool-cases (contains xs id)) [
  | inl among ↦ absurd (ground (arith, among, h id, k, present_counts xs id among))
  | inr absent ↦ absent
]

NoTwice-merge_one :
    (c : CauseCandidate) (by_id : List CauseCandidate)
    → NoTwice (ids_of by_id)
    → NoTwice (ids_of (merge_one c by_id))
NoTwice-merge_one c [] h id = ground arith
NoTwice-merge_one c (e ∷ by_id) h id = elim (Bool-cases (e.candidate_id == c.candidate_id)) [
  | inl same ↦ rw same (h id)
  | inr other ↦ rw other (
      ground (
        arith,
        NoTwice-merge_one c by_id (NoTwice-tail e.candidate_id (ids_of by_id) h) id,
        contains-merge_one c by_id id,
        head_absent e.candidate_id id (ids_of by_id) h,
        exclusive e.candidate_id c.candidate_id id other,
      ))
]

merged :
    (by_id cs : List CauseCandidate)
    → NoTwice (ids_of by_id)
    → NoTwice (ids_of (merge_into by_id cs))
      × ((id : String)
          → contains (ids_of (merge_into by_id cs)) id
            ≡ (contains (ids_of by_id) id || contains (ids_of cs) id))
merged by_id [] h = (h, λ id. ground arith)
merged by_id (c ∷ cs) h =
    let (no_twice, same) = merged (merge_one c by_id) cs (NoTwice-merge_one c by_id h) in
    (no_twice, λ id. ground (arith, same id, contains-merge_one c by_id id))

-- Merging keeps exactly the ids that come among the candidates, and each of them once.
pub merge_candidates_lem :
    (candidates : List CauseCandidate) (id : String)
    → count id (ids_of (merge_candidates candidates))
      ≡ (if contains (ids_of candidates) id then 1 else 0)
unfolding merge_candidates
merge_candidates_lem candidates id =
    let (no_twice, same) = merged [] candidates (λ i. refl) in ground (arith, no_twice id, same id)
