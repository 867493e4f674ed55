-- ===== src/Causes/Evaluation/Laws.antt =====
-- Lemmas on `evaluate_causes` and `unique_ordered` of services/ai/agent/causes/engine.py.
use k8s_ops.Prelude.{
  ℕ, String, Bool, true, false, ◌||◌, List, [], ◌∷◌, select, In-select, contains, string_eq, ◌==◌,
  is_empty, if◌then◌else◌, eqb, ◌≡◌, refl, arith, In, In-split, here, there, count, beq_true,
  Bool-cases, inl, inr, beq_self,
}
use k8s_ops.Causes.Signals.{
  SignalGroup, BundleSignals, match_signal_group, length-split_signal_groups, none_unmatched,
}
use k8s_ops.Causes.Evaluation.{
  CauseCandidate, Scores, unique_from, unique_ordered, insert_sorted, sorted, text_le,
  evaluate_cause,
}

unique_from-In :
    (seen values : List String) (v : String) → In v (unique_from seen values) → In v values
unique_from-In seen [] v i = elim i [ ]
unique_from-In seen (value ∷ values) v i = elim (Bool-cases (contains seen value)) [
  | inl old ↦ there (unique_from-In seen values v (rw old at i))
  | inr new ↦ elim (In-split (rw new at i)) [
    | inl same ↦ rw same here
    | inr j ↦ there (unique_from-In (value ∷ seen) values v j)
  ]
]

-- how often a value comes in the result: once, where it is among the values and not yet seen
abbrev times : Bool → Bool → ℕ
times seen among = if seen then 0 else if among then 1 else 0

count-unique_from :
    (seen values : List String) (v : String)
    → count v (unique_from seen values) ≡ times (contains seen v) (contains values v)
count-unique_from seen [] v = ground arith
count-unique_from seen (value ∷ values) v = elim (Bool-cases (value == v)) [
  | inl same ↦
      let e = beq_true value v same in
      rw e (
        ground (
          arith,
          beq_self v,
          count-unique_from seen values v,
          count-unique_from (v ∷ seen) values v,
        ))
  | inr other ↦
      ground
        (arith, other, count-unique_from seen values v, count-unique_from (value ∷ seen) values v)
]

-- A list without duplicates of the same values: each value that is among them comes once, and no
-- other value comes.
pub unique_ordered_lem :
    (values : List String) (v : String)
    → count v (unique_ordered values) ≡ (if contains values v then 1 else 0)
unfolding unique_ordered
unique_ordered_lem values v = count-unique_from [] values v

insert_sorted-full : (a : String) (bs : List String) → is_empty (insert_sorted a bs) ≡ false
insert_sorted-full a [] = refl
insert_sorted-full a (b ∷ bs) = elim (Bool-cases (text_le a b)) [
  | inl le ↦ rw le refl
  | inr gt ↦ rw gt refl
]

sorted-empty : (xs : List String) → is_empty (sorted xs) ≡ is_empty xs
sorted-empty [] = refl
sorted-empty (x ∷ xs) = insert_sorted-full x (sorted xs)

has_one : (xs : List String) → is_empty xs ≡ false → (x : String) × In x xs
has_one [] h = absurd (cc)
has_one (x ∷ xs) h = (x, here)

module _ (sc : Scores) (casefold : String → String) (actual : List String)
    (signals : BundleSignals) where
  -- A candidate with evidence has an expected key that the bundle provides.
  pub supporting_means_evidence :
      (c : CauseCandidate)
      → is_empty (evaluate_cause sc casefold actual signals c).supporting_evidence ≡ false
      → (key : String) × In key c.expected_evidence × (contains actual key ≡ true)
  unfolding evaluate_cause unique_ordered
  supporting_means_evidence c h =
      let chosen = select (λ e. contains actual e) (unique_from [] c.expected_evidence) in
      let (key, i) = has_one chosen (rw (← sorted-empty chosen) h) in
      let (j, there_is) =
        In-select (λ e. contains actual e) (unique_from [] c.expected_evidence) key i in
      (key, unique_from-In [] c.expected_evidence key j, there_is)

  -- A candidate that is not held back by its signals has matched all of them.
  pub eligible_means_matched :
      (c : CauseCandidate)
      → (eqb (evaluate_cause sc casefold actual signals c).required_signal_count 0
          || eqb
              (evaluate_cause sc casefold actual signals c).matched_signal_count
              (evaluate_cause sc casefold actual signals c).required_signal_count)
        ≡ true
      → (g : SignalGroup) → In g c.signals
      → match_signal_group casefold g signals ≡ true
  unfolding evaluate_cause
  eligible_means_matched c h g i =
      none_unmatched casefold c.signals signals g
        (ground (arith, h, length-split_signal_groups casefold c.signals signals)) i
