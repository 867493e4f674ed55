-- ===== src/Causes/Selection/Laws.antt =====
-- Lemmas on `analyze_root_cause` of services/ai/agent/causes/engine.py.
use k8s_ops.Prelude.{
  String, Bool, true, false, not, ◌&&◌, none, List, [], ◌∷◌, map, select, In-select, select-In,
  is_empty, string_eq, contains, ◌==◌, ◌≡◌, arith, In, here, there, In-split, Bool-cases, inl, inr,
  refl, eqb, ◌⊎◌, ◌↔◌,
}
use k8s_ops.Causes.Signals.{SignalGroup, BundleSignals, match_signal_group}
use k8s_ops.Causes.Evaluation.{
  CauseCandidate, CauseEvaluation, EvidenceItem, Scores, unknown_evaluation_id, evidence_keys,
  evaluate_cause, evaluate_causes,
}
use k8s_ops.Causes.Evaluation.Laws.{supporting_means_evidence, eligible_means_matched}
use k8s_ops.Causes.Selection.{
  selected, is_eligible, is_supported, key_less, min_by_key, choose, analyze_root_cause,
}
use k8s_ops.Causes.Selection.Order.{min_by_key-minimal, min_by_key-In, NoBetter, key_less-NoBetter}

module _ (sc : Scores) where
  open sc use {F}

  chosen :
      (evaluations supported : List (CauseEvaluation F)) (e : CauseEvaluation F)
      → choose sc evaluations supported ≡ selected e
      → In e supported × ((x : CauseEvaluation F) → In x supported → key_less sc x e ≡ false)
  chosen evaluations [] e h = absurd (cc h)
  chosen evaluations (s ∷ ss) e h =
      let same : min_by_key sc s ss ≡ e = cc h in
      (rw (← same) (min_by_key-In sc s ss), λ x i. rw (← same) (min_by_key-minimal sc x s ss i))

  analyzed :
      (evaluations : List (CauseEvaluation F)) (e : CauseEvaluation F)
      → analyze_root_cause sc evaluations ≡ selected e
      → choose sc evaluations (select (λ x. is_supported x) evaluations) ≡ selected e
  unfolding analyze_root_cause
  analyzed [] e h = absurd (cc h)
  analyzed (first ∷ rest) e h = elim (Bool-cases (first.candidate_id == unknown_evaluation_id)) [
    | inl unknown_first ↦ absurd (cc (rw unknown_first at h))
    | inr known ↦ rw known at h
  ]

  -- what is selected, with the key of the code
  selected_least :
      (evaluations : List (CauseEvaluation F)) (e : CauseEvaluation F)
      → analyze_root_cause sc evaluations ≡ selected e
      → In e evaluations
        × (is_eligible e ≡ true)
        × (is_empty e.supporting_evidence ≡ false)
        × ((x : CauseEvaluation F)
            → In x evaluations
            → is_supported x ≡ true
            → key_less sc x e ≡ false)
  selected_least evaluations e h =
      let (i, least) =
        chosen evaluations (select (λ x. is_supported x) evaluations) e
          (analyzed evaluations e h) in
      let (j, supported) = In-select (λ x. is_supported x) evaluations e i in
      let (eligible, full) = both (is_eligible e) (is_empty e.supporting_evidence) supported in
      (j, eligible, full, λ x k s. least x (select-In (λ y. is_supported y) evaluations x k s))
    where
      both : (a b : Bool) → (a && not b) ≡ true → (a ≡ true) × (b ≡ false)
      both a b t = ground arith

  -- what the code requires of a root cause: its signals are all matched, or it has none, and it has
  -- supporting evidence
  abbrev pub Qualifies : CauseEvaluation F → Type 0
  Qualifies e =
      ((e.required_signal_count ≡ 0) ⊎ (e.matched_signal_count ≡ e.required_signal_count))
      × (is_empty e.supporting_evidence ≡ false)

  eligible_iff :
      (e : CauseEvaluation F)
      → is_eligible e ≡ true
        ↔ (e.required_signal_count ≡ 0) ⊎ (e.matched_signal_count ≡ e.required_signal_count)
  eligible_iff e = (forth, λ h. ground (arith, h))
    where
      forth :
          is_eligible e ≡ true
          → (e.required_signal_count ≡ 0) ⊎ (e.matched_signal_count ≡ e.required_signal_count)
      forth h = elim (Bool-cases (eqb e.required_signal_count 0)) [
        | inl none_required ↦ inl (ground (arith, none_required))
        | inr some_required ↦ inr (ground (arith, h, some_required))
      ]

  supported_if : (e : CauseEvaluation F) → Qualifies e → is_supported e ≡ true
  supported_if e (matched, full) = rw ((eligible_iff e).1 matched, full) refl

  -- A selected root cause is one of the evaluations, all of its signals are matched or it has none,
  -- it has supporting evidence, and no evaluation of which the same holds is better: none has a
  -- higher score, none with its score has more matched signals, and none with its score and as many
  -- matched signals has fewer missing entries.
  pub selected_is_best :
      (evaluations : List (CauseEvaluation F)) (e : CauseEvaluation F)
      → analyze_root_cause sc evaluations ≡ selected e
      → In e evaluations
        × Qualifies e
        × ((x : CauseEvaluation F) → In x evaluations → Qualifies x → NoBetter sc x e)
  selected_is_best evaluations e h =
      let (i, eligible, full, least) = selected_least evaluations e h in
      (
        i,
        ((eligible_iff e).0 eligible, full),
        λ x j q. key_less-NoBetter sc x e (least x j (supported_if x q)),
      )

In-map :
    {A B : Type 0} (f : A → B) (xs : List A) (y : B)
    → In y (map f xs)
    → (x : A) × In x xs × (y ≡ f x)
In-map f [] y i = elim i [ ]
In-map f (x ∷ xs) y i = elim (In-split i) [
  | inl same ↦ (x, here, same)
  | inr j ↦ let (z, k, e) = In-map f xs y j in (z, there k, e)
]

module _ (sc : Scores) (casefold : String → String) where
  -- From the candidates to the root cause: what is selected is the evaluation of one of the
  -- candidates, the bundle provides at least one piece of the evidence that this candidate
  -- expects, and every signal group of the candidate matches the bundle's signals.
  pub root_cause_is_discriminated :
      (candidates : List CauseCandidate) (items : List EvidenceItem) (signals : BundleSignals)
      (e : CauseEvaluation sc.F)
      → analyze_root_cause sc (evaluate_causes sc casefold candidates items signals none)
        ≡ selected e
      → (c : CauseCandidate) × In c candidates
        × (e ≡ evaluate_cause sc casefold (evidence_keys items) signals c)
        × ((key : String) × In key c.expected_evidence
            × (contains (evidence_keys items) key ≡ true))
        × ((g : SignalGroup) → In g c.signals → match_signal_group casefold g signals ≡ true)
  unfolding evaluate_causes
  root_cause_is_discriminated candidates items signals e h =
      let (i, eligible, full, _) =
        selected_least sc
          (map (λ c. evaluate_cause sc casefold (evidence_keys items) signals c) candidates) e h in
      let (c, j, same) =
        In-map (λ c. evaluate_cause sc casefold (evidence_keys items) signals c) candidates e i in
      (
        c,
        j,
        same,
        supporting_means_evidence sc casefold (evidence_keys items) signals c (rw same at full),
        eligible_means_matched sc casefold (evidence_keys items) signals c (rw same at eligible),
      )
