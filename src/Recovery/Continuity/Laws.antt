-- ===== src/Recovery/Continuity/Laws.antt =====
-- Lemmas on the comparison of workloads and sessions in domains/rca/recovery_verification.py.
use k8s_ops.Prelude.{
  String, Bool, true, false, not, ◌||◌, Option, none, some, ◌==◌, string_eq, pair_eq, List, [], ◌∷◌,
  map, ◌≡◌, refl, arith, lookup, put, lookup-put, lookup-put_self, Table, In, here, there,
  Bool-cases, Option-cases, ◌⊎◌, inl, inr, if◌then◌else◌, &&_iff, beq_true, ◌∙◌,
}
use text.Mathlib.TextEquality.{eq_iff}
use k8s_ops.Recovery.Observed.{Workload, Session, Floats}
use k8s_ops.Recovery.Continuity.{
  texts_eq, workload_eq, workloads_eq, protected_workloads_unchanged, Identity, identity_of,
  is_known, is_complete, add_session, values_from, values, at_least, all_at_least, compare_values,
  protected_active_sessions_maintained,
}

texts_eq-true : (xs ys : List String) → texts_eq xs ys ≡ true → xs ≡ ys
texts_eq-true [] [] h = refl
texts_eq-true [] (y ∷ ys) h = absurd (cc)
texts_eq-true (x ∷ xs) [] h = absurd (cc)
texts_eq-true (x ∷ xs) (y ∷ ys) h =
    let (same, rest) = (&&_iff (x == y) (texts_eq xs ys)).0 h in
    cc (beq_true x y same, texts_eq-true xs ys rest)

workload_eq-true : (a b : Workload) → workload_eq a b ≡ true → a ≡ b
workload_eq-true a b h = ground (
  arith,
  h,
  eq_iff a.name b.name,
  eq_iff a.kind b.kind,
  eq_iff a.namespace b.namespace,
  eq_iff a.uid b.uid,
  texts_eq-true a.pod_uids b.pod_uids,
  texts_eq-true a.pod_start_times b.pod_start_times,
)

workloads_eq-true : (xs ys : List Workload) → workloads_eq xs ys ≡ true → xs ≡ ys
workloads_eq-true [] [] h = refl
workloads_eq-true [] (y ∷ ys) h = absurd (cc)
workloads_eq-true (x ∷ xs) [] h = absurd (cc)
workloads_eq-true (x ∷ xs) (y ∷ ys) h =
    let (same, rest) = (&&_iff (workload_eq x y) (workloads_eq xs ys)).0 h in
    cc (workload_eq-true x y same, workloads_eq-true xs ys rest)

some-true : (b : Bool) → some b ≡ some true → b ≡ true
some-true b h = ground arith

-- Where the verdict is true, there is a baseline with workloads in it, and the protected workloads
-- of now are those of the baseline in every compared field: identity, uid, pods, start times and
-- restart counts, in the same order and number.
pub unchanged_means_same :
    (baseline : Option (List Workload)) (current : Option (List (Workload × Bool)))
    → protected_workloads_unchanged baseline current ≡ some true
    → (b : Workload) × (bs : List Workload) × (now : List (Workload × Bool)) × (baseline
        ≡ some (b ∷ bs))
      × (current ≡ some now)
      × (b ∷ bs ≡ map (λ w. w.0) now)
unfolding protected_workloads_unchanged
unchanged_means_same none none h = absurd (cc)
unchanged_means_same (some bs) none h = absurd (cc)
unchanged_means_same none (some now) h = absurd (cc)
unchanged_means_same (some []) (some now) h = absurd (cc)
unchanged_means_same (some (b ∷ bs)) (some now) h =
    (b, bs, now, refl, refl, workloads_eq-true (b ∷ bs) (map (λ w. w.0) now) (some-true _ h))

some_eq {ℓ} : {A : Type ℓ} (x y : A) → some x ≡ some y → x ≡ y
some_eq x y h = ground (arith, h)

module _ (fl : Floats) (casefold : String → String) where
  open fl use {F, le}

  unknown_id :
      (id : Identity) (t : Table Identity F)
      → is_known fl casefold id t ≡ false
      → lookup id t ≡ none
  unknown_id id t h = ground arith

  added_lookup :
      (s : Session F) (o : Option F) (t t' : Table Identity F)
      → add_session fl casefold s o t ≡ some t'
      → (v : F) × (o ≡ some v)
        × (lookup (identity_of fl casefold s) t ≡ none)
        × (t' ≡ put (identity_of fl casefold s) v t)
  added_lookup s none t t' h = absurd (cc)
  added_lookup s (some v) t t' h =
      let id = identity_of fl casefold s in
      by_test (is_complete fl casefold id) (is_known fl casefold id t) refl h
    where
      by_test :
          (complete known : Bool)
          → is_known fl casefold (identity_of fl casefold s) t ≡ known
          → (if not complete || known then none else some (put (identity_of fl casefold s) v t))
            ≡ some t'
          → (x : F) × (some v ≡ some x)
            × (lookup (identity_of fl casefold s) t ≡ none)
            × (t' ≡ put (identity_of fl casefold s) x t)
      by_test false known e h = absurd (cc)
      by_test true true e h = absurd (cc)
      by_test true false e h =
          (v, refl, unknown_id (identity_of fl casefold s) t e, ground (arith, h))

  values_from-none : (items : List (Session F)) → values_from fl casefold items none ≡ none
  unfolding values_from
  values_from-none [] = refl
  values_from-none (s ∷ items) = refl

  -- one item of a list that parses is added to a dictionary that did not hold it
  head_parses :
      (s : Session F) (items : List (Session F)) (t0 t : Table Identity F)
      → values_from fl casefold (s ∷ items) (some t0) ≡ some t
      → (v : F) × (s.value ≡ some v)
        × (lookup (identity_of fl casefold s) t0 ≡ none)
        × (values_from fl casefold items (some (put (identity_of fl casefold s) v t0)) ≡ some t)
  unfolding values_from
  head_parses s items t0 t h = elim (Option-cases (add_session fl casefold s s.value t0)) [
    | inl refused ↦ absurd (cc (h, refused, values_from-none items))
    | inr (t1, added) ↦
        let (v, valued, new, at) = added_lookup s s.value t0 t1 added in
        let rest : values_from fl casefold items (add_session fl casefold s s.value t0) ≡ some t =
          h in
        (v, valued, new, rw (← at) (rw added at rest))
  ]

  -- what a dictionary held, the parsed one holds
  parsed_keeps :
      (items : List (Session F)) (t0 t : Table Identity F) (id : Identity) (v : F)
      → values_from fl casefold items (some t0) ≡ some t
      → lookup id t0 ≡ some v
      → lookup id t ≡ some v
  unfolding values_from
  parsed_keeps [] t0 t id v h held = ground (arith, h, held)
  parsed_keeps (s ∷ items) t0 t id v h held =
      let (w, valued, new, rest) = head_parses s items t0 t h in
      parsed_keeps items (put (identity_of fl casefold s) w t0) t id v rest (
        rw lookup-put (elim (Bool-cases (identity_of fl casefold s == id)) [
          | inl same ↦ absurd (cc (beq_true (identity_of fl casefold s) id same, new, held))
          | inr other ↦ rw other held
        ]))

  -- every item is in the parsed dictionary
  parsed_has :
      (items : List (Session F)) (t0 t : Table Identity F) (s : Session F)
      → values_from fl casefold items (some t0) ≡ some t
      → In s items
      → (v : F) × (s.value ≡ some v) × (lookup (identity_of fl casefold s) t ≡ some v)
  parsed_has [] t0 t x h i = elim i [ ]
  parsed_has (s ∷ items) t0 t x h here =
      let (v, valued, new, rest) = head_parses s items t0 t h in
      (
        v,
        valued,
        parsed_keeps items (put (identity_of fl casefold s) v t0) t (identity_of fl casefold s) v
            rest (lookup-put_self (identity_of fl casefold s) v t0),
      )
  parsed_has (s ∷ items) t0 t x h (there i) =
      let (v, valued, new, rest) = head_parses s items t0 t h in
      parsed_has items (put (identity_of fl casefold s) v t0) t x rest i

  -- and nothing else is
  parsed_only :
      (items : List (Session F)) (t0 t : Table Identity F) (id : Identity) (v : F)
      → values_from fl casefold items (some t0) ≡ some t
      → lookup id t ≡ some v
      → (lookup id t0 ≡ some v)
        ⊎ ((s : Session F) × In s items × (identity_of fl casefold s ≡ id) × (s.value ≡ some v))
  unfolding values_from
  parsed_only [] t0 t id v h held = inl (ground (arith, h, held))
  parsed_only (s ∷ items) t0 t id v h held =
      let (w, valued, new, rest) = head_parses s items t0 t h in
      elim (parsed_only items (put (identity_of fl casefold s) w t0) t id v rest held) [
        | inr (x, i, e, xv) ↦ inr (x, there i, e, xv)
        | inl before ↦
            let here_or_before = rw lookup-put at before in
            elim (Bool-cases (identity_of fl casefold s == id)) [
              | inl same ↦ inr (
                s,
                here,
                beq_true (identity_of fl casefold s) id same,
                valued ∙ (rw same at here_or_before),
              )
              | inr other ↦ inl (rw other at here_or_before)
            ]
      ]

  at_least-some :
      (w : F) (o : Option F)
      → at_least fl casefold w o ≡ true
      → (now : F) × (o ≡ some now) × (le w now ≡ true)
  at_least-some w none h = absurd (cc)
  at_least-some w (some now) h = (now, refl, h)

  all_at_least-lookup :
      (before after : Table Identity F) (id : Identity) (v : F)
      → all_at_least fl casefold before after ≡ true
      → lookup id before ≡ some v
      → (now : F) × (lookup id after ≡ some now) × (le v now ≡ true)
  unfolding all_at_least lookup
  all_at_least-lookup [] after id v h held = absurd (cc)
  all_at_least-lookup ((j, w) ∷ rest) after id v h held =
      let (first, others) =
        (&&_iff (at_least fl casefold w (lookup j after)) (all_at_least fl casefold rest after)).0
          h in
      elim (Bool-cases (j == id)) [
        | inl same ↦
            let (now, at, more) = at_least-some w (lookup j after) first in
            let e = beq_true j id same in
            let wv : w ≡ v = some_eq w v (rw same at held) in (now, rw (← e) at, rw (← wv) more)
        | inr other ↦ all_at_least-lookup rest after id v others (rw other at held)
      ]

  -- Where the verdict is true, every session of the baseline has a finite value, and among the
  -- current sessions there is one of the same identity (namespace, kind up to case, name,
  -- continuity id and pod) whose value is at least as large: none of them lost active sessions.
  pub maintained_means_no_loss :
      (baseline current : List (Session F))
      → protected_active_sessions_maintained fl casefold (some baseline) (some current) ≡ some true
      → (s : Session F) → In s baseline
      → (before : F) × (after : F) × (t : Session F) × (s.value ≡ some before)
        × In t current
        × (identity_of fl casefold t ≡ identity_of fl casefold s)
        × (t.value ≡ some after)
        × (le before after ≡ true)
  unfolding protected_active_sessions_maintained
  maintained_means_no_loss [] current h s i = elim i [ ]
  maintained_means_no_loss (b ∷ bs) current h s i =
      elim (Option-cases (values fl casefold (b ∷ bs))) [
        | inl bad ↦ absurd (cc (h, bad))
        | inr (before, parsed) ↦ elim (Option-cases (values fl casefold current)) [
          | inl bad ↦ absurd (cc (h, parsed, bad))
          | inr (after, now_parsed) ↦
              let verdict : compare_values fl casefold (some before) (some after) ≡ some true =
                rw (parsed, now_parsed) at h in
              let (v, valued, held) = parsed_has (b ∷ bs) [] before s parsed i in
              let (now, found, more) =
                all_at_least-lookup before after (identity_of fl casefold s) v
                  (compared before after verdict) held in
              elim (parsed_only current [] after (identity_of fl casefold s) now now_parsed found) [
                | inl nothing ↦ absurd (unfold lookup in cc nothing)
                | inr (t, j, same, tv) ↦ (v, now, t, valued, j, same, tv, more)
              ]
        ]
      ]
    where
      compared :
          (before after : Table Identity F)
          → compare_values fl casefold (some before) (some after) ≡ some true
          → all_at_least fl casefold before after ≡ true
      compared before after e = ground (arith, e)
