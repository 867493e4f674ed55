-- ===== src/Recovery/Continuity.antt =====
-- `protected_workloads_unchanged` and `protected_active_sessions_maintained` of
-- domains/rca/recovery_verification.py. `casefold` is the text's own method.
pub mod Laws
use k8s_ops.Prelude.{
  ℕ, String, Bool, true, false, not, ◌&&◌, ◌||◌, Option, none, some, ◌==◌, string_eq, pair_eq, List,
  [], ◌∷◌, map, if◌then◌else◌, eqb, Table, lookup, put, contains, is_empty,
}
use k8s_ops.Recovery.Observed.{Workload, Session, Floats}

-- `==` on lists of texts
abbrev pub texts_eq : List String → List String → Bool
texts_eq [] [] = true
texts_eq (x ∷ xs) (y ∷ ys) = (x == y) && texts_eq xs ys
texts_eq _ _ = false

abbrev pub workload_eq : Workload → Workload → Bool
workload_eq a b =
    (a.name == b.name)
    && (a.kind == b.kind)
    && (a.namespace == b.namespace)
    && (a.uid == b.uid)
    && texts_eq a.pod_uids b.pod_uids
    && texts_eq a.pod_start_times b.pod_start_times
    && eqb a.restart_count b.restart_count

abbrev pub workloads_eq : List Workload → List Workload → Bool
workloads_eq [] [] = true
workloads_eq (x ∷ xs) (y ∷ ys) = workload_eq x y && workloads_eq xs ys
workloads_eq _ _ = false

-- The `healthy` flag is not part of what is compared; no baseline, or an empty one, is unknown.
unfoldable pub protected_workloads_unchanged :
    Option (List Workload) → Option (List (Workload × Bool)) → Option Bool
protected_workloads_unchanged baseline none = none
protected_workloads_unchanged none (some current) = none
protected_workloads_unchanged (some []) (some current) = none
protected_workloads_unchanged (some (b ∷ bs)) (some current) =
    some (workloads_eq (b ∷ bs) (map (λ w. w.0) current))

-- namespace, kind, name, continuity id, pod uid
abbrev pub Identity : Type 0
Identity = String × (String × (String × (String × String)))

module _ (fl : Floats) (casefold : String → String) where
  open fl use {F, le}

  abbrev pub identity_of : Session F → Identity
  identity_of s = (s.namespace, (casefold s.kind, (s.name, (s.continuity_id, s.pod_uid))))

  -- `all(identity)`: no part is empty
  abbrev pub is_complete : Identity → Bool
  is_complete (a, (b, (c, (d, e)))) =
      not (a == "") && not (b == "") && not (c == "") && not (d == "") && not (e == "")

  abbrev pub is_known : Identity → Table Identity F → Bool
  is_known id t = elim (lookup id t) [ none ↦ false | some _ ↦ true ]

  -- the body of `values`: one item more, or None
  abbrev pub add_session : Session F → Option F → Table Identity F → Option (Table Identity F)
  add_session s none parsed = none
  add_session s (some value) parsed =
      if not (is_complete (identity_of s)) || is_known (identity_of s) parsed
      then none
      else some (put (identity_of s) value parsed)

  unfoldable pub values_from :
      List (Session F) → Option (Table Identity F) → Option (Table Identity F)
  values_from items none = none
  values_from [] (some parsed) = some parsed
  values_from (s ∷ items) (some parsed) = values_from items (add_session s s.value parsed)

  abbrev pub values : List (Session F) → Option (Table Identity F)
  values items = values_from items (some [])

  -- the keys of one dictionary are keys of the other
  abbrev pub keys_within : Table Identity F → Table Identity F → Bool
  keys_within [] t = true
  keys_within ((id, _) ∷ rest) t = is_known id t && keys_within rest t

  abbrev pub at_least : F → Option F → Bool
  at_least value none = false
  at_least value (some now) = le value now

  -- `all(after[identity] >= value for …)`
  unfoldable pub all_at_least : Table Identity F → Table Identity F → Bool
  all_at_least [] after = true
  all_at_least ((id, value) ∷ rest) after =
      at_least value (lookup id after) && all_at_least rest after

  abbrev pub compare_values : Option (Table Identity F) → Option (Table Identity F) → Option Bool
  compare_values none after = none
  compare_values (some before) none = none
  compare_values (some before) (some after) =
      if keys_within before after && keys_within after before
      then some (all_at_least before after)
      else none

  unfoldable pub protected_active_sessions_maintained :
      Option (List (Session F)) → Option (List (Session F)) → Option Bool
  protected_active_sessions_maintained none current = none
  protected_active_sessions_maintained (some []) current = none
  protected_active_sessions_maintained (some (b ∷ bs)) none = none
  protected_active_sessions_maintained (some (b ∷ bs)) (some current) =
      compare_values (values (b ∷ bs)) (values current)
