-- ===== src/Limits/Selection.antt =====
-- `limit_list` and `round_robin_groups` of services/target/cluster-agent/providers/collection_limits.py.
-- The buckets are an ordered dictionary; `max_items` less what is selected is the room left.
pub mod Length
use k8s_ops.Prelude.{
  ℕ, zero, suc, ◌+◌, String, Bool, true, false, Option, none, some, List, [], ◌∷◌, ◌++◌, length,
  take, if◌then◌else◌, leb, ◌==◌, string_eq,
}

abbrev pub Buckets : Type 0 → Type 0
Buckets A = List (String × List A)

module _ {A : Type 0} where
  -- `buckets.setdefault(group_key(item), []).append(item)`
  abbrev pub add_to : String → A → Buckets A → Buckets A
  add_to key item [] = (key, item ∷ []) ∷ []
  add_to key item ((k, items) ∷ buckets) =
      let rest = add_to key item buckets in
      if k == key then (k, items ++ item ∷ []) ∷ buckets else (k, items) ∷ rest

  abbrev pub group_from : (A → String) → Buckets A → List A → Buckets A
  group_from group_key buckets [] = buckets
  group_from group_key buckets (item ∷ items) =
      group_from group_key (add_to (group_key item) item buckets) items

  -- `if not bucket: buckets.pop(key, None)`
  abbrev pub kept : String → List A → Buckets A → Buckets A
  kept key [] buckets = buckets
  kept key (x ∷ xs) buckets = (key, x ∷ xs) ∷ buckets

  -- One turn over all keys: the items taken, the buckets and the room after it. The last item that
  -- there is room for breaks off the turn.
  abbrev pub round : ℕ → Buckets A → List A × Buckets A × ℕ
  round zero buckets = ([], buckets, zero)
  round (suc room) [] = ([], [], suc room)
  round (suc room) ((key, []) ∷ buckets) = round (suc room) buckets
  round (suc zero) ((key, item ∷ items) ∷ buckets) = (item ∷ [], (key, items) ∷ buckets, zero)
  round (suc (suc room)) ((key, item ∷ items) ∷ buckets) =
      let (taken, rest, left) = round (suc room) buckets in
      (item ∷ taken, kept key items rest, left)

  -- `while buckets and len(selected) < max_items`
  abbrev pub rounds : ℕ → ℕ → Buckets A → List A
  rounds zero room buckets = []
  rounds (suc fuel) zero buckets = []
  rounds (suc fuel) (suc room) [] = []
  rounds (suc fuel) (suc room) (b ∷ buckets) =
      let (taken, rest, left) = round (suc room) (b ∷ buckets) in taken ++ rounds fuel left rest

  -- a turn takes an item at least, so there are no more turns than items
  unfoldable pub round_robin_groups : List A → ℕ → (A → String) → List A
  round_robin_groups items max_items group_key =
      rounds (length items) max_items (group_from group_key [] items)

  unfoldable pub limit_list : List A → ℕ → Option (A → String) → List A
  unfolding round_robin_groups
  limit_list items max_items none =
      if leb (length items) max_items then items else take max_items items
  limit_list items max_items (some group_key) =
      if leb (length items) max_items then items else round_robin_groups items max_items group_key
