-- ===== src/Limits/Selection/Length.antt =====
-- How many items `limit_list` of services/target/cluster-agent/providers/collection_limits.py keeps.
use k8s_ops.Prelude.{
  ℕ, zero, suc, ◌+◌, ◌≤◌, min, String, Option, none, some, List, [], ◌∷◌, length, length-append,
  length-take, leb, ◌==◌, string_eq, ◌≡◌, arith, Bool-cases, inl, inr,
}
use k8s_ops.Limits.Selection.{
  Buckets, add_to, group_from, kept, round, rounds, round_robin_groups, limit_list,
}

module _ {A : Type 0} where
  abbrev total : Buckets A → ℕ
  total [] = 0
  total ((key, items) ∷ buckets) = length items + total buckets

  abbrev Full : Buckets A → Type 0
  Full [] = Unit
  Full ((key, items) ∷ buckets) = (1 ≤ length items) × Full buckets

  total-add_to :
      (key : String) (item : A) (buckets : Buckets A)
      → total (add_to key item buckets) ≡ total buckets + 1
  total-add_to key item [] = omega arith
  total-add_to key item ((k, items) ∷ buckets) =
      ground (arith, total-add_to key item buckets, length-append items (item ∷ []))

  Full-add_to :
      (key : String) (item : A) (buckets : Buckets A)
      → Full buckets
      → Full (add_to key item buckets)
  Full-add_to key item [] h = (omega arith, tt)
  Full-add_to key item ((k, items) ∷ buckets) (some_item, rest) = elim (Bool-cases (k == key)) [
    | inl same ↦ rw same (omega (arith, length-append items (item ∷ [])), rest)
    | inr other ↦ rw other (some_item, Full-add_to key item buckets rest)
  ]

  total-group_from :
      (g : A → String) (buckets : Buckets A) (items : List A)
      → total (group_from g buckets items) ≡ total buckets + length items
  total-group_from g buckets [] = omega arith
  total-group_from g buckets (item ∷ items) = omega (
    arith,
    total-group_from g (add_to (g item) item buckets) items,
    total-add_to (g item) item buckets,
  )

  Full-group_from :
      (g : A → String) (buckets : Buckets A) (items : List A)
      → Full buckets
      → Full (group_from g buckets items)
  Full-group_from g buckets [] h = h
  Full-group_from g buckets (item ∷ items) h =
      Full-group_from g (add_to (g item) item buckets) items (Full-add_to (g item) item buckets h)

  total-kept :
      (key : String) (items : List A) (buckets : Buckets A)
      → total (kept key items buckets) ≡ length items + total buckets
  total-kept key [] buckets = omega arith
  total-kept key (x ∷ xs) buckets = omega arith

  Full-kept :
      (key : String) (items : List A) (buckets : Buckets A)
      → Full buckets
      → Full (kept key items buckets)
  Full-kept key [] buckets h = h
  Full-kept key (x ∷ xs) buckets h = (omega arith, h)

  -- a turn moves items from the buckets to the selection, one for one, and uses as much room
  round-total :
      (room : ℕ) (buckets : Buckets A)
      → (length (round room buckets).0 + total (round room buckets).1 ≡ total buckets)
        × (length (round room buckets).0 + (round room buckets).2 ≡ room)
  round-total zero buckets = (omega arith, omega arith)
  round-total (suc room) [] = (omega arith, omega arith)
  round-total (suc room) ((key, []) ∷ buckets) =
      let (a, b) = round-total (suc room) buckets in (omega (arith, a), omega (arith, b))
  round-total (suc zero) ((key, item ∷ items) ∷ buckets) = (omega arith, omega arith)
  round-total (suc (suc room)) ((key, item ∷ items) ∷ buckets) =
      let (a, b) = round-total (suc room) buckets in
      (omega (arith, a, total-kept key items (round (suc room) buckets).1), omega (arith, b))

  -- after a turn that leaves room no bucket is empty
  round-Full :
      (room : ℕ) (buckets : Buckets A)
      → Full buckets
      → 1 ≤ (round room buckets).2
      → Full (round room buckets).1
  round-Full zero buckets h left = h
  round-Full (suc room) [] h left = tt
  round-Full (suc room) ((key, []) ∷ buckets) (f, h) left = round-Full (suc room) buckets h left
  round-Full (suc zero) ((key, item ∷ items) ∷ buckets) h left = absurd (omega (arith, left))
  round-Full (suc (suc room)) ((key, item ∷ items) ∷ buckets) (f, h) left =
      Full-kept key items (round (suc room) buckets).1 (round-Full (suc room) buckets h left)

  round-takes :
      (room : ℕ) (b : String × List A) (buckets : Buckets A)
      → Full (b ∷ buckets)
      → 1 ≤ length (round (suc room) (b ∷ buckets)).0
  round-takes room (key, []) buckets (f, h) = absurd (omega (arith, f))
  round-takes zero (key, x ∷ xs) buckets h = omega arith
  round-takes (suc room) (key, x ∷ xs) buckets h = omega arith

  length-rounds :
      (fuel room : ℕ) (buckets : Buckets A)
      → (1 ≤ room → Full buckets)
      → room ≤ total buckets
      → room ≤ fuel
      → length (rounds fuel room buckets) ≡ room
  length-rounds zero room buckets full enough fueled = omega (arith, fueled)
  length-rounds (suc fuel) zero buckets full enough fueled = omega arith
  length-rounds (suc fuel) (suc room) [] full enough fueled = absurd (omega (arith, enough))
  length-rounds (suc fuel) (suc room) (b ∷ buckets) full enough fueled =
      let turn = round (suc room) (b ∷ buckets) in
      let (moved, used) = round-total (suc room) (b ∷ buckets) in
      let whole : Full (b ∷ buckets) = full (omega arith) in
      let takes = round-takes room b buckets whole in
      let rest =
        length-rounds fuel turn.2 turn.1 (λ left. round-Full (suc room) (b ∷ buckets) whole left)
          (omega (arith, moved, used, enough)) (omega (arith, used, takes, fueled)) in
      omega (arith, rest, used, length-append turn.0 (rounds fuel turn.2 turn.1))

  -- With or without groups, a list keeps as many items as the limit allows: all of a short list,
  -- and of a longer one exactly `max_items`.
  pub length-limit_list :
      (items : List A) (max_items : ℕ) (group_key : Option (A → String))
      → length (limit_list items max_items group_key) ≡ min max_items (length items)
  unfolding limit_list
  length-limit_list items max_items none = ground (arith, length-take max_items items)
  length-limit_list items max_items (some g) = elim (Bool-cases (leb (length items) max_items)) [
    | inl short ↦ rw short (ground (arith, short))
    | inr long ↦
        let exact =
          length-rounds (length items) max_items (group_from g [] items)
            (λ _. Full-group_from g [] items tt) (ground (arith, long, total-group_from g [] items))
            (ground (arith, long)) in
        rw long (unfold round_robin_groups in ground (arith, long, exact))
  ]
