-- ===== src/Limits/Payload/Originals.antt =====
-- The original counts that services/target/cluster-agent/providers/collection_limits.py records.
use k8s_ops.Prelude.{
  ℕ, zero, suc, String, Option, none, some, List, length, leb, ◌/◌, ◌==◌, string_eq, Table, lookup,
  lookup-put, ◌≡◌, refl, arith, Bool-cases, inl, inr, beq_true,
}
use k8s_ops.Limits.Selection.{limit_list}
use k8s_ops.Limits.Payload.{
  Limit, Budget, Candidate, first_known, original_count_for, record_collection_limit,
  largest_shrinkable_list, halve, turn_found, turn, shrink, item_count, limit_payload_size,
}

-- the original counts that are known stay as they are
abbrev pub Keeps : Table String Limit → Table String Limit → Type 0
Keeps before after =
    (key : String) (original returned : ℕ)
    → lookup key before ≡ some (original, returned)
    → (now : ℕ) × (lookup key after ≡ some (original, now))

first_known-some :
    (o : Option Limit) (n r fallback : ℕ) → o ≡ some (n, r) → first_known o fallback ≡ n
first_known-some none n r fallback h = absurd (cc h)
first_known-some (some (m, s)) n r fallback h = ground (arith, h)

record-Keeps :
    (limits : Table String Limit) (key : String) (original returned : ℕ)
    → Keeps limits (record_collection_limit limits key original returned)
unfolding record_collection_limit
record-Keeps limits key original returned k n r h = elim (Bool-cases (key == k)) [
  | inl same ↦
      let e = beq_true key k same in
      (
        returned,
        rw (lookup-put key k (original_count_for limits key original, returned) limits, same)
            (rw (first_known-some (lookup key limits) n r original (rw (← e) at h)) refl),
      )
  | inr other ↦
      (r, rw (lookup-put key k (original_count_for limits key original, returned) limits, other) h)
]

Keeps-self : (limits : Table String Limit) → Keeps limits limits
Keeps-self limits key n r h = (r, h)

Keeps-trans : (a b c : Table String Limit) → Keeps a b → Keeps b c → Keeps a c
Keeps-trans a b c f g key n r h = let (m, k) = f key n r h in g key n m k

module _ {A : Type 0} (b : Budget A) where
  turn_found-Keeps :
      (payload : Table String (List A)) (limits : Table String Limit) (o : Option (Candidate b))
      → Keeps limits (turn_found b payload limits o).1
  turn_found-Keeps payload limits none = Keeps-self limits
  turn_found-Keeps payload limits (some (key, value)) =
      unfold halve in
      record-Keeps limits key (original_count_for limits key (length value))
        (length (limit_list value (length value / 2) (b.group_key key)))

  turn-Keeps :
      (payload : Table String (List A)) (limits : Table String Limit)
      → Keeps limits (turn b payload limits).1
  unfolding turn
  turn-Keeps payload limits = elim (Bool-cases (leb (b.payload_size payload) b.max_bytes)) [
    | inl fits ↦ rw fits (Keeps-self limits)
    | inr over ↦ rw over (turn_found-Keeps payload limits (largest_shrinkable_list b payload))
  ]

  shrink-Keeps :
      (fuel : ℕ) (payload : Table String (List A)) (limits : Table String Limit)
      → Keeps limits (shrink b fuel payload limits).1
  unfolding shrink
  shrink-Keeps zero payload limits = Keeps-self limits
  shrink-Keeps (suc fuel) payload limits =
      let next = turn b payload limits in
      elim (Bool-cases next.2) [
        | inl ends ↦ rw ends (turn-Keeps payload limits)
        | inr goes_on ↦ rw goes_on (
            Keeps-trans limits next.1 (shrink b fuel next.0 next.1).1 (turn-Keeps payload limits)
              (shrink-Keeps fuel next.0 next.1))
      ]

  -- However often the loop shrinks a list again, an original count that is already recorded is the
  -- one that the record holds in the end: only the returned count changes.
  pub original_counts_stay :
      (payload : Table String (List A)) (limits : Table String Limit)
      → Keeps limits (limit_payload_size b payload limits).1
  unfolding limit_payload_size
  original_counts_stay payload limits = shrink-Keeps (item_count b payload) payload limits
