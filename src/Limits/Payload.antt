-- ===== src/Limits/Payload.antt =====
-- `limit_payload_list`, `limit_payload_size` and the record of what they left out, in
-- services/target/cluster-agent/providers/collection_limits.py. A payload is its list fields; the
-- byte sizes of the whole payload and of one list are those of their JSON, a parameter here.
pub mod Ending
pub mod Originals
use k8s_ops.Prelude.{
  ℕ, zero, suc, ◌+◌, ◌/◌, String, Bool, true, false, Option, none, some, List, [], ◌∷◌, length,
  if◌then◌else◌, leb, ltb, ◌==◌, string_eq, Table, lookup, put,
}
use k8s_ops.Limits.Selection.{limit_list}

-- original and returned count of a list
abbrev pub Limit : Type 0
Limit = ℕ × ℕ

abbrev pub first_known : Option Limit → ℕ → ℕ
first_known none fallback = fallback
first_known (some (original, returned)) fallback = original

abbrev pub original_count_for : Table String Limit → String → ℕ → ℕ
original_count_for limits key fallback = first_known (lookup key limits) fallback

unfoldable pub record_collection_limit : Table String Limit → String → ℕ → ℕ → Table String Limit
record_collection_limit limits key original_count returned_count =
    put key (original_count_for limits key original_count, returned_count) limits

module _ {A : Type 0} where
  abbrev pub limit_found :
      Table String (List A)
      → String
      → ℕ
      → Table String Limit
      → Option (A → String)
      → Option (List A)
      → Table String (List A) × Table String Limit
  limit_found payload key max_items limits group_key none = (payload, limits)
  limit_found payload key max_items limits group_key (some value) =
      let limited = limit_list value max_items group_key in
      if leb (length value) max_items then (payload, limits) else (
        put key limited payload,
        record_collection_limit limits key (length value) (length limited),
      )

  unfoldable pub limit_payload_list :
      Table String (List A)
      → String
      → ℕ
      → Table String Limit
      → Option (A → String)
      → Table String (List A) × Table String Limit
  limit_payload_list payload key max_items limits group_key =
      limit_found payload key max_items limits group_key (lookup key payload)

-- The sizes of the JSON, the budget, the list keys and the grouping of each.
pub record Budget (A : Type 0) : Type 0 where
  pub payload_size : Table String (List A) → ℕ
  pub list_size : List A → ℕ
  pub max_bytes : ℕ
  pub keys : List String
  pub group_key : String → Option (A → String)

module _ {A : Type 0} (b : Budget A) where
  abbrev pub Candidate : Type 0
  Candidate = String × List A

  abbrev pub with_items : String → Option (List A) → List Candidate → List Candidate
  with_items key none rest = rest
  with_items key (some []) rest = rest
  with_items key (some (x ∷ xs)) rest = (key, x ∷ xs) ∷ rest

  abbrev pub candidates : Table String (List A) → List String → List Candidate
  candidates payload [] = []
  candidates payload (key ∷ keys) = with_items key (lookup key payload) (candidates payload keys)

  -- `max` keeps the first of the largest
  abbrev pub largest : Candidate → List Candidate → Candidate
  largest best [] = best
  largest best (c ∷ cs) =
      largest (if ltb (b.list_size best.1) (b.list_size c.1) then c else best) cs

  abbrev pub largest_of : List Candidate → Option Candidate
  largest_of [] = none
  largest_of (c ∷ cs) = some (largest c cs)

  unfoldable pub largest_shrinkable_list : Table String (List A) → Option Candidate
  largest_shrinkable_list payload = largest_of (candidates payload b.keys)

  -- the body of the loop for the candidate that was found
  unfoldable pub halve :
      Table String (List A)
      → Table String Limit
      → Candidate
      → Table String (List A) × Table String Limit
  halve payload limits (key, value) =
      let limited = limit_list value (length value / 2) (b.group_key key) in
      (
        put key limited payload,
        record_collection_limit limits key (original_count_for limits key (length value))
            (length limited),
      )

  -- One turn of the loop: the payload, the limits, and whether the loop ends here.
  abbrev pub turn_found :
      Table String (List A)
      → Table String Limit
      → Option Candidate
      → Table String (List A) × Table String Limit × Bool
  turn_found payload limits none = (payload, limits, true)
  turn_found payload limits (some c) =
      ((halve payload limits c).0, (halve payload limits c).1, false)

  unfoldable pub turn :
      Table String (List A) → Table String Limit → Table String (List A) × Table String Limit × Bool
  unfolding largest_shrinkable_list halve
  turn payload limits =
      if leb (b.payload_size payload) b.max_bytes
      then (payload, limits, true)
      else turn_found payload limits (largest_shrinkable_list payload)

  unfoldable pub shrink :
      ℕ → Table String (List A) → Table String Limit → Table String (List A) × Table String Limit
  unfolding turn
  shrink zero payload limits = (payload, limits)
  shrink (suc fuel) payload limits =
      let (payload', limits', ends) = turn payload limits in
      let rest = shrink fuel payload' limits' in if ends then (payload', limits') else rest

  -- how many items the lists hold: a turn of the loop drops one at least
  abbrev pub item_count : Table String (List A) → ℕ
  item_count [] = 0
  item_count ((key, items) ∷ rest) = length items + item_count rest

  unfoldable pub limit_payload_size :
      Table String (List A) → Table String Limit → Table String (List A) × Table String Limit
  unfolding shrink
  limit_payload_size payload limits = shrink (item_count payload) payload limits
