-- ===== src/Limits/Payload/Ending.antt =====
-- Lemmas on the loop of `limit_payload_size` in
-- services/target/cluster-agent/providers/collection_limits.py.
use k8s_ops.Prelude.{
  ℕ, zero, suc, ◌+◌, ◌/◌, ◌≤◌, ◌<◌, String, Bool, true, false, Option, none, some, List, [], ◌∷◌,
  length, leb, ltb, ◌==◌, string_eq, Table, lookup, put, ◌≡◌, refl, arith, Bool-cases, Option-cases,
  ◌⊎◌, inl, inr, In, here, there, In-split,
}
use k8s_ops.Limits.Selection.{limit_list}
use k8s_ops.Limits.Selection.Length.{length-limit_list}
use k8s_ops.Limits.Payload.{
  Limit, Budget, Candidate, with_items, candidates, largest, largest_of, largest_shrinkable_list,
  halve, turn_found, turn, shrink, item_count, limit_payload_size,
}

module _ {A : Type 0} (b : Budget A) where
  -- a list that is there and holds items
  abbrev Shrinkable : Table String (List A) → Candidate b → Type 0
  Shrinkable payload c = (lookup c.0 payload ≡ some c.1) × (1 ≤ length c.1)

  with_items-Shrinkable :
      (payload : Table String (List A)) (key : String) (o : Option (List A))
      (rest : List (Candidate b)) (c : Candidate b)
      → lookup key payload ≡ o
      → ((d : Candidate b) → In d rest → Shrinkable payload d)
      → In c (with_items b key o rest)
      → Shrinkable payload c
  with_items-Shrinkable payload key none rest c e h i = h c i
  with_items-Shrinkable payload key (some []) rest c e h i = h c i
  with_items-Shrinkable payload key (some (x ∷ xs)) rest c e h i = elim (In-split i) [
    | inl same ↦ rw same (e, omega arith)
    | inr j ↦ h c j
  ]

  candidates-Shrinkable :
      (payload : Table String (List A)) (keys : List String) (c : Candidate b)
      → In c (candidates b payload keys)
      → Shrinkable payload c
  candidates-Shrinkable payload [] c i = elim i [ ]
  candidates-Shrinkable payload (key ∷ keys) c i =
      with_items-Shrinkable payload key (lookup key payload) (candidates b payload keys) c refl
        (λ d j. candidates-Shrinkable payload keys d j) i

  largest-In : (best : Candidate b) (cs : List (Candidate b)) → In (largest b best cs) (best ∷ cs)
  largest-In best [] = here
  largest-In best (c ∷ cs) = elim (Bool-cases (ltb (b.list_size best.1) (b.list_size c.1))) [
    | inl larger ↦ rw larger (there (largest-In c cs))
    | inr smaller ↦ rw smaller (behind (largest-In best cs))
  ]
    where
      behind : {d e : Candidate b} {ds : List (Candidate b)} → In d (e ∷ ds) → In d (e ∷ c ∷ ds)
      behind here = here
      behind (there i) = there (there i)

  largest_of-In : (cs : List (Candidate b)) (c : Candidate b) → largest_of b cs ≡ some c → In c cs
  largest_of-In [] c h = absurd (cc h)
  largest_of-In (d ∷ ds) c h = let same : largest b d ds ≡ c = cc h in rw (← same) (largest-In d ds)

  item_count-put :
      (key : String) (old new : List A) (payload : Table String (List A))
      → lookup key payload ≡ some old
      → item_count b (put key new payload) + length old ≡ item_count b payload + length new
  unfolding lookup put
  item_count-put key old new [] h = absurd (cc h)
  item_count-put key old new ((k, items) ∷ payload) h = elim (Bool-cases (k == key)) [
    | inl same ↦ let e : items ≡ old = cc (rw same at h) in rw (same, e) (omega arith)
    | inr other ↦ rw other (omega (arith, item_count-put key old new payload (rw other at h)))
  ]

  -- a turn that does not end the loop drops an item at least
  turn-drops :
      (payload : Table String (List A)) (limits : Table String Limit) (o : Option (Candidate b))
      → ((c : Candidate b) → o ≡ some c → Shrinkable payload c)
      → (turn_found b payload limits o).2 ≡ false
      → item_count b (turn_found b payload limits o).0 < item_count b payload
  turn-drops payload limits none found h = absurd (cc h)
  turn-drops payload limits (some (key, value)) found h =
      unfold halve in
      let (there_is, items) = found (key, value) refl in
      ground (
        arith,
        items,
        length-limit_list value (length value / 2) (b.group_key key),
        item_count-put key value (limit_list value (length value / 2) (b.group_key key)) payload
            there_is,
      )

  -- none of these list fields holds an item: each is absent or empty
  abbrev pub AllEmpty : Table String (List A) → List String → Type 0
  AllEmpty payload [] = Unit
  AllEmpty payload (key ∷ keys) =
      ((lookup key payload ≡ none) ⊎ (lookup key payload ≡ some [])) × AllEmpty payload keys

  -- the loop is over: the payload fits, or no list has items left
  abbrev pub Ended : Table String (List A) → Type 0
  Ended payload = (b.payload_size payload ≤ b.max_bytes) ⊎ AllEmpty payload b.keys

  with_items-empty :
      (key : String) (o : Option (List A)) (rest : List (Candidate b))
      → with_items b key o rest ≡ []
      → ((o ≡ none) ⊎ (o ≡ some [])) × (rest ≡ [])
  with_items-empty key none rest h = (inl refl, h)
  with_items-empty key (some []) rest h = (inr refl, h)
  with_items-empty key (some (x ∷ xs)) rest h = absurd (cc h)

  candidates-AllEmpty :
      (payload : Table String (List A)) (keys : List String)
      → candidates b payload keys ≡ []
      → AllEmpty payload keys
  candidates-AllEmpty payload [] h = tt
  candidates-AllEmpty payload (key ∷ keys) h =
      let (bare, rest) = with_items-empty key (lookup key payload) (candidates b payload keys) h in
      (bare, candidates-AllEmpty payload keys rest)

  largest_of-none : (cs : List (Candidate b)) → largest_of b cs ≡ none → cs ≡ []
  largest_of-none [] h = refl
  largest_of-none (c ∷ cs) h = absurd (cc h)

  exhausted :
      (payload : Table String (List A))
      → largest_shrinkable_list b payload ≡ none
      → AllEmpty payload b.keys
  unfolding largest_shrinkable_list
  exhausted payload h =
      candidates-AllEmpty payload b.keys (largest_of-none (candidates b payload b.keys) h)

  found-Shrinkable :
      (payload : Table String (List A)) (c : Candidate b)
      → largest_shrinkable_list b payload ≡ some c
      → Shrinkable payload c
  unfolding largest_shrinkable_list
  found-Shrinkable payload c h =
      candidates-Shrinkable payload b.keys c (largest_of-In (candidates b payload b.keys) c h)

  empty-Ended : (payload : Table String (List A)) → item_count b payload ≡ 0 → Ended payload
  empty-Ended payload none_left = elim (Option-cases (largest_shrinkable_list b payload)) [
    | inl nothing ↦ inr (exhausted payload nothing)
    | inr (c, found) ↦
        let (there_is, items) = found-Shrinkable payload c found in
        absurd (omega (arith, none_left, items, item_count-put c.0 c.1 [] payload there_is))
  ]

  -- what a turn does
  After : Table String (List A) → Table String (List A) × Table String Limit × Bool → Type 0
  After payload (payload', limits', ends) =
      ((ends ≡ true) × Ended payload')
      ⊎ ((ends ≡ false) × (item_count b payload' < item_count b payload))

  found-After :
      (payload : Table String (List A)) (limits : Table String Limit) (o : Option (Candidate b))
      → largest_shrinkable_list b payload ≡ o
      → After payload (turn_found b payload limits o)
  unfolding After
  found-After payload limits none e = inl (refl, inr (exhausted payload e))
  found-After payload limits (some c) e = inr (
    refl,
    turn-drops payload limits (some c) (λ d same. found-Shrinkable payload d (cc (e, same))) refl,
  )

  turn-After :
      (payload : Table String (List A)) (limits : Table String Limit)
      → After payload (turn b payload limits)
  unfolding turn
  turn-After payload limits = elim (Bool-cases (leb (b.payload_size payload) b.max_bytes)) [
    | inl fits ↦ rw fits (unfold After in inl (refl, inl (ground (arith, fits))))
    | inr over ↦ rw over (found-After payload limits (largest_shrinkable_list b payload) refl)
  ]

  shrink-Ended :
      (fuel : ℕ) (payload : Table String (List A)) (limits : Table String Limit)
      → item_count b payload ≤ fuel
      → Ended (shrink b fuel payload limits).0
  unfolding shrink After
  shrink-Ended zero payload limits enough = empty-Ended payload (omega (arith, enough))
  shrink-Ended (suc fuel) payload limits enough = elim (turn-After payload limits) [
    | inl (ends, over) ↦ rw ends over
    | inr (goes_on, less) ↦ rw goes_on (
        shrink-Ended fuel (turn b payload limits).0 (turn b payload limits).1
          (omega (arith, enough, less)))
  ]

  -- The loop that shrinks a payload ends: the fuel of one turn for each item is enough for it to
  -- stop by itself, with a payload within the budget or with each of the budget's list fields absent
  -- from the payload or empty.
  pub limit_payload_size_ends :
      (payload : Table String (List A)) (limits : Table String Limit)
      → Ended (limit_payload_size b payload limits).0
  unfolding limit_payload_size
  limit_payload_size_ends payload limits =
      shrink-Ended (item_count b payload) payload limits (omega arith)
