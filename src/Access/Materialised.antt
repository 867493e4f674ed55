-- ===== src/Access/Materialised.antt =====
-- The identifiers that domains/identity/dependencies.py makes of what a database returns.
use k8s_ops.Prelude.{
  String, false, Option, none, some, List, [], ◌∷◌, ◌==◌, string_eq, In, here, there, In-split, ◌≡◌,
  Bool-cases, inl, inr,
}
use k8s_ops.Access.Strip.{strip}
use k8s_ops.Access.Allowed.{materialise}

-- An identifier that stands in a list that the database returned, without its blanks.
pub record StandsIn (ids : List (Option String)) (id : String) : Type 0 where
  pub raw : String
  pub stands : In (some raw) ids
  pub is_stripped : id ≡ strip raw
  pub not_blank : (strip raw == "") ≡ false

StandsIn-there :
    (first : Option String) (ids : List (Option String)) (id : String)
    → StandsIn ids id
    → StandsIn (first ∷ ids) id
StandsIn-there first ids id s = record {
  raw = s.raw;
  stands = there s.stands;
  is_stripped = s.is_stripped;
  not_blank = s.not_blank;
}

pub materialise-StandsIn :
    (ids : List (Option String)) (id : String) → In id (materialise ids) → StandsIn ids id
unfolding materialise
materialise-StandsIn [] id i = elim i [ ]
materialise-StandsIn (none ∷ ids) id i = StandsIn-there none ids id (materialise-StandsIn ids id i)
materialise-StandsIn (some raw ∷ ids) id i = elim (Bool-cases (strip raw == "")) [
  | inl e ↦ StandsIn-there (some raw) ids id (materialise-StandsIn ids id (rw e at i))
  | inr e ↦ elim (In-split (rw e at i)) [
    | inl same ↦ record { raw = raw; stands = here; is_stripped = same; not_blank = e }
    | inr j ↦ StandsIn-there (some raw) ids id (materialise-StandsIn ids id j)
  ]
]

StandsIn-materialise :
    (ids : List (Option String)) (raw : String)
    → (strip raw == "") ≡ false
    → In (some raw) ids
    → In (strip raw) (materialise ids)
unfolding materialise
StandsIn-materialise [] raw h i = elim i [ ]
StandsIn-materialise (_ ∷ ids) raw h here = rw h here
StandsIn-materialise (none ∷ ids) raw h (there i) = StandsIn-materialise ids raw h i
StandsIn-materialise (some other ∷ ids) raw h (there i) = elim (Bool-cases (strip other == "")) [
  | inl e ↦ rw e (StandsIn-materialise ids raw h i)
  | inr e ↦ rw e (there (StandsIn-materialise ids raw h i))
]

pub materialised :
    (ids : List (Option String)) (id : String) → StandsIn ids id → In id (materialise ids)
materialised ids id s = rw s.is_stripped (StandsIn-materialise ids s.raw s.not_blank s.stands)
