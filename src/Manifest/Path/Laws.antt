-- ===== src/Manifest/Path/Laws.antt =====
-- What a change of one field or of one named item keeps
-- (domains/gitops/source_patch.py).
use k8s_ops.Prelude.{
  String, true, some, List, [], ◌∷◌, if◌then◌else◌, ◌==◌, string_eq, ◌≡◌, refl, sym, arith,
  Bool-cases, inl, inr, ap,
}
use k8s_ops.Manifest.Value.{
  Json, Items, no_items, item_then, Fields, no_fields, field_then, field_in, set_field, is_named,
  named, change_named,
}
use k8s_ops.Manifest.Path.{
  Reading, reads, is_missing, is_not_unique, is_stale, is_no_object, key_error, type_error,
  index_error, and_then, the_only,
}

-- A step that succeeded had a first part that did.
pub and_then-reads :
    (first : Reading) (next : Json → Reading) (result : Json)
    → and_then first next ≡ reads result
    → (value : Json) × (first ≡ reads value) × (next value ≡ reads result)
unfolding and_then
and_then-reads (reads value) next result e = (value, refl, e)
and_then-reads is_missing next result e = absurd (cc e)
and_then-reads is_not_unique next result e = absurd (cc e)
and_then-reads is_stale next result e = absurd (cc e)
and_then-reads is_no_object next result e = absurd (cc e)
and_then-reads key_error next result e = absurd (cc e)
and_then-reads type_error next result e = absurd (cc e)
and_then-reads index_error next result e = absurd (cc e)

pub field_in-set_field :
    (key other : String) (value : Json) (fields : Fields)
    → field_in other (set_field key value fields)
      ≡ (if key == other then some value else field_in other fields)
unfolding field_in set_field
field_in-set_field key other value no_fields = refl
field_in-set_field key other value (field_then first held fields) = ground (
  arith,
  string_eq.test_iff key other,
  string_eq.test_iff first key,
  string_eq.test_iff first other,
  field_in-set_field key other value fields,
)

-- A field that is set and set back.
pub set_field-restores :
    (key : String) (value old : Json) (fields : Fields)
    → field_in key fields ≡ some old
    → set_field key old (set_field key value fields) ≡ fields
unfolding field_in set_field
set_field-restores key value old no_fields h = absurd (cc h)
set_field-restores key value old (field_then first held fields) h =
    elim (Bool-cases (first == key)) [
      | inl e ↦
          let same : some held ≡ some old = rw e at h in
          let same' : held ≡ old = cc same in
          simp e (ap (λ x. field_then first x fields) (sym same'))
      | inr e ↦
          simp e (ap (field_then first held) (set_field-restores key value old fields (rw e at h)))
    ]

pub the_only-reads : (xs : List Json) (one : Json) → the_only xs ≡ reads one → xs ≡ one ∷ []
unfolding the_only
the_only-reads [] one e = absurd (cc e)
the_only-reads (x ∷ []) one e = let same : x ≡ one = cc e in rw same refl
the_only-reads (x ∷ y ∷ xs) one e = absurd (cc e)

change_named-nothing :
    (name : String) (changed : Json) (items : Items)
    → named name items ≡ []
    → change_named name changed items ≡ items
unfolding named change_named
change_named-nothing name changed no_items h = refl
change_named-nothing name changed (item_then item items) h =
    elim (Bool-cases (is_named name item)) [
      | inl e ↦ absurd (cc (rw e at h))
      | inr e ↦ rw e (ap (item_then item) (change_named-nothing name changed items (rw e at h)))
    ]

-- The one item of a name, when it is the first.
only_first :
    (item one : Json) (rest : List Json) → item ∷ rest ≡ one ∷ [] → (item ≡ one) × (rest ≡ [])
only_first item one rest e = (cc e, cc e)

-- The item of a name is found again after a change that keeps its name.
pub named-change_named :
    (name : String) (changed : Json) (items : Items) (one : Json)
    → is_named name changed ≡ true
    → named name items ≡ one ∷ []
    → named name (change_named name changed items) ≡ changed ∷ []
unfolding named change_named
named-change_named name changed no_items one h only = absurd (cc only)
named-change_named name changed (item_then item items) one h only =
    elim (Bool-cases (is_named name item)) [
      | inl e ↦
          let (_, others) = only_first item one (named name items) (rw e at only) in
          simp (e, h, change_named-nothing name changed items others, others) refl
      | inr e ↦ simp (e, e) (named-change_named name changed items one h (rw e at only))
    ]

-- The item of a name that is changed and changed back.
pub change_named-restores :
    (name : String) (changed : Json) (items : Items) (one : Json)
    → is_named name changed ≡ true
    → named name items ≡ one ∷ []
    → change_named name one (change_named name changed items) ≡ items
unfolding named change_named
change_named-restores name changed no_items one h only = absurd (cc only)
change_named-restores name changed (item_then item items) one h only =
    elim (Bool-cases (is_named name item)) [
      | inl e ↦
          let (same, others) = only_first item one (named name items) (rw e at only) in
          simp
            (
              e,
              h,
              change_named-nothing name changed items others,
              change_named-nothing name one items others,
            )
            (ap (λ x. item_then x items) (sym same))
      | inr e ↦
          simp (e, e)
            (ap (item_then item) (change_named-restores name changed items one h (rw e at only)))
    ]
