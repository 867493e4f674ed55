-- ===== src/Manifest/Path/Frame.antt =====
-- What `set_object_value` leaves as it is, and when it succeeds
-- (domains/gitops/source_patch.py).
use k8s_ops.Prelude.{
  String, Bool, true, false, Option, none, some, List, [], ◌∷◌, if◌then◌else◌, ◌==◌, string_eq,
  ◌&&◌, &&_iff, ◌≡◌, refl, sym, ◌∙◌, arith, Bool-cases, inl, inr, beq_true, ap,
}
use k8s_ops.Manifest.Value.{
  Json, object, array, text, null, boolean, whole, negative, floating, set_field,
}
use k8s_ops.Manifest.Path.{
  Segment, reads, and_then, read_field, enter, put_back, object_value_at, set_object_value, assign,
  assign_field,
}
use k8s_ops.Manifest.Path.Laws.{field_in-set_field}
use k8s_ops.Manifest.Path.Below.{below, keeps_names, key_differs}

unfoldable same_selection : Option String → Option String → Bool
same_selection none none = true
same_selection (some a) (some b) = a == b
same_selection _ _ = false

-- Two paths that part at a key of one object.
unfoldable pub parts_at_a_key : List Segment → List Segment → Bool
unfolding same_selection
parts_at_a_key [] others = false
parts_at_a_key segments [] = false
parts_at_a_key (segment ∷ segments) (other ∷ others) =
    let rest = parts_at_a_key segments others in
    if segment.key == other.key
    then same_selection segment.selected_name other.selected_name && rest
    else true

same_selection-equal : (a b : Option String) → same_selection a b ≡ true → a ≡ b
unfolding same_selection
same_selection-equal none none h = refl
same_selection-equal (some a) (some b) h = ap some (beq_true a b h)
same_selection-equal none (some b) h = absurd (cc h)
same_selection-equal (some a) none h = absurd (cc h)

enter-put_back :
    (segment other : Segment) (changed root : Json)
    → (segment.key == other.key) ≡ false
    → enter other (put_back segment changed root) ≡ enter other root
unfolding enter put_back read_field
enter-put_back segment other changed (object members) h = simp (field_in-set_field, h) refl
enter-put_back segment other changed (array _) h = refl
enter-put_back segment other changed null h = refl
enter-put_back segment other changed (boolean _) h = refl
enter-put_back segment other changed (whole _) h = refl
enter-put_back segment other changed (negative _) h = refl
enter-put_back segment other changed (floating _) h = refl
enter-put_back segment other changed (text _) h = refl

assign_field_lem :
    (selected : Option String) (key : String) (other : Segment) (value root result : Json)
    → (key == other.key) ≡ false
    → assign_field selected key value root ≡ reads result
    → enter other result ≡ enter other root
unfolding assign_field enter read_field
assign_field_lem none key other value (object members) result h e =
    let same : object (set_field key value members) ≡ result = cc e in
    rw (sym same) (simp (field_in-set_field, h) refl)
assign_field_lem _ key other value _ result h e = absurd (cc e)

enter-assign :
    (segment other : Segment) (value root result : Json)
    → (segment.key == other.key) ≡ false
    → assign segment value root ≡ reads result
    → enter other result ≡ enter other root
unfolding assign
enter-assign segment other value root result h e =
    assign_field_lem segment.selected_name segment.key other value root result h e

enter_alike :
    (segment other : Segment) (root : Json)
    → segment.key ≡ other.key
    → segment.selected_name ≡ other.selected_name
    → enter other root ≡ enter segment root
unfolding enter
enter_alike segment other root k s = rw (k, s) refl

last_parts : (b : Bool) (same : Bool) → (if b then same && false else true) ≡ true → b ≡ false
last_parts b same h = ground (arith, h)

then_parts :
    (b same rest : Bool)
    → b ≡ true
    → (if b then same && rest else true) ≡ true
    → (same ≡ true) × (rest ≡ true)
then_parts b same rest e h = ground (arith, e, h)

-- A value at a path that parts from the changed one at some key is as it was.
pub set-elsewhere :
    (segments others : List Segment) (root value result : Json)
    → keeps_names segments ≡ true
    → parts_at_a_key segments others ≡ true
    → set_object_value root segments value ≡ reads result
    → object_value_at result others ≡ object_value_at root others
unfolding set_object_value object_value_at parts_at_a_key keeps_names
set-elsewhere [] others root value result h p e = absurd (cc e)
set-elsewhere (final ∷ []) [] root value result h p e = absurd (cc p)
set-elsewhere (final ∷ []) (other ∷ others) root value result h p e =
    let away =
      last_parts (final.key == other.key) (same_selection final.selected_name other.selected_name)
        p in
    rw (enter-assign final other value root result away e) refl
set-elsewhere (segment ∷ next ∷ segments) [] root value result h p e = absurd (cc p)
set-elsewhere (segment ∷ next ∷ segments) (other ∷ others) root value result h p e =
    let (differs, deeper) =
      (&&_iff (key_differs segment.selected_name next.key) (keeps_names (next ∷ segments))).0 h in
    let b = below segment next segments root value result differs e in
    elim (Bool-cases (segment.key == other.key)) [
      | inl same ↦
          let (alike, rest) =
            then_parts (segment.key == other.key)
              (same_selection segment.selected_name other.selected_name)
              (parts_at_a_key (next ∷ segments) others) same p in
          let k = beq_true segment.key other.key same in
          let s = same_selection-equal segment.selected_name other.selected_name alike in
          rw
            (
              enter_alike segment other result k s,
              b.entered_after,
              enter_alike segment other root k s,
              b.turns.entered_before,
            )
            (set-elsewhere (next ∷ segments) others b.child value b.changed deeper rest b.set_below)
      | inr away ↦
          ap (λ x. and_then x (λ child. object_value_at child others))
            (ap (enter other) (sym b.result_is) ∙ enter-put_back segment other b.changed root away)
    ]
