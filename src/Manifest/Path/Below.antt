-- ===== src/Manifest/Path/Below.antt =====
-- A change below a segment keeps what selected it
-- (domains/gitops/source_patch.py).
use k8s_ops.Prelude.{
  String, Bool, true, false, Option, none, some, List, [], ◌∷◌, ◌==◌, string_eq, not, ◌&&◌, ◌≡◌,
  refl, sym, ◌∙◌, arith,
}
use k8s_ops.Manifest.Value.{
  Json, object, array, text, null, boolean, whole, negative, floating, Fields, field_in, set_field,
  is_named,
}
use k8s_ops.Manifest.Path.{
  Segment, reads, and_then, enter, enter_to_write, change_selected, put_back, set_object_value,
  assign, assign_field,
}
use k8s_ops.Manifest.Path.Laws.{and_then-reads, field_in-set_field}
use k8s_ops.Manifest.Path.Turns.{KeepsName, Turns, turn, selected_by_name}

unfoldable pub key_differs : Option String → String → Bool
key_differs none key = true
key_differs (some name) key = not (key == "name")

-- No segment of the path goes through the name of an item that the segment before it selects.
unfoldable pub keeps_names : List Segment → Bool
unfolding key_differs
keeps_names [] = true
keeps_names (segment ∷ []) = true
keeps_names (segment ∷ next ∷ segments) =
    key_differs segment.selected_name next.key && keeps_names (next ∷ segments)

-- A change below a field other than the name keeps an item's name.
is_named-set_field :
    (name key : String) (value : Json) (members : Fields)
    → (key == "name") ≡ false
    → is_named name (object (set_field key value members)) ≡ is_named name (object members)
unfolding is_named
is_named-set_field name key value members h = simp (field_in-set_field, h) refl

is_named-put_back :
    (name : String) (segment : Segment) (changed root : Json)
    → (segment.key == "name") ≡ false
    → is_named name (put_back segment changed root) ≡ is_named name root
unfolding put_back is_named
is_named-put_back name segment changed (object members) h =
    is_named-set_field name segment.key
      (change_selected segment.selected_name changed (field_in segment.key members)) members h
is_named-put_back name segment changed (array _) h = refl
is_named-put_back name segment changed null h = refl
is_named-put_back name segment changed (boolean _) h = refl
is_named-put_back name segment changed (whole _) h = refl
is_named-put_back name segment changed (negative _) h = refl
is_named-put_back name segment changed (floating _) h = refl
is_named-put_back name segment changed (text _) h = refl

is_named-assign :
    (name : String) (selected : Option String) (key : String) (value root result : Json)
    → (key == "name") ≡ false
    → assign_field selected key value root ≡ reads result
    → is_named name result ≡ is_named name root
unfolding assign_field
is_named-assign name none key value (object members) result h e =
    let same : object (set_field key value members) ≡ result = cc e in
    rw (sym same) (is_named-set_field name key value members h)
is_named-assign name _ key value _ result h e = absurd (cc e)

differs_false : (name key : String) → key_differs (some name) key ≡ true → (key == "name") ≡ false
unfolding key_differs
differs_false name key h = ground (arith, h)

is_named-set_object_value :
    (name : String) (next : Segment) (segments : List Segment) (child value changed : Json)
    → (next.key == "name") ≡ false
    → set_object_value child (next ∷ segments) value ≡ reads changed
    → is_named name changed ≡ is_named name child
unfolding set_object_value assign
is_named-set_object_value name next [] child value changed h e =
    is_named-assign name next.selected_name next.key value child changed h e
is_named-set_object_value name next (after ∷ segments) child value changed h e =
    let (inner, _, deeper) =
      and_then-reads (enter_to_write next child)
        (λ inner.
          and_then (set_object_value inner (after ∷ segments) value)
            (λ under. reads (put_back next under child)))
        changed e in
    let (under, _, back) =
      and_then-reads (set_object_value inner (after ∷ segments) value)
        (λ under. reads (put_back next under child)) changed deeper in
    let same : put_back next under child ≡ changed = cc back in
    rw (sym same) (is_named-put_back name next under child h)

-- The selection of a segment survives a change below it.
pub keeps_selection :
    (selected : Option String) (segment : Segment) (next : Segment) (segments : List Segment)
    (root child value changed : Json)
    → segment.selected_name ≡ selected
    → key_differs selected next.key ≡ true
    → enter_to_write segment root ≡ reads child
    → set_object_value child (next ∷ segments) value ≡ reads changed
    → KeepsName selected changed
unfolding KeepsName
keeps_selection none segment next segments root child value changed s h e e' = tt
keeps_selection (some name) segment next segments root child value changed s h e e' =
    is_named-set_object_value name next segments child value changed (differs_false name next.key h)
      e'
    ∙ selected_by_name name segment root child s e

-- A successful change below a segment, taken apart.
pub record Below (segment next : Segment) (segments : List Segment) (root value result : Json)
    : Type 0 where
  pub child : Json
  pub changed : Json
  pub entered : enter_to_write segment root ≡ reads child
  pub set_below : set_object_value child (next ∷ segments) value ≡ reads changed
  pub result_is : put_back segment changed root ≡ result
  pub turns : Turns segment root changed child
  pub entered_after : enter segment result ≡ reads changed

pub below :
    (segment next : Segment) (segments : List Segment) (root value result : Json)
    → key_differs segment.selected_name next.key ≡ true
    → set_object_value root (segment ∷ next ∷ segments) value ≡ reads result
    → Below segment next segments root value result
unfolding set_object_value
below segment next segments root value result h e =
    let (child, entered, deeper) =
      and_then-reads (enter_to_write segment root)
        (λ child.
          and_then (set_object_value child (next ∷ segments) value)
            (λ changed. reads (put_back segment changed root)))
        result e in
    let (changed, set_below, back) =
      and_then-reads (set_object_value child (next ∷ segments) value)
        (λ changed. reads (put_back segment changed root)) result deeper in
    let keeps =
      keeps_selection segment.selected_name segment next segments root child value changed refl h
        entered set_below in
    let turns = turn segment root changed child keeps entered in
    let result_is : put_back segment changed root ≡ result = cc back in
    let again =
      turn segment (put_back segment changed root) changed changed keeps turns.written_after in
    record {
      child = child;
      changed = changed;
      entered = entered;
      set_below = set_below;
      result_is = result_is;
      turns = turns;
      entered_after = rw (sym result_is) again.entered_before;
    }
