-- ===== src/Manifest/Path/Turns.antt =====
-- One turn of `object_value_at` and `set_object_value` (domains/gitops/source_patch.py).
use k8s_ops.Prelude.{
  String, true, Option, none, some, [], ◌∷◌, string_eq, ◌≡◌, refl, sym, Bool-cases, inl, inr,
  beq_self, ap,
}
use k8s_ops.Manifest.Value.{
  Json, object, array, text, null, boolean, whole, negative, floating, Items, no_items, item_then,
  Fields, field_in, set_field, is_named, named,
}
use k8s_ops.Manifest.Path.{
  Segment, reads, and_then, the_only, read_field, read_selected, enter, write_field, write_selected,
  enter_to_write, change_selected, put_back, or_missing, or_key_error,
}
use k8s_ops.Manifest.Path.Laws.{
  and_then-reads, field_in-set_field, set_field-restores, the_only-reads, named-change_named,
  change_named-restores,
}

-- A change keeps the name that its item was selected by.
unfoldable pub KeepsName : Option String → Json → Type 0
KeepsName none changed = Unit {0}
KeepsName (some name) changed = is_named name changed ≡ true

-- What a selection for writing finds, a selection for reading finds, before and after a change;
-- and the change can be undone.
record Selects (selected : Option String) (held changed child : Json) : Type 0 where
  read_before : read_selected selected held ≡ reads child
  written_after :
      write_selected selected (change_selected selected changed (some held)) ≡ reads changed
  undone :
      change_selected selected child (some (change_selected selected changed (some held))) ≡ held

select_turn :
    (selected : Option String) (held changed child : Json)
    → KeepsName selected changed
    → write_selected selected held ≡ reads child
    → Selects selected held changed child
unfolding write_selected read_selected change_selected KeepsName the_only
select_turn none held changed child keeps e =
    let same : held ≡ child = cc e in
    record { read_before = e; written_after = refl; undone = sym same }
select_turn (some name) (array items) changed child keeps e =
    let one = the_only-reads (named name items) child e in
    record {
      read_before = e;
      written_after = rw (named-change_named name changed items child keeps one) refl;
      undone = ap array (change_named-restores name changed items child keeps one);
    }
select_turn (some name) (object _) changed child keeps e = absurd (cc e)
select_turn (some name) (text _) changed child keeps e = absurd (cc e)
select_turn (some name) null changed child keeps e = absurd (cc e)
select_turn (some name) (boolean _) changed child keeps e = absurd (cc e)
select_turn (some name) (whole _) changed child keeps e = absurd (cc e)
select_turn (some name) (negative _) changed child keeps e = absurd (cc e)
select_turn (some name) (floating _) changed child keeps e = absurd (cc e)

pub record Turns (segment : Segment) (root changed child : Json) : Type 0 where
  pub entered_before : enter segment root ≡ reads child
  pub written_after : enter_to_write segment (put_back segment changed root) ≡ reads changed
  pub undone : put_back segment child (put_back segment changed root) ≡ root

turn_in :
    (key : String) (selected : Option String) (members : Fields) (held changed child : Json)
    → field_in key members ≡ some held
    → Selects selected held changed child
    → Turns (record { key = key; selected_name = selected }) (object members) changed child
unfolding enter enter_to_write and_then read_field write_field put_back or_missing or_key_error
turn_in key selected members held changed child found s =
    let changed_held = change_selected selected changed (some held) in
    let again : field_in key (set_field key changed_held members) ≡ some changed_held =
      simp (field_in-set_field, beq_self) refl in
    record {
      entered_before = simp found s.read_before;
      written_after = simp (found, again) s.written_after;
      undone =
          simp (found, again, s.undone)
            (ap object (set_field-restores key changed_held held members found));
    }

or_key_error-reads :
    (found : Option Json) (held : Json) → or_key_error found ≡ reads held → found ≡ some held
unfolding or_key_error
or_key_error-reads none held e = absurd (cc e)
or_key_error-reads (some value) held e = let same : value ≡ held = cc e in ap some same

written_in :
    (key : String) (root held : Json)
    → write_field key root ≡ reads held
    → (members : Fields) × (root ≡ object members) × (field_in key members ≡ some held)
unfolding write_field
written_in key (object members) held e =
    (members, refl, or_key_error-reads (field_in key members) held e)
written_in key (array _) held e = absurd (cc e)
written_in key null held e = absurd (cc e)
written_in key (boolean _) held e = absurd (cc e)
written_in key (whole _) held e = absurd (cc e)
written_in key (negative _) held e = absurd (cc e)
written_in key (floating _) held e = absurd (cc e)
written_in key (text _) held e = absurd (cc e)

-- A turn that found its child for writing finds it for reading, finds the changed child after the
-- change, and can be undone.
pub turn :
    (segment : Segment) (root changed child : Json)
    → KeepsName segment.selected_name changed
    → enter_to_write segment root ≡ reads child
    → Turns segment root changed child
unfolding enter_to_write
turn segment root changed child keeps e =
    let (held, first, second) =
      and_then-reads (write_field segment.key root) (write_selected segment.selected_name) child
        e in
    let (members, same, found) = written_in segment.key root held first in
    rw same (
      turn_in segment.key segment.selected_name members held changed child found
        (select_turn segment.selected_name held changed child keeps second))

named-is_named :
    (name : String) (items : Items) (one : Json)
    → named name items ≡ one ∷ []
    → is_named name one ≡ true
unfolding named
named-is_named name no_items one only = absurd (cc only)
named-is_named name (item_then item items) one only = elim (Bool-cases (is_named name item)) [
  | inl e ↦
      let found : item ∷ named name items ≡ one ∷ [] = rw e at only in
      let same : item ≡ one = cc found in rw (sym same, e) refl
  | inr e ↦ named-is_named name items one (rw e at only)
]

selection-is_named :
    (name : String) (held child : Json)
    → write_selected (some name) held ≡ reads child
    → is_named name child ≡ true
unfolding write_selected
selection-is_named name (array items) child e =
    named-is_named name items child (the_only-reads (named name items) child e)
selection-is_named name (object _) child e = absurd (cc e)
selection-is_named name (text _) child e = absurd (cc e)
selection-is_named name null child e = absurd (cc e)
selection-is_named name (boolean _) child e = absurd (cc e)
selection-is_named name (whole _) child e = absurd (cc e)
selection-is_named name (negative _) child e = absurd (cc e)
selection-is_named name (floating _) child e = absurd (cc e)

-- An item that a segment selects has the name it was selected by.
pub selected_by_name :
    (name : String) (segment : Segment) (root child : Json)
    → segment.selected_name ≡ some name
    → enter_to_write segment root ≡ reads child
    → is_named name child ≡ true
unfolding enter_to_write
selected_by_name name segment root child s e =
    let (held, _, second) =
      and_then-reads (write_field segment.key root) (write_selected segment.selected_name) child
        e in
    selection-is_named name held child (rw s at second)
