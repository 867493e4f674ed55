-- ===== src/Manifest/Path/Settable.antt =====
-- When `set_object_value` (domains/gitops/source_patch.py) succeeds.
use k8s_ops.Prelude.{
  String, Bool, true, false, Option, none, some, List, [], ◌∷◌, string_eq, ◌≡◌, refl,
}
use k8s_ops.Manifest.Value.{Json, object, array, field_in, set_field}
use k8s_ops.Manifest.Path.{
  Segment, reads, and_then, read_field, read_selected, enter, write_field, write_selected,
  enter_to_write, put_back, or_missing, or_key_error, object_value_at, set_object_value, assign,
  assign_field,
}
use k8s_ops.Manifest.Path.Laws.{and_then-reads}

unfoldable selects_nothing : Option String → Bool
selects_nothing none = true
selects_nothing (some name) = false

-- The last segment of the path names a field and selects no item.
unfoldable pub ends_in_field : List Segment → Bool
unfolding selects_nothing
ends_in_field [] = false
ends_in_field (final ∷ []) = selects_nothing final.selected_name
ends_in_field (segment ∷ next ∷ segments) = ends_in_field (next ∷ segments)

-- What can be read below an object can be entered for writing.
selection_to_write :
    (selected : Option String) (held child : Json)
    → read_selected selected held ≡ reads child
    → write_selected selected held ≡ reads child
unfolding read_selected write_selected
selection_to_write none held child e = e
selection_to_write (some name) (array items) child e = e
selection_to_write (some name) _ child e = absurd (cc e)

found_to_write :
    (found : Option Json) (held : Json)
    → or_missing found ≡ reads held
    → or_key_error found ≡ reads held
unfolding or_missing or_key_error
found_to_write none held e = absurd (cc e)
found_to_write (some value) held e = e

field_to_write :
    (key : String) (root held : Json)
    → read_field key root ≡ reads held
    → write_field key root ≡ reads held
unfolding read_field write_field
field_to_write key (object members) held e = found_to_write (field_in key members) held e
field_to_write key _ held e = absurd (cc e)

readable_turn :
    (segment : Segment) (root child : Json)
    → enter segment root ≡ reads child
    → enter_to_write segment root ≡ reads child
unfolding enter enter_to_write and_then
readable_turn segment root child e =
    let (held, first, second) =
      and_then-reads (read_field segment.key root) (read_selected segment.selected_name) child e in
    rw (field_to_write segment.key root held first)
      (selection_to_write segment.selected_name held child second)

assignable :
    (selected : Option String) (key : String) (root old value : Json)
    → selects_nothing selected ≡ true
    → read_field key root ≡ reads old
    → (result : Json) × (assign_field selected key value root ≡ reads result)
unfolding selects_nothing read_field assign_field
assignable none key (object members) old value h e = (object (set_field key value members), refl)
assignable none key _ old value h e = absurd (cc e)
assignable (some name) key _ old value h e = absurd (cc h)

-- A value that `object_value_at` reads at a path ending in a field can be set there: none of the
-- errors of `set_object_value` is raised.
pub readable_is_settable :
    (segments : List Segment) (root old value : Json)
    → ends_in_field segments ≡ true
    → object_value_at root segments ≡ reads old
    → (result : Json) × (set_object_value root segments value ≡ reads result)
unfolding set_object_value object_value_at ends_in_field assign enter and_then
readable_is_settable [] root old value h e = absurd (cc h)
readable_is_settable (final ∷ []) root old value h e =
    let (child, entered, _) = and_then-reads (enter final root) (λ child. reads child) old e in
    let (held, first, _) =
      and_then-reads (read_field final.key root) (read_selected final.selected_name) child
        entered in
    assignable final.selected_name final.key root held value h first
readable_is_settable (segment ∷ next ∷ segments) root old value h e =
    let (child, entered, rest) =
      and_then-reads (enter segment root) (λ child. object_value_at child (next ∷ segments)) old
        e in
    let (changed, below_set) = readable_is_settable (next ∷ segments) child old value h rest in
    (put_back segment changed root, rw (readable_turn segment root child entered, below_set) refl)
