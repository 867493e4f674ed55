-- ===== src/Manifest/Path.antt =====
-- `object_value_at` and `set_object_value` of domains/gitops/source_patch.py on the segments of a
-- field path. An error is a value; the manifest that `set_object_value` changes in place is its
-- argument and its result, and a call that fails has changed nothing.
pub mod Laws
mod Turns
pub mod Below
pub mod RoundTrip
pub mod Frame
pub mod Settable
use k8s_ops.Prelude.{
  ℕ, String, Bool, true, false, Option, none, some, List, [], ◌∷◌, if◌then◌else◌, ◌==◌, string_eq,
  ◌&&◌, not,
}
use k8s_ops.Manifest.Value.{
  Json, object, array, text, null, boolean, whole, negative, floating, Items, Fields, field_in,
  set_field, named, change_named,
}

pub record Segment : Type 0 where
  pub key : String
  pub selected_name : Option String

-- A manifest or the exception: `ManifestSourcePatchError` for a target that is missing or not unique,
-- for a value that does not match and for a source that is no object, `KeyError`, `TypeError` or
-- `IndexError`.
pub data Reading : Type 0 where
  reads : Json → Reading
  is_missing is_not_unique is_stale is_no_object key_error type_error index_error : Reading

unfoldable pub and_then : Reading → (Json → Reading) → Reading
and_then (reads value) next = next value
and_then is_missing next = is_missing
and_then is_not_unique next = is_not_unique
and_then is_stale next = is_stale
and_then is_no_object next = is_no_object
and_then key_error next = key_error
and_then type_error next = type_error
and_then index_error next = index_error

-- `if len(matches) != 1: raise`
unfoldable pub the_only : List Json → Reading
the_only (one ∷ []) = reads one
the_only _ = is_not_unique

unfoldable pub or_missing : Option Json → Reading
or_missing none = is_missing
or_missing (some value) = reads value

unfoldable pub read_field : String → Json → Reading
unfolding or_missing
read_field key (object fields) = or_missing (field_in key fields)
read_field key _ = is_missing

unfoldable pub read_selected : Option String → Json → Reading
unfolding the_only
read_selected none value = reads value
read_selected (some name) (array items) = the_only (named name items)
read_selected (some name) _ = is_missing

-- One turn of the loop of `object_value_at`.
unfoldable pub enter : Segment → Json → Reading
unfolding and_then read_field
enter segment current =
    and_then (read_field segment.key current) (read_selected segment.selected_name)

unfoldable pub object_value_at : Json → List Segment → Reading
unfolding enter
object_value_at root [] = reads root
object_value_at root (segment ∷ segments) =
    and_then (enter segment root) (λ child. object_value_at child segments)

unfoldable pub or_key_error : Option Json → Reading
or_key_error none = key_error
or_key_error (some value) = reads value

unfoldable pub write_field : String → Json → Reading
unfolding or_key_error
write_field key (object fields) = or_key_error (field_in key fields)
write_field key _ = is_missing

-- The names are looked for in whatever can be iterated; a mapping and a text hold no mapping.
unfoldable pub write_selected : Option String → Json → Reading
unfolding the_only
write_selected none value = reads value
write_selected (some name) (array items) = the_only (named name items)
write_selected (some name) (object _) = is_not_unique
write_selected (some name) (text _) = is_not_unique
write_selected (some name) _ = type_error

-- One turn of the loop of `set_object_value`.
unfoldable pub enter_to_write : Segment → Json → Reading
unfolding and_then write_field
enter_to_write segment current =
    and_then (write_field segment.key current) (write_selected segment.selected_name)

-- The assignment at the end.
unfoldable pub assign_field : Option String → String → Json → Json → Reading
assign_field none key value (object fields) = reads (object (set_field key value fields))
assign_field _ key value current = is_missing

unfoldable pub assign : Segment → Json → Json → Reading
unfolding assign_field
assign segment value current = assign_field segment.selected_name segment.key value current

unfoldable pub change_selected : Option String → Json → Option Json → Json
change_selected none changed held = changed
change_selected (some name) changed (some (array items)) = array (change_named name changed items)
change_selected (some name) changed _ = changed

-- The parent of a changed child.
unfoldable pub put_back : Segment → Json → Json → Json
unfolding change_selected
put_back segment changed (object fields) = object (
    set_field segment.key
      (change_selected segment.selected_name changed (field_in segment.key fields)) fields)
put_back segment changed current = current

unfoldable pub set_object_value : Json → List Segment → Json → Reading
unfolding enter_to_write assign put_back
set_object_value root [] value = index_error
set_object_value root (final ∷ []) value = assign final value root
set_object_value root (segment ∷ next ∷ segments) value =
    and_then (enter_to_write segment root) (λ child.
      and_then (set_object_value child (next ∷ segments) value)
        (λ changed. reads (put_back segment changed root)))
