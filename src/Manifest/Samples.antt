-- ===== src/Manifest/Samples.antt =====
-- Changes of a small manifest at concrete paths.
use k8s_ops.Prelude.{ℕ, String, none, some, List, [], ◌∷◌, ◌≡◌, refl, here}
use k8s_ops.Manifest.Value.{
  Json, object, array, text, whole, no_items, item_then, no_fields, field_then, field_in, named,
  set_field, change_named,
}
use k8s_ops.Manifest.Path.{
  Segment, reads, object_value_at, set_object_value, read_selected, write_selected,
}
use k8s_ops.Manifest.Path.Below.{keeps_names}
use k8s_ops.Manifest.Path.RoundTrip.{set-read}
use k8s_ops.Manifest.Path.Frame.{parts_at_a_key}
use k8s_ops.Manifest.Path.Settable.{ends_in_field, readable_is_settable}
use k8s_ops.Manifest.Change.{Approved, int_value, str_value, projected_parent_value}
use k8s_ops.Manifest.Change.Undo.{undo, all_keep_names, rollback_restores}
use k8s_ops.Manifest.Change.Effect.{all_part, all_part_from, approved_changes_hold}

abbrev container : String → String → Json
container name image =
    object (field_then "name" (text name) (field_then "image" (text image) no_fields))

abbrev spec_of : ℕ → String → Json
spec_of replicas image = object (
    field_then "replicas" (whole replicas) (
      field_then "containers"
        (array (item_then (container "sidecar" "s:1") (item_then (container "app" image) no_items)))
        no_fields))

abbrev plain : String → Segment
plain key = record { key = key; selected_name = none }

abbrev image_path : List Segment
image_path = record { key = "containers"; selected_name = some "app" } ∷ plain "image" ∷ []

abbrev replicas_path : List Segment
replicas_path = plain "replicas" ∷ []

abbrev sidecar_path : List Segment
sidecar_path = plain "name" ∷ []

set-read_example : object_value_at (spec_of 2 "a:2") image_path ≡ reads (text "a:2")
unfolding keeps_names set_object_value field_in write_selected named set_field change_named
set-read_example = set-read image_path (spec_of 2 "a:1") (text "a:2") (spec_of 2 "a:2") refl refl

abbrev rollout : List Approved
rollout =
    record { segments = image_path; current = str_value "a:1"; desired = str_value "a:2" }
    ∷ record { segments = replicas_path; current = int_value 2; desired = int_value 3 }
    ∷ []

rollback_restores_example :
    projected_parent_value (spec_of 3 "a:2") (undo rollout) ≡ reads (spec_of 2 "a:1")
unfolding all_keep_names keeps_names projected_parent_value object_value_at field_in read_selected
    named set_object_value write_selected set_field change_named
rollback_restores_example = rollback_restores rollout (spec_of 2 "a:1") (spec_of 3 "a:2") refl refl

approved_changes_hold_example :
    (object_value_at (spec_of 3 "a:2") image_path ≡ reads (text "a:2"))
    × (object_value_at (spec_of 3 "a:2") sidecar_path
        ≡ object_value_at (spec_of 2 "a:1") sidecar_path)
unfolding all_keep_names keeps_names all_part parts_at_a_key projected_parent_value all_part_from
    object_value_at field_in read_selected named set_object_value write_selected set_field
    change_named
approved_changes_hold_example =
    approved_changes_hold rollout (spec_of 2 "a:1") (spec_of 3 "a:2")
      (record { segments = image_path; current = str_value "a:1"; desired = str_value "a:2" })
      sidecar_path refl refl refl here refl

readable_is_settable_example :
    (result : Json) × (set_object_value (spec_of 2 "a:1") image_path (text "a:9") ≡ reads result)
unfolding object_value_at ends_in_field field_in read_selected named
readable_is_settable_example =
    readable_is_settable image_path (spec_of 2 "a:1") (text "a:1") (text "a:9") refl refl
