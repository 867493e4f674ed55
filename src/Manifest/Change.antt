-- ===== src/Manifest/Change.antt =====
-- `projected_parent_value` of domains/gitops/recovery_merge.py, with `same_scalar` of
-- domains/gitops/source_patch.py. The approved changes below the parent come with their relative
-- paths read into segments; a path that does not parse has none.
pub mod Undo
pub mod Effect
use k8s_ops.Prelude.{
  ℕ, String, Bool, true, false, Option, none, some, List, [], ◌∷◌, if◌then◌else◌, ◌==◌, string_eq,
  nat_eq, is_empty,
}
use k8s_ops.Manifest.Value.{Json, null, boolean, whole, negative, floating, text, array, object}
use k8s_ops.Manifest.Path.{
  Segment, Reading, reads, is_stale, is_no_object, and_then, object_value_at, set_object_value,
}

-- The scalars that the approved actions set.
pub data ScalarValue : Type 0 where
  none_value : ScalarValue
  bool_value : Bool → ScalarValue
  int_value negative_value : ℕ → ScalarValue
  str_value : String → ScalarValue

unfoldable pub json_of : ScalarValue → Json
json_of none_value = null
json_of (bool_value b) = boolean b
json_of (int_value n) = whole n
json_of (negative_value n) = negative n
json_of (str_value s) = text s

unfoldable bool_same : Bool → Bool → Bool
bool_same true b = b
bool_same false true = false
bool_same false false = true

-- `type(left) is type(right) and left == right` for a scalar on the right
unfoldable pub same_scalar : Json → ScalarValue → Bool
unfolding bool_same
same_scalar null none_value = true
same_scalar (boolean a) (bool_value b) = bool_same a b
same_scalar (whole m) (int_value n) = m == n
same_scalar (negative m) (negative_value n) = m == n
same_scalar (text s) (str_value t) = s == t
same_scalar _ _ = false

pub record Approved : Type 0 where
  pub segments : List Segment
  pub current : ScalarValue
  pub desired : ScalarValue

-- One turn of the loop, after the value has been read.
unfoldable pub write_approved : Approved → Json → Json → Reading
unfolding same_scalar json_of
write_approved change projected held =
    if same_scalar held change.current
    then set_object_value projected change.segments (json_of change.desired)
    else is_stale

unfoldable pub approve_one : Approved → Json → Reading
unfolding write_approved and_then
approve_one change projected =
    if is_empty change.segments
    then is_stale
    else and_then (object_value_at projected change.segments) (write_approved change projected)

unfoldable pub approve_all : List Approved → Json → Reading
unfolding approve_one
approve_all [] projected = reads projected
approve_all (change ∷ changes) projected =
    and_then (approve_one change projected) (approve_all changes)

unfoldable pub is_object : Json → Bool
is_object (object _) = true
is_object _ = false

unfoldable pub projected_parent_value : Json → List Approved → Reading
unfolding is_object approve_all
projected_parent_value source approved =
    if is_object source then approve_all approved source else is_no_object
