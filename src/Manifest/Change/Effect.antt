-- ===== src/Manifest/Change/Effect.antt =====
-- The values after approved changes (domains/gitops/recovery_merge.py).
use k8s_ops.Prelude.{Bool, true, List, [], ◌∷◌, ◌&&◌, &&_iff, In, here, there, ◌≡◌, refl, ◌∙◌}
use k8s_ops.Manifest.Value.{Json}
use k8s_ops.Manifest.Path.{Segment, reads, object_value_at}
use k8s_ops.Manifest.Path.Laws.{and_then-reads}
use k8s_ops.Manifest.Path.Below.{keeps_names}
use k8s_ops.Manifest.Path.RoundTrip.{set-read}
use k8s_ops.Manifest.Path.Frame.{parts_at_a_key, set-elsewhere}
use k8s_ops.Manifest.Change.{Approved, json_of, approve_one, approve_all, projected_parent_value}
use k8s_ops.Manifest.Change.Undo.{made, all_keep_names, projected-approve_all}

-- Every change parts from the path.
unfoldable pub all_part_from : List Segment → List Approved → Bool
all_part_from path [] = true
all_part_from path (change ∷ changes) =
    parts_at_a_key change.segments path && all_part_from path changes

-- Later changes part from earlier ones.
unfoldable pub all_part : List Approved → Bool
unfolding all_part_from
all_part [] = true
all_part (change ∷ changes) = all_part_from change.segments changes && all_part changes

approve_all-elsewhere :
    (changes : List Approved) (path : List Segment) (root result : Json)
    → all_keep_names changes ≡ true
    → all_part_from path changes ≡ true
    → approve_all changes root ≡ reads result
    → object_value_at result path ≡ object_value_at root path
unfolding approve_all all_part_from all_keep_names
approve_all-elsewhere [] path root result h p e = let same : root ≡ result = cc e in rw same refl
approve_all-elsewhere (change ∷ changes) path root result h p e =
    let (one, others) = (&&_iff (keeps_names change.segments) (all_keep_names changes)).0 h in
    let (parts, rest_part) =
      (&&_iff (parts_at_a_key change.segments path) (all_part_from path changes)).0 p in
    let (next, first, rest) =
      and_then-reads (approve_one change root) (approve_all changes) result e in
    let m = made change root next first in
    approve_all-elsewhere changes path next result others rest_part rest
    ∙ set-elsewhere change.segments path root (json_of change.desired) next one parts m.was_set

approve_all-holds :
    (changes : List Approved) (root result : Json) (change : Approved)
    → all_keep_names changes ≡ true
    → all_part changes ≡ true
    → approve_all changes root ≡ reads result
    → In change changes
    → object_value_at result change.segments ≡ reads (json_of change.desired)
unfolding approve_all all_part all_keep_names
approve_all-holds [] root result wanted h p e i = elim i [ ]
approve_all-holds (change ∷ changes) root result _ h p e here =
    let (one, others) = (&&_iff (keeps_names change.segments) (all_keep_names changes)).0 h in
    let (parts, _) = (&&_iff (all_part_from change.segments changes) (all_part changes)).0 p in
    let (next, first, rest) =
      and_then-reads (approve_one change root) (approve_all changes) result e in
    let m = made change root next first in
    approve_all-elsewhere changes change.segments next result others parts rest
    ∙ set-read change.segments root (json_of change.desired) next one m.was_set
approve_all-holds (change ∷ changes) root result wanted h p e (there i) =
    let (_, others) = (&&_iff (keeps_names change.segments) (all_keep_names changes)).0 h in
    let (_, part) = (&&_iff (all_part_from change.segments changes) (all_part changes)).0 p in
    let (next, _, rest) = and_then-reads (approve_one change root) (approve_all changes) result e in
    approve_all-holds changes next result wanted others part rest i

-- Where no approved path goes through the name of an item it selects by name, and the approved
-- paths part from one another at some key, an accepted projection holds each desired value at its
-- path, and every value at a path that parts from all of them is as it was.
pub approved_changes_hold :
    (changes : List Approved) (root result : Json) (change : Approved) (path : List Segment)
    → all_keep_names changes ≡ true
    → all_part changes ≡ true
    → projected_parent_value root changes ≡ reads result
    → In change changes
    → all_part_from path changes ≡ true
    → (object_value_at result change.segments ≡ reads (json_of change.desired))
      × (object_value_at result path ≡ object_value_at root path)
approved_changes_hold changes root result change path h p e i away =
    let (_, all) = projected-approve_all root result changes e in
    (
      approve_all-holds changes root result change h p all i,
      approve_all-elsewhere changes path root result h away all,
    )
