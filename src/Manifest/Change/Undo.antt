-- ===== src/Manifest/Change/Undo.antt =====
-- Approved changes and their exact inverses (domains/gitops/recovery_merge.py,
-- domains/gitops/source_patch.py).
use k8s_ops.Prelude.{
  String, Bool, true, false, Option, none, List, [], ◌∷◌, ◌++◌, if◌then◌else◌, string_eq, nat_eq,
  is_empty, ◌≡◌, refl, sym, ◌∙◌, ap, Bool-cases, inl, inr, beq_true, beq_self, ◌&&◌, &&_iff,
}
use k8s_ops.Manifest.Value.{
  Json, null, boolean, whole, negative, floating, text, array, object, set_field,
}
use k8s_ops.Manifest.Path.{
  Segment, Reading, reads, is_stale, and_then, object_value_at, set_object_value, assign,
  assign_field, put_back, enter_to_write,
}
use k8s_ops.Manifest.Path.Laws.{and_then-reads}
use k8s_ops.Manifest.Path.Below.{keeps_names}
use k8s_ops.Manifest.Path.RoundTrip.{set-read, set-restores}
use k8s_ops.Manifest.Change.{
  ScalarValue, none_value, bool_value, int_value, negative_value, str_value, json_of, same_scalar,
  Approved, write_approved, approve_one, approve_all, is_object, projected_parent_value, bool_same,
}

bool_same_self : (b : Bool) → bool_same b b ≡ true
unfolding bool_same
bool_same_self true = refl
bool_same_self false = refl

bool_same-equal : (a b : Bool) → bool_same a b ≡ true → a ≡ b
unfolding bool_same
bool_same-equal true b h = sym h
bool_same-equal false false h = refl
bool_same-equal false true h = absurd (cc h)

pub same_scalar-json_of : (s : ScalarValue) → same_scalar (json_of s) s ≡ true
unfolding same_scalar json_of
same_scalar-json_of none_value = refl
same_scalar-json_of (bool_value b) = bool_same_self b
same_scalar-json_of (int_value n) = beq_self n
same_scalar-json_of (negative_value n) = beq_self n
same_scalar-json_of (str_value t) = beq_self t

pub same_scalar-equal :
    (held : Json) (s : ScalarValue) → same_scalar held s ≡ true → held ≡ json_of s
unfolding same_scalar json_of
same_scalar-equal null none_value h = refl
same_scalar-equal (boolean a) (bool_value b) h = ap boolean (bool_same-equal a b h)
same_scalar-equal (whole m) (int_value n) h = ap whole (beq_true m n h)
same_scalar-equal (negative m) (negative_value n) h = ap negative (beq_true m n h)
same_scalar-equal (text s) (str_value t) h = ap text (beq_true s t h)
same_scalar-equal _ _ h = absurd (cc h)

-- A change that was made: what it read and what it left.
pub record Made (change : Approved) (root result : Json) : Type 0 where
  pub some_path : is_empty change.segments ≡ false
  pub read_current : object_value_at root change.segments ≡ reads (json_of change.current)
  pub was_set : set_object_value root change.segments (json_of change.desired) ≡ reads result

stale_is_not_reading :
    (test : Bool) (r : Reading) (result : Json)
    → (if test then r else is_stale) ≡ reads result
    → (test ≡ true) × (r ≡ reads result)
stale_is_not_reading true r result e = (refl, e)
stale_is_not_reading false r result e = absurd (cc e)

pub made :
    (change : Approved) (root result : Json)
    → approve_one change root ≡ reads result
    → Made change root result
unfolding approve_one write_approved
made change root result e = elim (Bool-cases (is_empty change.segments)) [
  | inl none_left ↦ absurd (cc (rw none_left at e))
  | inr some_path ↦
      let (held, read, after) =
        and_then-reads (object_value_at root change.segments) (write_approved change root) result
          (rw some_path at e) in
      let (same, was_set) =
        stale_is_not_reading (same_scalar held change.current)
          (set_object_value root change.segments (json_of change.desired)) result after in
      record {
        some_path = some_path;
        read_current = read ∙ ap reads (same_scalar-equal held change.current same);
        was_set = was_set;
      }
]

-- `rollback_replacements`: the exact inverse, last change first.
unfoldable pub inverse : Approved → Approved
inverse change = record {
  segments = change.segments;
  current = change.desired;
  desired = change.current;
}

unfoldable pub undo : List Approved → List Approved
unfolding inverse
undo [] = []
undo (change ∷ changes) = undo changes ++ inverse change ∷ []

unfoldable pub all_keep_names : List Approved → Bool
all_keep_names [] = true
all_keep_names (change ∷ changes) = keeps_names change.segments && all_keep_names changes

approve-inverse :
    (change : Approved) (root result : Json)
    → keeps_names change.segments ≡ true
    → approve_one change root ≡ reads result
    → approve_one (inverse change) result ≡ reads root
unfolding approve_one write_approved inverse and_then
approve-inverse change root result h e =
    let m = made change root result e in
    let read = set-read change.segments root (json_of change.desired) result h m.was_set in
    let back =
      set-restores change.segments root (json_of change.desired) (json_of change.current) result h
        m.read_current m.was_set in
    rw (m.some_path, read, same_scalar-json_of change.desired, back) refl

approve_all-append :
    (first second : List Approved) (root middle : Json)
    → approve_all first root ≡ reads middle
    → approve_all (first ++ second) root ≡ approve_all second middle
unfolding approve_all and_then
approve_all-append [] second root middle e =
    let same : root ≡ middle = cc e in ap (approve_all second) same
approve_all-append (change ∷ first) second root middle e =
    let (next, one, rest) = and_then-reads (approve_one change root) (approve_all first) middle e in
    rw one (approve_all-append first second next middle rest)

approve_all-undo :
    (changes : List Approved) (root result : Json)
    → all_keep_names changes ≡ true
    → approve_all changes root ≡ reads result
    → approve_all (undo changes) result ≡ reads root
unfolding approve_all all_keep_names undo
approve_all-undo [] root result h e = cc (sym e)
approve_all-undo (change ∷ changes) root result h e =
    let (one, others) = (&&_iff (keeps_names change.segments) (all_keep_names changes)).0 h in
    let (next, first, rest) =
      and_then-reads (approve_one change root) (approve_all changes) result e in
    let back = approve_all-undo changes next result others rest in
    approve_all-append (undo changes) (inverse change ∷ []) result next back
    ∙ rw (approve-inverse change root next one first) refl

is_object-put_back :
    (segment : Segment) (changed root : Json)
    → is_object (put_back segment changed root) ≡ is_object root
unfolding put_back is_object
is_object-put_back segment changed (object _) = refl
is_object-put_back segment changed (array _) = refl
is_object-put_back segment changed null = refl
is_object-put_back segment changed (boolean _) = refl
is_object-put_back segment changed (whole _) = refl
is_object-put_back segment changed (negative _) = refl
is_object-put_back segment changed (floating _) = refl
is_object-put_back segment changed (text _) = refl

is_object-assign :
    (selected : Option String) (key : String) (value root result : Json)
    → assign_field selected key value root ≡ reads result
    → is_object result ≡ true
unfolding assign_field is_object
is_object-assign none key value (object members) result e =
    let same : object (set_field key value members) ≡ result = cc e in rw (sym same) refl
is_object-assign _ key value _ result e = absurd (cc e)

set-is_object :
    (segments : List Segment) (root value result : Json)
    → is_object root ≡ true
    → set_object_value root segments value ≡ reads result
    → is_object result ≡ true
unfolding set_object_value assign
set-is_object [] root value result h e = absurd (cc e)
set-is_object (final ∷ []) root value result h e =
    is_object-assign final.selected_name final.key value root result e
set-is_object (segment ∷ next ∷ segments) root value result h e =
    let (child, _, deeper) =
      and_then-reads (enter_to_write segment root)
        (λ child.
          and_then (set_object_value child (next ∷ segments) value)
            (λ changed. reads (put_back segment changed root)))
        result e in
    let (changed, _, back) =
      and_then-reads (set_object_value child (next ∷ segments) value)
        (λ changed. reads (put_back segment changed root)) result deeper in
    let same : put_back segment changed root ≡ result = cc back in
    rw (sym same) (is_object-put_back segment changed root ∙ h)

approve_all-is_object :
    (changes : List Approved) (root result : Json)
    → is_object root ≡ true
    → approve_all changes root ≡ reads result
    → is_object result ≡ true
unfolding approve_all
approve_all-is_object [] root result h e = let same : root ≡ result = cc e in rw (sym same) h
approve_all-is_object (change ∷ changes) root result h e =
    let (next, first, rest) =
      and_then-reads (approve_one change root) (approve_all changes) result e in
    let m = made change root next first in
    approve_all-is_object changes next result
      (set-is_object change.segments root (json_of change.desired) next h m.was_set) rest

pub projected-approve_all :
    (root result : Json) (changes : List Approved)
    → projected_parent_value root changes ≡ reads result
    → (is_object root ≡ true) × (approve_all changes root ≡ reads result)
unfolding projected_parent_value
projected-approve_all root result changes e = elim (Bool-cases (is_object root)) [
  | inl yes_object ↦ (yes_object, rw yes_object at e)
  | inr no_object ↦ absurd (cc (rw no_object at e))
]

-- Where no approved path goes through the name of an item that it selects by name, the exact
-- inverse of the approved changes, the last one first, is accepted on what they made and gives the
-- source back.
pub rollback_restores :
    (changes : List Approved) (root result : Json)
    → all_keep_names changes ≡ true
    → projected_parent_value root changes ≡ reads result
    → projected_parent_value result (undo changes) ≡ reads root
unfolding projected_parent_value
rollback_restores changes root result h e =
    let (an_object, all) = projected-approve_all root result changes e in
    rw (approve_all-is_object changes root result an_object all)
      (approve_all-undo changes root result h all)
