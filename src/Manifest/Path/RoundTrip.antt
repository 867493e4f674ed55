-- ===== src/Manifest/Path/RoundTrip.antt =====
-- `object_value_at` after `set_object_value`, and the way back
-- (domains/gitops/source_patch.py).
use k8s_ops.Prelude.{
  String, true, Option, none, some, List, [], ◌∷◌, string_eq, &&_iff, ◌≡◌, refl, sym, ◌∙◌, beq_self,
  ap,
}
use k8s_ops.Manifest.Value.{Json, object, field_in, set_field}
use k8s_ops.Manifest.Path.{
  Segment, reads, and_then, read_field, read_selected, enter, enter_to_write, or_missing,
  object_value_at, set_object_value, assign, assign_field,
}
use k8s_ops.Manifest.Path.Laws.{and_then-reads, field_in-set_field, set_field-restores}
use k8s_ops.Manifest.Path.Below.{below, keeps_names, key_differs}

-- The assignment at the end of a path.
record Assigns (segment : Segment) (root value result : Json) : Type 0 where
  reads_value : enter segment result ≡ reads value
  restores : (old : Json) → enter segment root ≡ reads old → assign segment old result ≡ reads root

read_whole :
    (found : Option Json) (old : Json)
    → and_then (or_missing found) (read_selected none) ≡ reads old
    → found ≡ some old
unfolding and_then or_missing read_selected
read_whole none old e = absurd (cc e)
read_whole (some value) old e = let same : value ≡ old = cc e in ap some same

assigned :
    (selected : Option String) (key : String) (root value result : Json)
    → assign_field selected key value root ≡ reads result
    → Assigns (record { key = key; selected_name = selected }) root value result
unfolding assign_field assign enter and_then read_field read_selected or_missing
assigned none key (object members) value result e =
    let same : object (set_field key value members) ≡ result = cc e in
    rw (sym same) (record {
      reads_value = simp (field_in-set_field, beq_self) refl;
      restores = λ old r.
          ap (λ x. reads (object x))
            (set_field-restores key value old members (read_whole (field_in key members) old r));
    })
assigned _ key _ value result e = absurd (cc e)

-- What `set_object_value` has set, `object_value_at` reads at the same path, where the path does not
-- go through the name of an item it selects by name.
pub set-read :
    (segments : List Segment) (root value result : Json)
    → keeps_names segments ≡ true
    → set_object_value root segments value ≡ reads result
    → object_value_at result segments ≡ reads value
unfolding set_object_value object_value_at and_then keeps_names
set-read [] root value result h e = absurd (cc e)
set-read (final ∷ []) root value result h e =
    let a = assigned final.selected_name final.key root value result e in rw a.reads_value refl
set-read (segment ∷ next ∷ segments) root value result h e =
    let (differs, others) =
      (&&_iff (key_differs segment.selected_name next.key) (keeps_names (next ∷ segments))).0 h in
    let b = below segment next segments root value result differs e in
    let deeper = set-read (next ∷ segments) b.child value b.changed others b.set_below in
    rw b.entered_after deeper

-- A manifest that `set_object_value` has changed is restored by setting the old value back at the
-- same path, where the path does not go through the name of an item it selects by name.
pub set-restores :
    (segments : List Segment) (root value old result : Json)
    → keeps_names segments ≡ true
    → object_value_at root segments ≡ reads old
    → set_object_value root segments value ≡ reads result
    → set_object_value result segments old ≡ reads root
unfolding set_object_value object_value_at and_then keeps_names
set-restores [] root value old result h r e = absurd (cc e)
set-restores (final ∷ []) root value old result h r e =
    let a = assigned final.selected_name final.key root value result e in
    let (child, entered, same) = and_then-reads (enter final root) (λ child. reads child) old r in
    let same' : child ≡ old = cc same in a.restores old (entered ∙ ap reads same')
set-restores (segment ∷ next ∷ segments) root value old result h r e =
    let (differs, others) =
      (&&_iff (key_differs segment.selected_name next.key) (keeps_names (next ∷ segments))).0 h in
    let b = below segment next segments root value result differs e in
    let r' = rw b.turns.entered_before at r in
    let deeper = set-restores (next ∷ segments) b.child value old b.changed others r' b.set_below in
    let entered : enter_to_write segment result ≡ reads b.changed =
      rw (sym b.result_is) b.turns.written_after in
    rw (entered, deeper) (ap reads (rw (sym b.result_is) b.turns.undone))
