-- ===== src/Access/Guards.antt =====
-- The guards before a database is asked (domains/identity/dependencies.py).
use k8s_ops.Prelude.{
  String, true, false, Option, none, some, ◌==◌, string_eq, ◌≡◌, refl, sym, ap, Bool-cases, inl,
  inr, beq_true, beq_self,
}
use k8s_ops.Access.Allowed.{Current, same_workspace, named_user, identified}

same_workspace-some :
    (session : Option String) (workspace : String)
    → same_workspace session workspace ≡ true
    → session ≡ some workspace
unfolding same_workspace
same_workspace-some none workspace h = absurd (cc h)
same_workspace-some (some session) workspace h = ap some (sym (beq_true workspace session h))

named_user-some :
    (named : Option String) (user : String)
    → named_user named ≡ some user
    → (named ≡ some user) × ((user == "") ≡ false)
unfolding named_user
named_user-some none user e = absurd (cc e)
named_user-some (some other) user e = elim (Bool-cases (other == "")) [
  | inl blank ↦ absurd (cc (rw blank at e))
  | inr given ↦
      let found : some other ≡ some user = rw given at e in
      let same : other ≡ user = cc found in (found, rw (sym same) given)
]

-- A session that passes the guards.
pub record Passes (current : Current) (workspace user : String) : Type 0 where
  pub passing_user : current.user_id ≡ some user
  pub passing_given : (user == "") ≡ false
  pub passing_member : current.workspace_id ≡ some workspace
  pub passing_workspace : (workspace == "") ≡ false

pub identified-Passes :
    (current : Current) (workspace user : String)
    → identified current workspace ≡ some user
    → Passes current workspace user
unfolding identified
identified-Passes current workspace user e = elim (Bool-cases (workspace == "")) [
  | inl blank ↦ absurd (cc (simp blank at e))
  | inr given ↦ elim (Bool-cases (same_workspace current.workspace_id workspace)) [
    | inl member ↦
        let (named, user_given) =
          named_user-some current.user_id user (simp (given, member) at e) in
        record {
          passing_user = named;
          passing_given = user_given;
          passing_member = same_workspace-some current.workspace_id workspace member;
          passing_workspace = given;
        }
    | inr other ↦ absurd (cc (simp (given, other) at e))
  ]
]

pub Passes-identified :
    (current : Current) (workspace user : String)
    → Passes current workspace user
    → identified current workspace ≡ some user
unfolding identified same_workspace named_user
Passes-identified current workspace user p =
    simp (p.passing_workspace, p.passing_member, p.passing_user, p.passing_given, beq_self) refl
