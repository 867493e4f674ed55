-- ===== src/Access/Grants.antt =====
-- Who an identifier of domains/identity/dependencies.py is shown to.
use k8s_ops.Prelude.{
  String, true, false, Option, none, some, List, ◌==◌, string_eq, contains, In, ◌≡◌, refl,
  Bool-cases, inl, inr, ◌↔◌,
}
use k8s_ops.Access.Allowed.{
  Current, Database, identified, listed, answered, asked, resolve_allowed_cluster_ids,
  resolve_allowed_application_ids,
}
use k8s_ops.Access.Materialised.{StandsIn, materialise-StandsIn, materialised}
use k8s_ops.Access.Guards.{Passes, identified-Passes, Passes-identified}

-- The two ways to an identifier: a grant to the user, or a wildcard that the database gave to a
-- service administrator and that the listing of the workspace spells out.
pub data ShownBy (accessible : String → String → String → String → Option (List (Option String)))
    (roles : List String) (listing : Option (String → List (Option String)))
    (resource workspace permission user id : String) : Type 0 where
  by_grant :
      (ids : List (Option String))
      → accessible user workspace resource permission ≡ some ids
      → StandsIn ids id
      → ShownBy accessible roles listing resource workspace permission user id
  by_administration :
      (list : String → List (Option String))
      → accessible user workspace resource permission ≡ none
      → contains roles "service_admin" ≡ true
      → listing ≡ some list
      → StandsIn (list workspace) id
      → ShownBy accessible roles listing resource workspace permission user id

pub record Shown (db : Database) (current : Current)
    (listing : Option (String → List (Option String))) (resource workspace permission id : String)
    : Type 0 where
  pub user : String
  pub accessible : String → String → String → String → Option (List (Option String))
  pub is_user : current.user_id ≡ some user
  pub user_given : (user == "") ≡ false
  pub is_member : current.workspace_id ≡ some workspace
  pub workspace_given : (workspace == "") ≡ false
  pub asks : db.accessible_resource_ids ≡ some accessible
  pub shown_by : ShownBy accessible current.roles listing resource workspace permission user id

listed-StandsIn :
    (listing : Option (String → List (Option String))) (workspace id : String)
    → In id (listed listing workspace)
    → (list : String → List (Option String)) × (listing ≡ some list) × StandsIn (list workspace) id
unfolding listed
listed-StandsIn none workspace id i = elim i [ ]
listed-StandsIn (some list) workspace id i =
    (list, refl, materialise-StandsIn (list workspace) id i)

answered-ShownBy :
    (accessible : String → String → String → String → Option (List (Option String)))
    (roles : List String) (listing : Option (String → List (Option String)))
    (resource workspace permission user id : String) (answer : Option (List (Option String)))
    → accessible user workspace resource permission ≡ answer
    → In id (answered roles listing workspace answer)
    → ShownBy accessible roles listing resource workspace permission user id
unfolding answered
answered-ShownBy accessible roles listing resource workspace permission user id (some ids) e i =
    by_grant ids e (materialise-StandsIn ids id i)
answered-ShownBy accessible roles listing resource workspace permission user id none e i =
    elim (Bool-cases (contains roles "service_admin")) [
      | inl admin ↦
          let (list, same, s) = listed-StandsIn listing workspace id (rw admin at i) in
          by_administration list e admin same s
      | inr other ↦ elim (rw other at i) [ ]
    ]

listed-all :
    (listing : Option (String → List (Option String))) (list : String → List (Option String))
    (workspace id : String)
    → listing ≡ some list
    → StandsIn (list workspace) id
    → In id (listed listing workspace)
unfolding listed
listed-all listing list workspace id e s = rw e (materialised (list workspace) id s)

ShownBy-answered :
    (accessible : String → String → String → String → Option (List (Option String)))
    (roles : List String) (listing : Option (String → List (Option String)))
    (resource workspace permission user id : String)
    → ShownBy accessible roles listing resource workspace permission user id
    → In id (answered roles listing workspace (accessible user workspace resource permission))
unfolding answered
ShownBy-answered accessible roles listing resource workspace permission user id (by_grant ids e s) =
    rw e (materialised ids id s)
ShownBy-answered accessible roles listing resource workspace permission user id
      (by_administration list e admin same s) =
    rw (e, admin) (listed-all listing list workspace id same s)

asked-Shown :
    (db : Database) (current : Current) (listing : Option (String → List (Option String)))
    (resource workspace permission id : String)
    (accessible : Option (String → String → String → String → Option (List (Option String))))
    (user : Option String)
    → db.accessible_resource_ids ≡ accessible
    → identified current workspace ≡ user
    → In id (asked accessible current.roles listing resource workspace permission user)
    → Shown db current listing resource workspace permission id
unfolding asked
asked-Shown db current listing resource workspace permission id accessible none a u i = elim i [ ]
asked-Shown db current listing resource workspace permission id none (some user) a u i = elim i [ ]
asked-Shown db current listing resource workspace permission id (some accessible) (some user) a u
      i =
    let p = identified-Passes current workspace user u in
    record {
      user = user;
      accessible = accessible;
      is_user = p.passing_user;
      user_given = p.passing_given;
      is_member = p.passing_member;
      workspace_given = p.passing_workspace;
      asks = a;
      shown_by =
          answered-ShownBy accessible current.roles listing resource workspace permission user id
            (accessible user workspace resource permission) refl i;
    }

Shown-asked :
    (db : Database) (current : Current) (listing : Option (String → List (Option String)))
    (resource workspace permission id : String)
    → Shown db current listing resource workspace permission id
    → In id (
        asked db.accessible_resource_ids current.roles listing resource workspace permission
          (identified current workspace))
unfolding asked
Shown-asked db current listing resource workspace permission id s =
    let p : Passes current workspace s.user = record {
      passing_user = s.is_user;
      passing_given = s.user_given;
      passing_member = s.is_member;
      passing_workspace = s.workspace_given;
    } in
    simp (s.asks, Passes-identified current workspace s.user p)
      (ShownBy-answered s.accessible current.roles listing resource workspace permission s.user id
        s.shown_by)

-- An identifier is allowed exactly when the session has a user, is of the workspace asked about and
-- the database can be asked, and the identifier, without its blanks and not empty, stands in what
-- the database grants that user, or the database gave its wildcard to a service administrator
-- and it stands in the listing of the workspace: clusters and applications alike.
pub allowed_iff_Shown :
    (db : Database) (current : Current) (workspace permission id : String)
    → (In id (resolve_allowed_cluster_ids db current workspace permission)
        ↔ Shown db current db.list_workspace_cluster_ids "cluster" workspace permission id)
      × (In id (resolve_allowed_application_ids db current workspace permission)
          ↔ Shown db current db.list_workspace_application_ids "application" workspace permission
              id)
unfolding resolve_allowed_cluster_ids resolve_allowed_application_ids
allowed_iff_Shown db current workspace permission id =
    let user = identified current workspace in
    let accessible = db.accessible_resource_ids in
    (
      (
        asked-Shown db current db.list_workspace_cluster_ids "cluster" workspace permission id
            accessible user refl refl,
        Shown-asked db current db.list_workspace_cluster_ids "cluster" workspace permission id,
      ),
      (
        asked-Shown db current db.list_workspace_application_ids "application" workspace permission
            id accessible user refl refl,
        Shown-asked db current db.list_workspace_application_ids "application" workspace permission
            id,
      ),
    )
