-- ===== src/Access/Allowed.antt =====
-- `resolve_allowed_cluster_ids` and `resolve_allowed_application_ids` of
-- domains/identity/dependencies.py. A set is a list read by membership alone; a database that lacks a
-- method has none in its place, a session without a user or an identifier that is no text is none.
use k8s_ops.Prelude.{
  String, Bool, false, Option, none, some, List, [], ◌∷◌, if◌then◌else◌, ◌==◌, string_eq, contains,
}
use k8s_ops.Access.Strip.{strip}

pub record Current : Type 0 where
  pub user_id : Option String
  pub workspace_id : Option String
  pub roles : List String

pub record Database : Type 0 where
  pub accessible_resource_ids :
      Option (String → String → String → String → Option (List (Option String)))
  pub list_workspace_cluster_ids : Option (String → List (Option String))
  pub list_workspace_application_ids : Option (String → List (Option String))

-- `{i.strip() for i in ids if isinstance(i, str) and i.strip()}`
unfoldable pub materialise : List (Option String) → List String
materialise [] = []
materialise (none ∷ ids) = materialise ids
materialise (some raw ∷ ids) =
    let rest = materialise ids in if strip raw == "" then rest else strip raw ∷ rest

unfoldable pub same_workspace : Option String → String → Bool
same_workspace none workspace = false
same_workspace (some session) workspace = workspace == session

unfoldable pub named_user : Option String → Option String
named_user none = none
named_user (some user) = if user == "" then none else some user

-- The user of a session that is of the workspace it asks about.
unfoldable pub identified : Current → String → Option String
unfolding same_workspace named_user
identified current workspace =
    if workspace == ""
    then none
    else if same_workspace current.workspace_id workspace
    then named_user current.user_id
    else none

unfoldable pub listed : Option (String → List (Option String)) → String → List String
unfolding materialise
listed none workspace = []
listed (some listing) workspace = materialise (listing workspace)

-- What the database's answer, or its wildcard, comes to.
unfoldable pub answered :
    List String
    → Option (String → List (Option String))
    → String
    → Option (List (Option String))
    → List String
unfolding materialise listed
answered roles listing workspace (some ids) = materialise ids
answered roles listing workspace none =
    if contains roles "service_admin" then listed listing workspace else []

unfoldable pub asked :
    Option (String → String → String → String → Option (List (Option String)))
    → List String
    → Option (String → List (Option String))
    → String
    → String
    → String
    → Option String
    → List String
unfolding answered
asked accessible roles listing resource workspace permission none = []
asked none roles listing resource workspace permission (some user) = []
asked (some accessible) roles listing resource workspace permission (some user) =
    answered roles listing workspace (accessible user workspace resource permission)

unfoldable pub resolve_allowed_cluster_ids : Database → Current → String → String → List String
unfolding asked identified
resolve_allowed_cluster_ids db current workspace permission =
    asked db.accessible_resource_ids current.roles db.list_workspace_cluster_ids "cluster" workspace
      permission (identified current workspace)

unfoldable pub resolve_allowed_application_ids : Database → Current → String → String → List String
unfolding asked identified
resolve_allowed_application_ids db current workspace permission =
    asked db.accessible_resource_ids current.roles db.list_workspace_application_ids "application"
      workspace permission (identified current workspace)
