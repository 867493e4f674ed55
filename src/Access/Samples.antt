-- ===== src/Access/Samples.antt =====
-- A session and a database with one granted cluster.
use k8s_ops.Prelude.{none, some, [], ◌∷◌, In, ◌↔◌, ◌≡◌, refl}
use k8s_ops.Access.Strip.{strip}
use k8s_ops.Access.Allowed.{
  Current, Database, resolve_allowed_cluster_ids, resolve_allowed_application_ids,
}
use k8s_ops.Access.Grants.{Shown, allowed_iff_Shown}

abbrev ann : Current
ann = record { user_id = some "ann"; workspace_id = some "w"; roles = "user" ∷ [] }

abbrev grants : Database
grants = record {
  accessible_resource_ids =
      some (λ user workspace resource permission. some (some " c1 " ∷ none ∷ some " " ∷ []));
  list_workspace_cluster_ids = some (λ workspace. some "c2" ∷ []);
  list_workspace_application_ids = none;
}

-- Blanks are cut off; what is no text and what is blank is left out.
granted_test : resolve_allowed_cluster_ids grants ann "w" "cluster.read" ≡ "c1" ∷ []
unfolding resolve_allowed_cluster_ids strip
granted_test = refl

allowed_iff_Shown_example :
    (In "c1" (resolve_allowed_cluster_ids grants ann "w" "cluster.read")
      ↔ Shown grants ann grants.list_workspace_cluster_ids "cluster" "w" "cluster.read" "c1")
    × (In "c1" (resolve_allowed_application_ids grants ann "w" "cluster.read")
        ↔ Shown grants ann grants.list_workspace_application_ids "application" "w" "cluster.read"
            "c1")
allowed_iff_Shown_example = allowed_iff_Shown grants ann "w" "cluster.read" "c1"
