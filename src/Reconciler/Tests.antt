-- ===== src/Reconciler/Tests.antt =====
-- Runs of the resolution of projects and credentials.
use mongodb_atlas_kubernetes.Base.{◌≡◌, refl, ℕ, true, none, [], ◌∷◌}
use mongodb_atlas_kubernetes.Base.Errors.{
  GoError, sentinel, plain, errors_is, object_not_found, missing_kube_project, ok, err,
}
use mongodb_atlas_kubernetes.Reconciler.Project.{
  kube_project, Cluster, ProjectService, resolve_project,
}
use mongodb_atlas_kubernetes.Reconciler.Credentials.{ConnectionConfig, resolve_connection_config}
use mongodb_atlas_kubernetes.Reconciler.References.{missing_project_errors}

-- A cluster without projects, whose secrets have every field.
abbrev bare_cluster : Cluster ℕ
bare_cluster = record {
  get_project = (λ key w. (err (sentinel object_not_found), w));
  get_secret =
      (λ key w. (ok (("orgId", "o") ∷ ("publicApiKey", "u") ∷ ("privateApiKey", "v") ∷ []), w));
}

abbrev projects : ProjectService ℕ
projects = record {
  project_by_name = (λ name w. (err (plain name), w));
  project_by_id = (λ id w. (err (plain id), w));
}

missing_project_errors_example :
    (f : GoError) × (g : GoError) × (resolve_project bare_cluster projects "ns"
        (kube_project "" "prj")
        5
      ≡ (err f, 5))
    × (resolve_connection_config bare_cluster ("op", "key") "ns" none (kube_project "" "prj") 5
        ≡ (err g, 5))
    × (errors_is f missing_kube_project ≡ true)
    × (errors_is g missing_kube_project ≡ true)
missing_project_errors_example =
    missing_project_errors bare_cluster projects "ns" "" "prj" 5 5 (sentinel object_not_found)
      ("op", "key") refl refl

abbrev full_config : ConnectionConfig
full_config = record { org_id = "o"; public_key = "u"; private_key = "v" }
