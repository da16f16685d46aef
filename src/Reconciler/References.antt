-- ===== src/Reconciler/References.antt =====
-- What the errors of a reference say, and when credentials are taken.
use mongodb_atlas_kubernetes.Base.{
  ◌≡◌, refl, String, Bool, true, false, Option, none, List, if◌then◌else◌, is_empty, is_empty_text,
  arith, Bool-cases, inl, inr,
}
use mongodb_atlas_kubernetes.Base.Errors.{
  GoError, sentinel, wrap, joined, errors_is, object_not_found, missing_kube_project, Answer, ok,
  err,
}
use mongodb_atlas_kubernetes.Resource.Policy.{ObjectKey}
use mongodb_atlas_kubernetes.Reconciler.Project.{
  kube_project, Cluster, ProjectService, project_key, fetch_project, fetch_kube_project,
  resolve_project,
}
use mongodb_atlas_kubernetes.Reconciler.Credentials.{
  ConnectionConfig, missing_fields, get_connection_config, resolve_connection_config, config_of,
  or_fallback, read_config, checked,
}

module _ {W : Type 0} (cluster : Cluster W) (service : ProjectService W)
    (own namespace name : String) (w w' : W) where
  -- If the cluster answers the reference to an AtlasProject with an error that does not come from
  -- the operator's own sentinel, both the resolution of the project and the one of the credentials
  -- without an own secret fail, with an error that is ErrMissingKubeProject exactly when the
  -- cluster's error says that the object is not found.
  pub missing_project_errors :
      (e : GoError) (global : ObjectKey)
      → cluster.get_project (project_key cluster own namespace name) w ≡ (err e, w')
      → errors_is e missing_kube_project ≡ false
      → (f : GoError) × (g : GoError) × (resolve_project cluster service own
            (kube_project namespace name)
            w
          ≡ (err f, w'))
        × (resolve_connection_config cluster global own none (kube_project namespace name) w
            ≡ (err g, w'))
        × (errors_is f missing_kube_project ≡ errors_is e object_not_found)
        × (errors_is g missing_kube_project ≡ errors_is e object_not_found)
  unfolding resolve_project fetch_project fetch_kube_project resolve_connection_config
  missing_project_errors e global h n =
      let f =
        if errors_is e object_not_found
        then joined (sentinel missing_kube_project) e
        else wrap "error getting AtlasProject" e in
      (
        wrap "failed to get project via Kubernetes reference" f,
        wrap "error resolving project reference" f,
        rw h refl,
        rw h refl,
        read_error (errors_is e object_not_found),
        read_error (errors_is e object_not_found),
      )
    where
      read_error :
          (b : Bool)
          → errors_is
              (if b
                then joined (sentinel missing_kube_project) e
                else wrap "error getting AtlasProject" e)
              missing_kube_project
            ≡ b
      read_error true = refl
      read_error false = n

-- Every field that a configuration needs has a text.
abbrev pub IsComplete : ConnectionConfig → Type 0
IsComplete cfg =
    (is_empty_text cfg.org_id ≡ false)
    × (is_empty_text cfg.public_key ≡ false)
    × (is_empty_text cfg.private_key ≡ false)

IsComplete-of_none :
    (cfg : ConnectionConfig) → is_empty (missing_fields cfg) ≡ true → IsComplete cfg
unfolding missing_fields
IsComplete-of_none cfg h = (ground arith, ground arith, ground arith)

checked_only :
    (key : ObjectKey) (c cfg : ConnectionConfig) → checked key c ≡ ok cfg → IsComplete cfg
checked_only key c cfg h = elim (Bool-cases (is_empty (missing_fields c))) [
  | inl e ↦ IsComplete-of_none cfg (ground (arith, e))
  | inr e ↦ cc (rw e at h)
]

module _ {W : Type 0} (cluster : Cluster W) (global : ObjectKey) (secret : Option ObjectKey)
    (w : W) where
  -- Credentials that are read from a secret have an organisation and both keys.
  pub config-IsComplete :
      (cfg : ConnectionConfig)
      → (get_connection_config cluster secret global w).0 ≡ ok cfg
      → IsComplete cfg
  unfolding get_connection_config
  config-IsComplete cfg h = answered (cluster.get_secret (or_fallback secret global) w) h
    where
      answered :
          (o : Answer (List (String × String)) × W)
          → (read_config (or_fallback secret global) o).0 ≡ ok cfg
          → IsComplete cfg
      answered (ok fields, w) h = checked_only (or_fallback secret global) (config_of fields) cfg h
      answered (err e, w) h = cc
