-- ===== src/Reconciler/Credentials.antt =====
-- credentials.go: the credentials of a resource, from its secret, the one of its project, or the
-- operator's.
use mongodb_atlas_kubernetes.Base.{
  String, Option, none, some, List, [], ◌∷◌, ◌++◌, if◌then◌else◌, is_empty, is_empty_text, lookup,
  concat,
}
use mongodb_atlas_kubernetes.Base.Errors.{plain, wrap, Answer, ok, err}
use mongodb_atlas_kubernetes.Resource.Policy.{ObjectKey}
use mongodb_atlas_kubernetes.Reconciler.Project.{
  KubeProject, ProjectReference, Cluster, fetch_project,
}

-- atlas.ConnectionConfig with its API keys
pub record ConnectionConfig : Type 0 where
  pub org_id : String
  pub public_key : String
  pub private_key : String

abbrev pub secret_field : String → List (String × String) → String
secret_field key fields = elim (lookup key fields) [ none ↦ "" | some v ↦ v ]

abbrev pub if_empty : String → String → List String
if_empty field value = if is_empty_text value then field ∷ [] else []

-- The missing fields of `validate`; the configuration and its keys are never nil.
unfoldable pub missing_fields : ConnectionConfig → List String
missing_fields cfg =
    if_empty "orgId" cfg.org_id
    ++ if_empty "publicApiKey" cfg.public_key
    ++ if_empty "privateApiKey" cfg.private_key

abbrev pub key_text : ObjectKey → String
key_text (namespace, name) = concat namespace (concat "/" name)

abbrev pub words : List String → String
words [] = ""
words (x ∷ []) = x
words (x ∷ y ∷ rest) = concat x (concat " " (words (y ∷ rest)))

unfoldable pub config_of : List (String × String) → ConnectionConfig
config_of fields = record {
  org_id = secret_field "orgId" fields;
  public_key = secret_field "publicApiKey" fields;
  private_key = secret_field "privateApiKey" fields;
}

abbrev pub checked : ObjectKey → ConnectionConfig → Answer ConnectionConfig
checked key cfg =
    let missing = missing_fields cfg in
    if is_empty missing
    then ok cfg
    else err (
        plain (
          concat "the following fields are missing in the secret "
            (concat (key_text key) (concat ": [" (concat (words missing) "]")))))

abbrev pub read_config :
    {W : Type 0} → ObjectKey → Answer (List (String × String)) × W → Answer ConnectionConfig × W
read_config key (ok fields, w) = (checked key (config_of fields), w)
read_config key (err e, w) = (
  err (wrap (concat "failed to read Atlas API credentials from the secret " (key_text key)) e),
  w,
)

abbrev pub or_fallback : Option ObjectKey → ObjectKey → ObjectKey
or_fallback none fallback = fallback
or_fallback (some key) fallback = key

module _ {W : Type 0} (cluster : Cluster W) where
  unfoldable pub get_connection_config :
      Option ObjectKey → ObjectKey → W → Answer ConnectionConfig × W
  unfolding config_of missing_fields
  get_connection_config secret fallback w =
      read_config (or_fallback secret fallback) (cluster.get_secret (or_fallback secret fallback) w)

  abbrev pub from_source : String → Answer ConnectionConfig × W → Answer ConnectionConfig × W
  from_source msg (ok cfg, w) = (ok cfg, w)
  from_source msg (err e, w) = (err (wrap msg e), w)

  abbrev pub secret_of : Option KubeProject → Option ObjectKey
  secret_of none = none
  secret_of (some p) = p.connection_secret

  abbrev pub by_project : ObjectKey → Answer (Option KubeProject) × W → Answer ConnectionConfig × W
  by_project global (err e, w) = (err (wrap "error resolving project reference" e), w)
  by_project global (ok p, w) =
      from_source "error getting credentials from project reference"
        (get_connection_config (secret_of p) global w)

  -- `own` is the namespace of the resource, `secret` the name of its connection secret.
  unfoldable pub resolve_connection_config :
      ObjectKey → String → Option String → ProjectReference → W → Answer ConnectionConfig × W
  unfolding get_connection_config fetch_project
  resolve_connection_config global own none ref w =
      by_project global (fetch_project cluster own ref w)
  resolve_connection_config global own (some secret) ref w =
      if is_empty_text secret
      then by_project global (fetch_project cluster own ref w)
      else from_source "error getting credentials from connection secret"
          (get_connection_config (some (own, secret)) global w)
