-- ===== src/Reconciler/Project.antt =====
-- project.go: the project that a resource refers to. The validation rules of the custom resources
-- allow one reference, to an AtlasProject of the cluster or to a project of Atlas by its ID.
use mongodb_atlas_kubernetes.Base.{
  String, not, Option, none, some, List, if◌then◌else◌, is_empty_text,
}
use mongodb_atlas_kubernetes.Base.Errors.{
  sentinel, wrap, joined, errors_is, object_not_found, missing_kube_project, Answer, ok, err,
}
use mongodb_atlas_kubernetes.Resource.Policy.{ObjectKey}

-- ProjectDualReference; the namespace of the first may be empty.
pub data ProjectReference : Type 0 where
  kube_project : String → String → ProjectReference
  external_project : String → ProjectReference

-- AtlasProject, as far as it is read
pub record KubeProject : Type 0 where
  pub atlas_name : String
  pub connection_secret : Option ObjectKey

pub record Project : Type 0 where
  pub project_id : String
  pub project_name : String

-- Client.Get of an AtlasProject, and of the data of a Secret.
pub record Cluster (W : Type 0) : Type 0 where
  pub get_project : ObjectKey → W → Answer KubeProject × W
  pub get_secret : ObjectKey → W → Answer (List (String × String)) × W

-- ProjectService of internal/translation/project
pub record ProjectService (W : Type 0) : Type 0 where
  pub project_by_name : String → W → Answer Project × W
  pub project_by_id : String → W → Answer Project × W

module _ {W : Type 0} (cluster : Cluster W) where
  abbrev pub project_key : String → String → String → ObjectKey
  project_key own namespace name = (if not (is_empty_text namespace) then namespace else own, name)

  abbrev pub read_project : Answer KubeProject × W → Answer KubeProject × W
  read_project (ok p, w) = (ok p, w)
  read_project (err e, w) = (
    err (
        if errors_is e object_not_found
        then joined (sentinel missing_kube_project) e
        else wrap "error getting AtlasProject" e),
    w,
  )

  -- fetchProject of a reference to the cluster; `own` is the namespace of the resource.
  unfoldable pub fetch_kube_project : String → String → String → W → Answer KubeProject × W
  fetch_kube_project own namespace name w =
      read_project (cluster.get_project (project_key own namespace name) w)

  abbrev pub found_project : Answer KubeProject × W → Answer (Option KubeProject) × W
  found_project (ok p, w) = (ok (some p), w)
  found_project (err e, w) = (err e, w)

  unfoldable pub fetch_project : String → ProjectReference → W → Answer (Option KubeProject) × W
  unfolding fetch_kube_project
  fetch_project own (external_project id) w = (ok none, w)
  fetch_project own (kube_project namespace name) w =
      found_project (fetch_kube_project own namespace name w)

  module _ (service : ProjectService W) where
    abbrev pub by_kube_name : Answer KubeProject × W → Answer Project × W
    by_kube_name (ok p, w) = service.project_by_name p.atlas_name w
    by_kube_name (err e, w) = (err e, w)

    abbrev pub wrapping : String → Answer Project × W → Answer Project × W
    wrapping msg (ok p, w) = (ok p, w)
    wrapping msg (err e, w) = (err (wrap msg e), w)

    unfoldable pub resolve_project : String → ProjectReference → W → Answer Project × W
    unfolding fetch_kube_project
    resolve_project own (kube_project namespace name) w =
        wrapping "failed to get project via Kubernetes reference"
          (by_kube_name (fetch_kube_project own namespace name w))
    resolve_project own (external_project id) w =
        wrapping "failed to get project via Atlas by ID" (service.project_by_id id w)
