-- ===== src/NetworkContainer/Tests.antt =====
-- Runs of the network container's controller.
use mongodb_atlas_kubernetes.Base.{
  ◌≡◌, inr, refl, ℕ, String, true, false, none, some, List, [], ◌∷◌, All,
}
use mongodb_atlas_kubernetes.Base.Int.{pos}
use mongodb_atlas_kubernetes.Base.Errors.{sentinel, container_not_found, ok, err}
use mongodb_atlas_kubernetes.Base.Return.{failed}
use mongodb_atlas_kubernetes.Workflow.Context.{new_context}
use mongodb_atlas_kubernetes.Resource.Finalizer.{finalizer_label, unset_finalizer}
use mongodb_atlas_kubernetes.Resource.Policy.{
  is_resource_policy_keep_or_default, resource_policy_annotation,
}
use mongodb_atlas_kubernetes.Resource.Scene.{patch_finalizers, atlas, KubeClient}
use mongodb_atlas_kubernetes.Resource.Frame.{OnAtlas}
use mongodb_atlas_kubernetes.NetworkContainer.Conversion.{ContainerConfig, NetworkContainer}
use mongodb_atlas_kubernetes.NetworkContainer.Service.{NetworkContainerService, finds, removes}
use mongodb_atlas_kubernetes.NetworkContainer.Controller.{
  ContainerSim, ContainerRequest, handle_network_container,
}
use mongodb_atlas_kubernetes.NetworkContainer.Keeping.{IsNoRemoval, kept_in_atlas}
use mongodb_atlas_kubernetes.Base.Errors.{
  GoError, errors_is, object_not_found, missing_kube_project,
}
use mongodb_atlas_kubernetes.Resource.Policy.{
  Semver, reconciliation_should_be_skipped, resource_version_is_valid,
}
use mongodb_atlas_kubernetes.Reconciler.Project.{Cluster, kube_project}
use mongodb_atlas_kubernetes.NetworkContainer.Reconcile.{
  ContainerProvider, ContainerSetting, handle_container_resource,
}
use mongodb_atlas_kubernetes.NetworkContainer.Release.{released_without_project}

abbrev kube : KubeClient ℕ
kube = record { patch = (λ fs r w. (ok (record r { finalizers = fs }), w)); now = (λ w. (w, w)) }

abbrev config : ContainerConfig
config = record {
  provider = "AWS";
  config_id = "";
  region = "US_EAST_1";
  cidr_block = "10.8.0.0/21";
}

abbrev container : NetworkContainer
container = record {
  config = config;
  id = "c1";
  provisioned = true;
  aws_status = none;
  azure_status = none;
  gcp_status = none;
}

-- Atlas has the container, found by its configuration; no ID is known there.
abbrev service : NetworkContainerService ℕ
service = record {
  create_container = (λ cfg w. (ok container, w));
  get_container = (λ id w. (err (sentinel container_not_found), w));
  find_container = (λ cfg w. (ok container, w));
  update_container = (λ id cfg w. (ok container, w));
  delete_container = (λ id w. (none, w));
}

abbrev request : String → ContainerRequest
request id = record {
  project_id = "p";
  spec = config;
  status_id = id;
  has_external_project = false;
  independent_sync_period = pos 0;
  object_deletion_protection = false;
}

abbrev start : List (String × String) → ContainerSim ℕ
start annotations = record {
  world = 0;
  meta = record {
    name = "net";
    namespace = "default";
    annotations = annotations;
    labels = [];
    finalizers = some (finalizer_label ∷ []);
    deletion_timestamp = some 4;
  };
  ctx = new_context [];
  queue = record { active = false; errs = [] };
  calls = [];
}

abbrev keep : List (String × String)
keep = (resource_policy_annotation, "keep") ∷ []

kept_in_atlas_example :
    All
      (OnAtlas IsNoRemoval)
      (handle_network_container kube service (request "") (start keep)).1.calls
unfolding is_resource_policy_keep_or_default
kept_in_atlas_example = kept_in_atlas kube service (request "") (start keep) (inr policy) tt
  where
    policy : is_resource_policy_keep_or_default (start keep).meta false ≡ true
    policy = refl

-- Without the annotation and the protection the container is deleted.
container_deletion_test :
    (handle_network_container kube service (request "") (start [])).1.calls
    ≡ patch_finalizers (some []) ∷ atlas (removes "c1") ∷ atlas (finds config) ∷ []
unfolding handle_network_container unset_finalizer
container_deletion_test = refl

-- A cluster without AtlasProjects, and the settings around the reconciliation.
abbrev cluster : Cluster ℕ
cluster = record {
  get_project = (λ key w. (err (sentinel object_not_found), w));
  get_secret = (λ key w. (ok [], w));
}

abbrev provider : ContainerProvider ℕ
provider = record {
  is_container_supported = true;
  container_client_set = (λ cfg w. (none, w));
  container_projects = (λ cfg. record {
    project_by_name = (λ name w. (err (sentinel container_not_found), w));
    project_by_id = (λ id w. (err (sentinel container_not_found), w));
  });
  containers = (λ cfg id. service);
}

abbrev no_versions : Semver ℕ
no_versions = record {
  new_version = (λ text. err (sentinel container_not_found));
  compare_version = (λ a b. pos 0);
}

abbrev setting : ContainerSetting ℕ
setting = record {
  semver = no_versions;
  operator_version = "2";
  global_secret = ("operator", "key");
  conditions = [];
  connection_secret = none;
  reference = kube_project "" "gone";
  request = request "";
}

released_without_project_example :
    let o = handle_container_resource kube cluster provider setting (start []) in
    (f : GoError) × (o.0 ≡ failed f)
    × (errors_is f missing_kube_project ≡ true)
    × (o.1.meta.finalizers ≡ some [])
unfolding reconciliation_should_be_skipped resource_version_is_valid
released_without_project_example =
    released_without_project kube cluster provider setting (start []) "" "gone"
      (sentinel object_not_found) refl refl refl refl refl (λ w. refl) refl refl (λ fs r w. refl)
