-- ===== src/NetworkContainer/Reconcile.antt =====
-- handleCustomResource of internal/controller/atlasnetworkcontainer/state.go. The update of the
-- status, which is deferred, is not modelled.
use mongodb_atlas_kubernetes.Base.{String, Bool, true, false, Option, none, some, List}
use mongodb_atlas_kubernetes.Base.Errors.{GoError, Answer, ok, err}
use mongodb_atlas_kubernetes.Base.Return.{Return}
use mongodb_atlas_kubernetes.Base.Effect.{Effect, gets, ◌>>=◌, ◌>>◌}
use mongodb_atlas_kubernetes.Workflow.Conditions.{
  ready_type, false_condition, init_condition, Condition,
}
use mongodb_atlas_kubernetes.Workflow.Context.{new_context}
use mongodb_atlas_kubernetes.Workflow.Results.{DeprecatedResult, is_ok}
use mongodb_atlas_kubernetes.Resource.Meta.{Meta}
use mongodb_atlas_kubernetes.Resource.Policy.{Semver, ObjectKey, reconciliation_should_be_skipped}
use mongodb_atlas_kubernetes.Resource.Prepare.{validate_resource_version}
use mongodb_atlas_kubernetes.Resource.Scene.{KubeClient, report}
use mongodb_atlas_kubernetes.Reconciler.Outcomes.{invalidate, skip_resource, unsupport}
use mongodb_atlas_kubernetes.Reconciler.Project.{
  Project, ProjectReference, Cluster, ProjectService, resolve_project,
}
use mongodb_atlas_kubernetes.Reconciler.Credentials.{ConnectionConfig, resolve_connection_config}
use mongodb_atlas_kubernetes.NetworkContainer.Service.{NetworkContainerService}
use mongodb_atlas_kubernetes.NetworkContainer.Controller.{
  ContainerSim, ContainerRequest, terminate_container, release, handle_network_container,
}

-- atlas.Provider and the SDK's services of the client set that it makes
pub record ContainerProvider (W : Type 0) : Type 0 where
  pub is_container_supported : Bool
  pub container_client_set : ConnectionConfig → W → Option GoError × W
  pub container_projects : ConnectionConfig → ProjectService W
  pub containers : ConnectionConfig → String → NetworkContainerService W

pub record ContainerSetting (V : Type 0) : Type 0 where
  pub semver : Semver V
  pub operator_version : String
  pub global_secret : ObjectKey
  pub conditions : List Condition
  pub connection_secret : Option String
  pub reference : ProjectReference
  pub request : ContainerRequest

module _ {W : Type 0} where
  -- A read of the cluster or of Atlas, which is not logged.
  abbrev pub asking : {B : Type 0} → (W → B × W) → Effect (ContainerSim W) B
  asking f s = let (b, w) = f s.world in (b, record s { world = w })

module _ {W V : Type 0} (kube : KubeClient W) (cluster : Cluster W) (provider : ContainerProvider W)
    (setting : ContainerSetting V) where
  abbrev pub container_in_project :
      ConnectionConfig → Answer Project → Effect (ContainerSim W) Return
  container_in_project cfg (err e) = release kube e
  container_in_project cfg (ok p) =
      handle_network_container kube (provider.containers cfg p.project_id)
        (record (setting.request) { project_id = p.project_id })

  abbrev pub container_with_client :
      ConnectionConfig → Meta → Option GoError → Effect (ContainerSim W) Return
  container_with_client cfg r (some e) = terminate_container kube "NetworkContainerNotConfigured" e
  container_with_client cfg r none = do
    project ←
        asking
          (resolve_project cluster (provider.container_projects cfg) r.namespace setting.reference)
    container_in_project cfg project

  abbrev pub container_with_config : Meta → Answer ConnectionConfig → Effect (ContainerSim W) Return
  container_with_config r (err e) = release kube e
  container_with_config r (ok cfg) = do
    e ← asking (provider.container_client_set cfg)
    container_with_client cfg r e

  abbrev pub container_supported_or_not : Meta → Bool → Effect (ContainerSim W) Return
  container_supported_or_not r false = unsupport kube "AtlasNetworkContainer"
  container_supported_or_not r true = do
    cfg ← asking (
        resolve_connection_config cluster setting.global_secret r.namespace
          setting.connection_secret setting.reference)
    container_with_config r cfg

  abbrev pub container_valid_or_not :
      Meta → DeprecatedResult → Bool → Effect (ContainerSim W) Return
  container_valid_or_not r validity false = invalidate validity
  container_valid_or_not r validity true =
      container_supported_or_not r provider.is_container_supported

  -- The context starts from the conditions of the resource, with "Ready" false if it is missing.
  abbrev pub start_container_context : Effect (ContainerSim W) (Unit {0})
  start_container_context = report kube (λ now c.
      new_context (init_condition (false_condition ready_type now) setting.conditions now))

  abbrev pub container_skipped_or_not : Meta → Bool → Effect (ContainerSim W) Return
  container_skipped_or_not r true = skip_resource kube
  container_skipped_or_not r false = do
    start_container_context
    validity ← validate_resource_version kube setting.semver setting.operator_version
    container_valid_or_not r validity (is_ok validity)

  unfoldable pub handle_container_resource : Effect (ContainerSim W) Return
  unfolding reconciliation_should_be_skipped
  handle_container_resource = do
    r ← gets (λ s. s.meta)
    container_skipped_or_not r (reconciliation_should_be_skipped r)
