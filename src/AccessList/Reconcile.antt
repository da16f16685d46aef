-- ===== src/AccessList/Reconcile.antt =====
-- handleCustomResource of internal/controller/atlasipaccesslist/state.go, with skip, invalidate and
-- unsupport of transitions.go. The update of the status, which is deferred, is not modelled.
use mongodb_atlas_kubernetes.Base.{String, Bool, true, false, Option, none, some, List}
use mongodb_atlas_kubernetes.Base.Errors.{GoError, Answer, ok, err}
use mongodb_atlas_kubernetes.Base.Return.{Return}
use mongodb_atlas_kubernetes.Base.Effect.{Effect, gets, ◌>>=◌, ◌>>◌}
use mongodb_atlas_kubernetes.Workflow.Conditions.{
  Condition, ready_type, false_condition, init_condition,
}
use mongodb_atlas_kubernetes.Workflow.Context.{new_context}
use mongodb_atlas_kubernetes.Workflow.Results.{DeprecatedResult, is_ok}
use mongodb_atlas_kubernetes.Resource.Meta.{Meta}
use mongodb_atlas_kubernetes.Resource.Policy.{Semver, ObjectKey, reconciliation_should_be_skipped}
use mongodb_atlas_kubernetes.Resource.Prepare.{validate_resource_version}
use mongodb_atlas_kubernetes.Resource.Scene.{KubeClient, report}
use mongodb_atlas_kubernetes.Reconciler.Outcomes.{invalidate, skip_resource, unsupport}
use mongodb_atlas_kubernetes.Reconciler.Project.{
  Project, ProjectReference, Cluster, ProjectService, resolve_project,
}
use mongodb_atlas_kubernetes.Reconciler.Credentials.{ConnectionConfig, resolve_connection_config}
use mongodb_atlas_kubernetes.AccessList.Entries.{Net}
use mongodb_atlas_kubernetes.AccessList.Service.{IpAccessListService}
use mongodb_atlas_kubernetes.AccessList.Controller.{Sim, Request, fail, handle_ip_access_list}

-- atlas.Provider and the SDK's services of the client set that it makes
pub record AtlasProvider (W : Type 0) : Type 0 where
  pub is_resource_supported : Bool
  pub sdk_client_set : ConnectionConfig → W → Option GoError × W
  pub projects : ConnectionConfig → ProjectService W
  pub access_lists : ConnectionConfig → String → IpAccessListService W

-- What is the same for every reconciliation, and the resource besides its metadata.
pub record Setting (V : Type 0) : Type 0 where
  pub semver : Semver V
  pub operator_version : String
  pub net : Net
  pub global_secret : ObjectKey
  pub conditions : List Condition
  pub connection_secret : Option String
  pub reference : ProjectReference
  pub request : Request

module _ {W : Type 0} where
  -- A read of the cluster or of Atlas, which is not logged.
  abbrev pub reading : {B : Type 0} → (W → B × W) → Effect (Sim W) B
  reading f s = let (b, w) = f s.world in (b, record s { world = w })

module _ {W V : Type 0} (kube : KubeClient W) (cluster : Cluster W) (provider : AtlasProvider W)
    (setting : Setting V) where
  abbrev pub not_configured : GoError → Effect (Sim W) Return
  not_configured e = fail kube ready_type "AtlasAPIAccessNotConfigured" e

  abbrev pub in_project : ConnectionConfig → Answer Project → Effect (Sim W) Return
  in_project cfg (err e) = not_configured e
  in_project cfg (ok p) =
      handle_ip_access_list kube (provider.access_lists cfg p.project_id) setting.net
        setting.request

  abbrev pub with_client : ConnectionConfig → Meta → Option GoError → Effect (Sim W) Return
  with_client cfg r (some e) = not_configured e
  with_client cfg r none = do
    project ←
        reading (resolve_project cluster (provider.projects cfg) r.namespace setting.reference)
    in_project cfg project

  abbrev pub with_config : Meta → Answer ConnectionConfig → Effect (Sim W) Return
  with_config r (err e) = not_configured e
  with_config r (ok cfg) = do e ← reading (provider.sdk_client_set cfg); with_client cfg r e

  abbrev pub supported_or_not : Meta → Bool → Effect (Sim W) Return
  supported_or_not r false = unsupport kube "AtlasIPAccessList"
  supported_or_not r true = do
    cfg ← reading (
        resolve_connection_config cluster setting.global_secret r.namespace
          setting.connection_secret setting.reference)
    with_config r cfg

  abbrev pub valid_or_not : Meta → DeprecatedResult → Bool → Effect (Sim W) Return
  valid_or_not r validity false = invalidate validity
  valid_or_not r validity true = supported_or_not r provider.is_resource_supported

  -- The context starts from the conditions of the resource, with "Ready" false if it is missing.
  abbrev pub start_context : Effect (Sim W) (Unit {0})
  start_context = report kube (λ now c.
      new_context (init_condition (false_condition ready_type now) setting.conditions now))

  abbrev pub skipped_or_not : Meta → Bool → Effect (Sim W) Return
  skipped_or_not r true = skip_resource kube
  skipped_or_not r false = do
    start_context
    validity ← validate_resource_version kube setting.semver setting.operator_version
    valid_or_not r validity (is_ok validity)

  unfoldable pub handle_custom_resource : Effect (Sim W) Return
  unfolding reconciliation_should_be_skipped
  handle_custom_resource = do
    r ← gets (λ s. s.meta)
    skipped_or_not r (reconciliation_should_be_skipped r)
