-- ===== src/DatabaseUser/Reconcile.antt =====
-- handleDatabaseUser of internal/controller/atlasdatabaseuser/databaseuser.go, and what Reconcile of
-- atlasdatabaseuser_controller.go does between PrepareResource and it. The update of the status,
-- which is deferred, is not modelled.
use mongodb_atlas_kubernetes.Base.{String, Bool, true, false, Option, none, some, concat}
use mongodb_atlas_kubernetes.Base.Errors.{GoError, plain, Answer, ok, err}
use mongodb_atlas_kubernetes.Base.Return.{Return}
use mongodb_atlas_kubernetes.Base.Effect.{Effect, pure, gets, ◌>>=◌, ◌>>◌}
use mongodb_atlas_kubernetes.Workflow.Conditions.{
  ready_type, false_condition, init_condition, resource_version_status, validation_succeeded,
  database_user_ready,
}
use mongodb_atlas_kubernetes.Workflow.Context.{new_context, set_condition_true}
use mongodb_atlas_kubernetes.Workflow.Results.{ok_result, reconcile_result}
use mongodb_atlas_kubernetes.Resource.Meta.{Meta}
use mongodb_atlas_kubernetes.Resource.Policy.{
  reconciliation_should_be_skipped, resource_version_is_valid,
}
use mongodb_atlas_kubernetes.Resource.Scene.{KubeClient, report}
use mongodb_atlas_kubernetes.Reconciler.Project.{Project, Cluster, ProjectService, resolve_project}
use mongodb_atlas_kubernetes.Reconciler.Credentials.{ConnectionConfig, resolve_connection_config}
use mongodb_atlas_kubernetes.Reconciler.Passage.{PassageSetting, reading}
use mongodb_atlas_kubernetes.DatabaseUser.Service.{UserSim}
use mongodb_atlas_kubernetes.DatabaseUser.Controller.{UserRequest, UserParts, terminate_on}
use mongodb_atlas_kubernetes.DatabaseUser.Lifecycle.{dbu_life_cycle}

-- atlas.Provider, and the parts that are made of the client set, at a project
pub record UserProvider (W : Type 0) : Type 0 where
  pub is_user_supported : Bool
  pub make_clients : ConnectionConfig → W → Option GoError × W
  pub projects_of : ConnectionConfig → ProjectService W
  pub parts_of : ConnectionConfig → String → UserParts W

module _ {W V : Type 0} (kube : KubeClient W) (cluster : Cluster W) (provider : UserProvider W)
    (setting : PassageSetting V) (req : UserRequest) where
  abbrev pub no_access : GoError → Effect (UserSim W) Return
  no_access e = terminate_on kube database_user_ready "AtlasAPIAccessNotConfigured" true e

  abbrev pub in_project : ConnectionConfig → Answer Project → Effect (UserSim W) Return
  in_project cfg (err e) = no_access e
  in_project cfg (ok p) =
      dbu_life_cycle (provider.parts_of cfg p.project_id) (record req { project_id = p.project_id })

  abbrev pub with_client : ConnectionConfig → Meta → Option GoError → Effect (UserSim W) Return
  with_client cfg r (some e) = no_access e
  with_client cfg r none = do
    project ←
        reading (resolve_project cluster (provider.projects_of cfg) r.namespace setting.reference)
    in_project cfg project

  abbrev pub with_config : Meta → Answer ConnectionConfig → Effect (UserSim W) Return
  with_config r (err e) = no_access e
  with_config r (ok cfg) = do e ← reading (provider.make_clients cfg); with_client cfg r e

  abbrev pub supported_or_not : Meta → Bool → Effect (UserSim W) Return
  supported_or_not r false =
      terminate_on kube database_user_ready "AtlasGovUnsupported" false
        (plain "the *v1.AtlasDatabaseUser is not supported by Atlas for government")
  supported_or_not r true = do
    cfg ← reading (
        resolve_connection_config cluster setting.global_secret r.namespace
          setting.connection_secret setting.reference)
    with_config r cfg

  abbrev pub valid_or_not : Meta → Answer Bool → Effect (UserSim W) Return
  valid_or_not r (err e) =
      terminate_on kube resource_version_status "AtlasResourceVersionIsInvalid" true e
  valid_or_not r (ok false) =
      terminate_on kube resource_version_status "AtlasResourceVersionMismatch" true (
        plain (
          concat "version of the resource '" (
            concat r.name (
              concat "' is higher than the operator version '"
                (concat setting.operator_version "'")))))
  valid_or_not r (ok true) = do
    report kube (set_condition_true resource_version_status)
    report kube (set_condition_true validation_succeeded)
    supported_or_not r provider.is_user_supported

  unfoldable pub handle_database_user : Effect (UserSim W) Return
  unfolding dbu_life_cycle terminate_on report set_condition_true resource_version_is_valid
      resolve_project resolve_connection_config
  handle_database_user = do
    r ← gets (λ s. s.meta)
    valid_or_not r (resource_version_is_valid setting.semver setting.operator_version r)

  abbrev pub skipped_or_not : Bool → Effect (UserSim W) Return
  skipped_or_not true = pure (reconcile_result ok_result)
  skipped_or_not false = do
    report kube (λ now c.
        new_context (init_condition (false_condition ready_type now) setting.conditions now))
    handle_database_user

  unfoldable pub reconcile_database_user : Effect (UserSim W) Return
  unfolding handle_database_user report reconciliation_should_be_skipped reconcile_result ok_result
  reconcile_database_user = do
    r ← gets (λ s. s.meta)
    skipped_or_not (reconciliation_should_be_skipped r)
