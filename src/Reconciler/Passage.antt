-- ===== src/Reconciler/Passage.antt =====
-- What handleCustomResource of a legacy controller does before its own handle, as the controllers
-- of internal/controller have it: the checks of the resource, its credentials and its project. The
-- update of the status, which is deferred, is not modelled.
use mongodb_atlas_kubernetes.Base.{String, Bool, true, false, Option, none, some, List}
use mongodb_atlas_kubernetes.Base.Errors.{GoError, Answer, ok, err}
use mongodb_atlas_kubernetes.Base.Return.{Return}
use mongodb_atlas_kubernetes.Base.Effect.{Effect, gets, ◌>>=◌, ◌>>◌}
use mongodb_atlas_kubernetes.Workflow.Conditions.{
  ready_type, false_condition, init_condition, Condition,
}
use mongodb_atlas_kubernetes.Workflow.Context.{new_context}
use mongodb_atlas_kubernetes.Workflow.Results.{DeprecatedResult, is_ok}
use mongodb_atlas_kubernetes.Resource.Meta.{Meta}
use mongodb_atlas_kubernetes.Resource.Policy.{Semver, ObjectKey, reconciliation_should_be_skipped}
use mongodb_atlas_kubernetes.Resource.Prepare.{validate_resource_version}
use mongodb_atlas_kubernetes.Resource.Scene.{Scene, KubeClient, report}
use mongodb_atlas_kubernetes.Reconciler.Outcomes.{invalidate, skip_resource, unsupport}
use mongodb_atlas_kubernetes.Reconciler.Project.{
  Project, ProjectReference, Cluster, ProjectService, resolve_project,
}
use mongodb_atlas_kubernetes.Reconciler.Credentials.{ConnectionConfig, resolve_connection_config}

-- The controller's own part, and atlas.Provider.
pub record Passage (W O A : Type 0) : Type 0 where
  pub type_name : String
  pub is_supported : Bool
  pub client_set : ConnectionConfig → W → Option GoError × W
  pub projects : ConnectionConfig → ProjectService W
  -- terminate with the reason for a client set that is not made, and release
  pub refuse : GoError → Effect (Scene W O A) Return
  pub give_up : GoError → Effect (Scene W O A) Return
  -- handle, at the credentials and the project's ID
  pub proceed : ConnectionConfig → String → Effect (Scene W O A) Return

pub record PassageSetting (V : Type 0) : Type 0 where
  pub semver : Semver V
  pub operator_version : String
  pub global_secret : ObjectKey
  pub conditions : List Condition
  pub connection_secret : Option String
  pub reference : ProjectReference

module _ {W O A : Type 0} where
  -- A read of the cluster or of Atlas, which is not logged.
  abbrev pub reading : {B : Type 0} → (W → B × W) → Effect (Scene W O A) B
  reading f s = let (b, w) = f s.world in (b, record s { world = w })

module _ {W O A V : Type 0} (kube : KubeClient W) (cluster : Cluster W) (setting : PassageSetting V)
    (own : Passage W O A) where
  abbrev pub in_project : ConnectionConfig → Answer Project → Effect (Scene W O A) Return
  in_project cfg (err e) = own.give_up e
  in_project cfg (ok p) = own.proceed cfg p.project_id

  abbrev pub with_client : ConnectionConfig → Meta → Option GoError → Effect (Scene W O A) Return
  with_client cfg r (some e) = own.refuse e
  with_client cfg r none = do
    project ← reading (resolve_project cluster (own.projects cfg) r.namespace setting.reference)
    in_project cfg project

  abbrev pub with_config : Meta → Answer ConnectionConfig → Effect (Scene W O A) Return
  with_config r (err e) = own.give_up e
  with_config r (ok cfg) = do e ← reading (own.client_set cfg); with_client cfg r e

  abbrev pub supported_or_not : Meta → Bool → Effect (Scene W O A) Return
  supported_or_not r false = unsupport kube own.type_name
  supported_or_not r true = do
    cfg ← reading (
        resolve_connection_config cluster setting.global_secret r.namespace
          setting.connection_secret setting.reference)
    with_config r cfg

  abbrev pub valid_or_not : Meta → DeprecatedResult → Bool → Effect (Scene W O A) Return
  valid_or_not r validity false = invalidate validity
  valid_or_not r validity true = supported_or_not r own.is_supported

  -- The context starts from the conditions of the resource, with "Ready" false if it is missing.
  abbrev pub start_context : Effect (Scene W O A) (Unit {0})
  start_context = report kube (λ now c.
      new_context (init_condition (false_condition ready_type now) setting.conditions now))

  abbrev pub skipped_or_not : Meta → Bool → Effect (Scene W O A) Return
  skipped_or_not r true = skip_resource kube
  skipped_or_not r false = do
    start_context
    validity ← validate_resource_version kube setting.semver setting.operator_version
    valid_or_not r validity (is_ok validity)

  unfoldable pub run_passage : Effect (Scene W O A) Return
  unfolding reconciliation_should_be_skipped
  run_passage = do r ← gets (λ s. s.meta); skipped_or_not r (reconciliation_should_be_skipped r)
