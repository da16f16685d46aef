-- ===== src/NetworkContainer/Controller.antt =====
-- internal/controller/atlasnetworkcontainer: transitions.go, and handle and discover of state.go.
use mongodb_atlas_kubernetes.Base.{
  String, Bool, true, false, not, Option, none, some, if◌then◌else◌, str_eq, is_some, concat,
  is_empty_text,
}
use mongodb_atlas_kubernetes.Base.Int.{ℤ}
use mongodb_atlas_kubernetes.Base.Errors.{
  GoError, wrap, joined, errors_is, missing_kube_project, container_not_found, Answer, ok, err,
}
use mongodb_atlas_kubernetes.Base.Return.{Return}
use mongodb_atlas_kubernetes.Base.Effect.{Effect, pure, gets, ◌>>=◌, ◌>>◌}
use mongodb_atlas_kubernetes.Workflow.Conditions.{ready_type, network_container_ready}
use mongodb_atlas_kubernetes.Workflow.Context.{
  set_condition_false, set_condition_from_result, set_condition_true, set_condition_true_msg,
}
use mongodb_atlas_kubernetes.Workflow.Results.{ok_result, requeue, deleted_result, reconcile_result}
use mongodb_atlas_kubernetes.Resource.Finalizer.{set_finalizer, unset_finalizer}
use mongodb_atlas_kubernetes.Resource.Policy.{is_resource_policy_keep_or_default}
use mongodb_atlas_kubernetes.Resource.Scene.{
  Scene, KubeClient, call_atlas, add_option, terminating, report, manage,
}
use mongodb_atlas_kubernetes.NetworkContainer.Conversion.{ContainerConfig, NetworkContainer}
use mongodb_atlas_kubernetes.NetworkContainer.Service.{
  NetworkContainerService, ContainerCall, creates, gets_one, finds, updates, removes,
}

-- The status option is the container whose ID and provisioning the status gets.
abbrev pub ContainerSim : Type 0 → Type 0
ContainerSim W = Scene W NetworkContainer ContainerCall

-- The AtlasNetworkContainer as far as it is read, and the reconciler's settings.
pub record ContainerRequest : Type 0 where
  pub project_id : String
  pub spec : ContainerConfig
  pub status_id : String
  pub has_external_project : Bool
  pub independent_sync_period : ℤ
  pub object_deletion_protection : Bool

module _ {W : Type 0} (kube : KubeClient W) where
  unfoldable pub terminate_container : String → GoError → Effect (ContainerSim W) Return
  unfolding terminating report set_condition_false set_condition_from_result reconcile_result
  terminate_container reason e = do
    result ← terminating reason e
    report kube (set_condition_false ready_type)
    report kube (set_condition_from_result ready_type result)
    pure (reconcile_result result)

  abbrev pub unmanaged_or_failed : Option GoError → Effect (ContainerSim W) Return
  unmanaged_or_failed (some e) = terminate_container "AtlasFinalizerNotRemoved" e
  unmanaged_or_failed none = pure (reconcile_result deleted_result)

  unfoldable pub unmanage_container : Effect (ContainerSim W) Return
  unfolding manage terminate_container reconcile_result deleted_result
  unmanage_container = do e ← manage kube unset_finalizer; unmanaged_or_failed e

  abbrev pub joined_error : GoError → Option GoError → GoError
  joined_error e none = e
  joined_error e (some f) = joined e f

  unfoldable pub release : GoError → Effect (ContainerSim W) Return
  unfolding manage terminate_container
  release e =
      if errors_is e missing_kube_project
      then (do
        failure ← manage kube unset_finalizer
        terminate_container "NetworkContainerNotConfigured" (joined_error e failure))
      else terminate_container "NetworkContainerNotConfigured" e

  abbrev pub container_ready_or_failed :
      ContainerRequest → NetworkContainer → Option GoError → Effect (ContainerSim W) Return
  container_ready_or_failed req c (some e) = terminate_container "AtlasFinalizerNotSet" e
  container_ready_or_failed req c none = do
    report kube (
        set_condition_true_msg network_container_ready
          (concat "Network Container " (concat c.id " is ready")))
    report kube (set_condition_true ready_type)
    add_option c
    pure (
        reconcile_result
          (if req.has_external_project then requeue req.independent_sync_period else ok_result))

  unfoldable pub container_ready :
      ContainerRequest → NetworkContainer → Effect (ContainerSim W) Return
  unfolding manage terminate_container report set_condition_true set_condition_true_msg add_option
      reconcile_result requeue ok_result
  container_ready req c = do e ← manage kube set_finalizer; container_ready_or_failed req c e

  module _ (service : NetworkContainerService W) (req : ContainerRequest) where
    abbrev pub ready_or_terminated :
        String → Answer NetworkContainer → Effect (ContainerSim W) Return
    ready_or_terminated msg (err e) =
        terminate_container "NetworkContainerNotConfigured" (wrap msg e)
    ready_or_terminated msg (ok c) = container_ready req c

    unfoldable pub create_in_atlas : Effect (ContainerSim W) Return
    unfolding call_atlas container_ready terminate_container
    create_in_atlas = do
      created ← call_atlas (creates req.spec) (service.create_container req.spec)
      ready_or_terminated "failed to create container" created

    unfoldable pub update_in_atlas : String → Effect (ContainerSim W) Return
    unfolding call_atlas container_ready terminate_container
    update_in_atlas id = do
      updated ← call_atlas (updates id req.spec) (service.update_container id req.spec)
      ready_or_terminated "failed to update container" updated

    unfoldable pub sync : NetworkContainer → Effect (ContainerSim W) Return
    unfolding update_in_atlas container_ready
    sync c =
        if not (str_eq req.spec.cidr_block c.config.cidr_block)
        then update_in_atlas c.id
        else container_ready req c

    abbrev pub removed_or_failed : Option GoError → Effect (ContainerSim W) Return
    removed_or_failed (some e) =
        terminate_container "NetworkContainerNotDeleted" (wrap "failed to delete container" e)
    removed_or_failed none = unmanage_container

    abbrev pub delete_or_keep : NetworkContainer → Bool → Effect (ContainerSim W) Return
    delete_or_keep c true = unmanage_container
    delete_or_keep c false = do
      e ← call_atlas (removes c.id) (service.delete_container c.id)
      removed_or_failed e

    unfoldable pub delete_in_atlas : NetworkContainer → Effect (ContainerSim W) Return
    unfolding call_atlas unmanage_container terminate_container is_resource_policy_keep_or_default
    delete_in_atlas c = do
      r ← gets (λ s. s.meta)
      delete_or_keep c (is_resource_policy_keep_or_default r req.object_deletion_protection)

    -- the ID of the specification, or else the one of the status
    unfoldable pub known_id : String
    known_id = if is_empty_text req.spec.config_id then req.status_id else req.spec.config_id

    abbrev pub of_get : String → Answer NetworkContainer → Answer (Option NetworkContainer)
    of_get id (ok c) = ok (some c)
    of_get id (err e) = err (
        wrap
          (concat "failed to get container " (concat id (concat " from project " req.project_id)))
          e)

    abbrev pub of_find : Answer NetworkContainer → Answer (Option NetworkContainer)
    of_find (ok c) = ok (some c)
    of_find (err e) =
        if errors_is e container_not_found
        then ok none
        else err (wrap (concat "failed to find container from project " req.project_id) e)

    abbrev pub discover_by :
        String → Bool → Effect (ContainerSim W) (Answer (Option NetworkContainer))
    discover_by id false = do
      got ← call_atlas (gets_one id) (service.get_container id)
      pure (of_get id got)
    discover_by id true = do
      got ← call_atlas (finds req.spec) (service.find_container req.spec)
      pure (of_find got)

    unfoldable pub discover : Effect (ContainerSim W) (Answer (Option NetworkContainer))
    unfolding call_atlas known_id
    discover = discover_by known_id (is_empty_text known_id)

    abbrev pub handle_by : Answer (Option NetworkContainer) → Bool → Effect (ContainerSim W) Return
    handle_by (err e) deleted = terminate_container "NetworkContainerNotConfigured" e
    handle_by (ok none) false = create_in_atlas
    handle_by (ok (some c)) false = sync c
    handle_by (ok (some c)) true = delete_in_atlas c
    handle_by (ok none) true = unmanage_container

    unfoldable pub handle_network_container : Effect (ContainerSim W) Return
    unfolding discover terminate_container create_in_atlas sync delete_in_atlas unmanage_container
    handle_network_container = do
      found ← discover
      r ← gets (λ s. s.meta)
      handle_by found (is_some r.deletion_timestamp)
