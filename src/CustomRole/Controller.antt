-- ===== src/CustomRole/Controller.antt =====
-- internal/controller/atlascustomrole/custom_role.go.
use mongodb_atlas_kubernetes.Base.{
  String, Bool, true, false, not, Option, none, some, if◌then◌else◌, is_some, is_empty_text, concat,
}
use mongodb_atlas_kubernetes.Base.Errors.{GoError, plain, Answer, ok, err}
use mongodb_atlas_kubernetes.Base.Effect.{Effect, pure, gets, ◌>>=◌, ◌>>◌}
use mongodb_atlas_kubernetes.Workflow.Conditions.{ready_type, project_custom_roles_ready_type}
use mongodb_atlas_kubernetes.Workflow.Context.{set_condition_from_result, set_condition_true}
use mongodb_atlas_kubernetes.Workflow.Results.{DeprecatedResult, ok_result, deleted_result}
use mongodb_atlas_kubernetes.Resource.Finalizer.{set_finalizer, unset_finalizer}
use mongodb_atlas_kubernetes.Resource.Scene.{
  Scene, KubeClient, call_atlas, terminating, report, manage,
}
use mongodb_atlas_kubernetes.CustomRole.Conversion.{CustomRole, same_role}
use mongodb_atlas_kubernetes.CustomRole.Service.{
  CustomRoleService, RoleCall, reads_role, creates_role, updates_role, deletes_role,
}

-- A custom role has no status options.
abbrev pub RoleSim : Type 0 → Type 0
RoleSim W = Scene W (Unit {0}) RoleCall

-- The fields of roleController that do not change.
pub record RoleRequest : Type 0 where
  pub project_id : String
  pub project_name : String
  pub role : CustomRole
  pub dp_enabled : Bool

module _ {W : Type 0} (kube : KubeClient W) where
  unfoldable pub terminate_role : String → GoError → Effect (RoleSim W) DeprecatedResult
  unfolding terminating report set_condition_from_result
  terminate_role reason e = do
    result ← terminating reason e
    report kube (set_condition_from_result project_custom_roles_ready_type result)
    pure result

  unfoldable pub idle_role : Effect (RoleSim W) DeprecatedResult
  unfolding report set_condition_true ok_result
  idle_role = do report kube (set_condition_true project_custom_roles_ready_type); pure ok_result

  abbrev pub unmanaged_role_or_failed : Option GoError → Effect (RoleSim W) DeprecatedResult
  unmanaged_role_or_failed (some e) = terminate_role "AtlasFinalizerNotRemoved" e
  unmanaged_role_or_failed none = pure deleted_result

  unfoldable pub unmanaged_role : Effect (RoleSim W) DeprecatedResult
  unfolding manage terminate_role deleted_result
  unmanaged_role = do e ← manage kube unset_finalizer; unmanaged_role_or_failed e

  abbrev pub managed_role_or_failed : Option GoError → Effect (RoleSim W) DeprecatedResult
  managed_role_or_failed (some e) = terminate_role "AtlasFinalizerNotSet" e
  managed_role_or_failed none = idle_role

  unfoldable pub managed_role : Effect (RoleSim W) DeprecatedResult
  unfolding manage terminate_role idle_role
  managed_role = do e ← manage kube set_finalizer; managed_role_or_failed e

  module _ (service : CustomRoleService W) (req : RoleRequest) where
    abbrev pub managed_or_terminated : String → Option GoError → Effect (RoleSim W) DeprecatedResult
    managed_or_terminated reason (some e) = terminate_role reason e
    managed_or_terminated reason none = managed_role

    unfoldable pub create_in_project : Effect (RoleSim W) DeprecatedResult
    unfolding call_atlas terminate_role managed_role
    create_in_project = do
      e ← call_atlas (creates_role req.role) (service.create_role req.role)
      managed_or_terminated "CustomRoleNotCreated" e

    abbrev pub send_update : Effect (RoleSim W) DeprecatedResult
    send_update = do
      e ←
          call_atlas (updates_role req.role.name req.role)
            (service.update_role req.role.name req.role)
      managed_or_terminated "CustomRoleNotUpdated" e

    unfoldable pub update_in_project : CustomRole → Effect (RoleSim W) DeprecatedResult
    unfolding call_atlas terminate_role managed_role idle_role
    update_in_project in_atlas = if same_role req.role in_atlas then idle_role else send_update

    abbrev pub deleted_or_terminated : Option GoError → Effect (RoleSim W) DeprecatedResult
    deleted_or_terminated (some e) = terminate_role "CustomRoleNotDeleted" e
    deleted_or_terminated none = unmanaged_role

    unfoldable pub delete_in_project : CustomRole → Effect (RoleSim W) DeprecatedResult
    unfolding call_atlas terminate_role unmanaged_role
    delete_in_project in_atlas = do
      e ← call_atlas (deletes_role in_atlas.name) (service.delete_role in_atlas.name)
      deleted_or_terminated e

    -- the `switch`: the answer, and whether the role is being deleted
    abbrev pub reconcile_found :
        Answer (Option CustomRole) → Bool → Effect (RoleSim W) DeprecatedResult
    reconcile_found (err e) deleted = terminating "ProjectCustomRolesReady" e
    reconcile_found (ok none) false = create_in_project
    reconcile_found (ok (some in_atlas)) false = update_in_project in_atlas
    reconcile_found (ok (some in_atlas)) true =
        if not req.dp_enabled then delete_in_project in_atlas else unmanaged_role
    reconcile_found (ok none) true = unmanaged_role

    abbrev pub reconcile_in_project : Bool → Effect (RoleSim W) DeprecatedResult
    reconcile_in_project true = terminating "ProjectCustomRolesReady" (
        plain (
          concat "the referenced AtlasProject resource '"
            (concat req.project_name "' doesn't have ID (status.ID is empty)")))
    reconcile_in_project false = do
      found ← call_atlas (reads_role req.role.name) (service.get_role req.role.name)
      deleted ← gets (λ s. is_some s.meta.deletion_timestamp)
      reconcile_found found deleted

    unfoldable pub reconcile_role : Effect (RoleSim W) DeprecatedResult
    unfolding call_atlas terminating create_in_project update_in_project delete_in_project
        unmanaged_role
    reconcile_role = reconcile_in_project (is_empty_text req.project_id)

    unfoldable pub handle_custom_role : Effect (RoleSim W) DeprecatedResult
    unfolding reconcile_role report set_condition_from_result
    handle_custom_role = do
      result ← reconcile_role
      report kube (set_condition_from_result ready_type result)
      pure result
