-- ===== src/CustomRole/Writes.antt =====
-- When the controller of a custom role writes to Atlas.
use mongodb_atlas_kubernetes.Base.{
  ◌≡◌, ◌⊎◌, inl, inr, refl, ap, ℕ, String, Bool, true, false, Option, none, some, ◌∷◌,
  if◌then◌else◌, is_some, is_empty_text, All,
}
use mongodb_atlas_kubernetes.Base.Errors.{GoError, Answer, ok, err}
use mongodb_atlas_kubernetes.Base.Effect.{Effect}
use mongodb_atlas_kubernetes.Workflow.Results.{ok_result, terminate}
use mongodb_atlas_kubernetes.Resource.Finalizer.{set_finalizer, unset_finalizer}
use mongodb_atlas_kubernetes.Resource.Scene.{
  atlas, KubeClient, call_atlas, terminating, report, manage,
}
use mongodb_atlas_kubernetes.Resource.Frame.{OnAtlas, manage-Keeps}
use mongodb_atlas_kubernetes.CustomRole.Conversion.{CustomRole, same_role}
use mongodb_atlas_kubernetes.CustomRole.Service.{
  CustomRoleService, RoleCall, reads_role, creates_role, updates_role, deletes_role,
}
use mongodb_atlas_kubernetes.CustomRole.Controller.{
  RoleSim, RoleRequest, terminate_role, idle_role, unmanaged_role_or_failed, unmanaged_role,
  managed_role_or_failed, managed_role, managed_or_terminated, create_in_project, send_update,
  update_in_project, delete_in_project, reconcile_found, reconcile_in_project, reconcile_role,
  handle_custom_role,
}

-- Every call but the deletion of a role.
abbrev pub IsNoRoleDeletion : RoleCall → Type 0
IsNoRoleDeletion (deletes_role name) = ⊥
IsNoRoleDeletion (reads_role name) = Unit
IsNoRoleDeletion (creates_role role) = Unit
IsNoRoleDeletion (updates_role name role) = Unit

module _ {W : Type 0} (kube : KubeClient W) where
  abbrev KeepsR : {B : Type 0} → Effect (RoleSim W) B → Type 0
  KeepsR f =
      (s : RoleSim W)
      → All (OnAtlas IsNoRoleDeletion) s.calls
      → All (OnAtlas IsNoRoleDeletion) (f s).1.calls

  terminate_role-Keeps : (reason : String) (e : GoError) → KeepsR (terminate_role kube reason e)
  unfolding terminate_role terminating report
  terminate_role-Keeps reason e s h = h

  unmanaged_role-Keeps : KeepsR (unmanaged_role kube)
  unfolding unmanaged_role
  unmanaged_role-Keeps s h =
      after ((manage kube unset_finalizer s).0) ((manage kube unset_finalizer s).1)
        (manage-Keeps IsNoRoleDeletion kube unset_finalizer s h)
    where
      after : (e : Option GoError) → KeepsR (unmanaged_role_or_failed kube e)
      after none s h = h
      after (some e) s h = terminate_role-Keeps "AtlasFinalizerNotRemoved" e s h

  managed_role-Keeps : KeepsR (managed_role kube)
  unfolding managed_role idle_role report
  managed_role-Keeps s h =
      after ((manage kube set_finalizer s).0) ((manage kube set_finalizer s).1)
        (manage-Keeps IsNoRoleDeletion kube set_finalizer s h)
    where
      after : (e : Option GoError) → KeepsR (managed_role_or_failed kube e)
      after none s h = h
      after (some e) s h = terminate_role-Keeps "AtlasFinalizerNotSet" e s h

  module _ (service : CustomRoleService W) (req : RoleRequest) where
    managed_or_terminated-Keeps :
        (reason : String) (e : Option GoError)
        → KeepsR (managed_or_terminated kube service req reason e)
    managed_or_terminated-Keeps reason none s h = managed_role-Keeps s h
    managed_or_terminated-Keeps reason (some e) s h = terminate_role-Keeps reason e s h

    create_in_project-Keeps : KeepsR (create_in_project kube service req)
    unfolding create_in_project call_atlas
    create_in_project-Keeps s h =
        managed_or_terminated-Keeps "CustomRoleNotCreated"
          ((service.create_role req.role s.world).0)
          ((call_atlas (creates_role req.role) (service.create_role req.role) s).1) (tt, h)

    update_in_project-Keeps : (a : CustomRole) → KeepsR (update_in_project kube service req a)
    unfolding update_in_project call_atlas idle_role report
    update_in_project-Keeps a s h = chosen (same_role req.role a)
      where
        chosen :
            (b : Bool)
            → All
                (OnAtlas IsNoRoleDeletion)
                ((if b then idle_role kube else send_update kube service req) s).1.calls
        chosen true = h
        chosen false =
            managed_or_terminated-Keeps "CustomRoleNotUpdated"
              ((service.update_role req.role.name req.role s.world).0)
              ((call_atlas (updates_role req.role.name req.role)
                (service.update_role req.role.name req.role) s).1)
              (tt, h)

    found_role-Keeps :
        (a : Answer (Option CustomRole)) (deleted : Bool)
        → (deleted ≡ false) ⊎ (req.dp_enabled ≡ true)
        → KeepsR (reconcile_found kube service req a deleted)
    unfolding terminating
    found_role-Keeps (err e) deleted k s h = h
    found_role-Keeps (ok none) false k s h = create_in_project-Keeps s h
    found_role-Keeps (ok (some a)) false k s h = update_in_project-Keeps a s h
    found_role-Keeps (ok none) true k s h = unmanaged_role-Keeps s h
    found_role-Keeps (ok (some a)) true (inl e) s h = cc
    found_role-Keeps (ok (some a)) true (inr e) s h = rw e (unmanaged_role-Keeps s h)

    -- If the resource has no deletion timestamp or the deletion protection is on, handling a custom
    -- role does not delete a role in Atlas. It is assumed of the calls before it.
    pub role_kept_in_atlas :
        (s : RoleSim W)
        → (is_some s.meta.deletion_timestamp ≡ false) ⊎ (req.dp_enabled ≡ true)
        → All (OnAtlas IsNoRoleDeletion) s.calls
        → All (OnAtlas IsNoRoleDeletion) (handle_custom_role kube service req s).1.calls
    unfolding handle_custom_role reconcile_role report call_atlas terminating
    role_kept_in_atlas s k h = chosen (is_empty_text req.project_id)
      where
        chosen :
            (b : Bool)
            → All (OnAtlas IsNoRoleDeletion) (reconcile_in_project kube service req b s).1.calls
        chosen true = h
        chosen false =
            found_role-Keeps ((service.get_role req.role.name s.world).0)
              (is_some s.meta.deletion_timestamp) k
              ((call_atlas (reads_role req.role.name) (service.get_role req.role.name) s).1) (tt, h)

    -- If the project has an ID, the resource has no deletion timestamp and Atlas has an equal role,
    -- then handling the custom role only reads that role: it sends no update and leaves the
    -- finalizers as they are, also where the operator's finalizer is missing.
    pub equal_role_only_read :
        (s : RoleSim W) (a : CustomRole)
        → is_empty_text req.project_id ≡ false
        → s.meta.deletion_timestamp ≡ none
        → (service.get_role req.role.name s.world).0 ≡ ok (some a)
        → same_role req.role a ≡ true
        → let o = handle_custom_role kube service req s in
          (o.0 ≡ ok_result)
          × (o.1.meta ≡ s.meta)
          × (o.1.calls ≡ atlas (reads_role req.role.name) ∷ s.calls)
    unfolding handle_custom_role reconcile_role report call_atlas update_in_project idle_role
    equal_role_only_read s a p d g e = rw (p, ap is_some d, g, e) (refl, refl, refl)

    -- If the project has an ID, the resource has a deletion timestamp and no protection, Atlas has
    -- the role and does not delete it, then handling the custom role ends with that error and
    -- leaves the finalizers as they are.
    pub role_deletion_fails :
        (s : RoleSim W) (a : CustomRole) (t : ℕ) (e : GoError)
        → is_empty_text req.project_id ≡ false
        → s.meta.deletion_timestamp ≡ some t
        → req.dp_enabled ≡ false
        → (service.get_role req.role.name s.world).0 ≡ ok (some a)
        → (service.delete_role a.name (service.get_role req.role.name s.world).1).0 ≡ some e
        → let o = handle_custom_role kube service req s in
          (o.0.error ≡ some e)
          × (o.1.meta ≡ s.meta)
          × (o.1.calls ≡ atlas (deletes_role a.name) ∷ atlas (reads_role req.role.name) ∷ s.calls)
    unfolding handle_custom_role reconcile_role report call_atlas delete_in_project terminate_role
        terminating terminate
    role_deletion_fails s a t e p d k g f = rw (p, ap is_some d, g, k, f) (refl, refl, refl)
