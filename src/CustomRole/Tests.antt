-- ===== src/CustomRole/Tests.antt =====
-- Runs of the custom role's controller.
use mongodb_atlas_kubernetes.Base.{
  ◌≡◌, inr, refl, ℕ, Bool, true, false, Option, none, some, [], ◌∷◌, All,
}
use mongodb_atlas_kubernetes.Base.Errors.{plain, ok}
use mongodb_atlas_kubernetes.Workflow.Context.{new_context}
use mongodb_atlas_kubernetes.Workflow.Results.{ok_result}
use mongodb_atlas_kubernetes.Resource.Finalizer.{finalizer_label, set_finalizer}
use mongodb_atlas_kubernetes.Resource.Scene.{patch_finalizers, atlas, KubeClient}
use mongodb_atlas_kubernetes.Resource.Frame.{OnAtlas}
use mongodb_atlas_kubernetes.CustomRole.Conversion.{
  CustomRole, role_to_atlas, role_from_atlas, same_role,
}
use mongodb_atlas_kubernetes.CustomRole.Service.{CustomRoleService, reads_role, updates_role}
use mongodb_atlas_kubernetes.CustomRole.Controller.{RoleSim, RoleRequest, handle_custom_role}
use mongodb_atlas_kubernetes.CustomRole.Sameness.{is_full_role, same_role_back}
use mongodb_atlas_kubernetes.CustomRole.Writes.{
  IsNoRoleDeletion, role_kept_in_atlas, equal_role_only_read,
}

abbrev kube : KubeClient ℕ
kube = record { patch = (λ fs r w. (ok (record r { finalizers = fs }), w)); now = (λ w. (w, w)) }

-- A role without inherited roles, as the specification leaves them out.
abbrev plain_role : CustomRole
plain_role = record { name = "reader"; inherited_roles = none; actions = some [] }

abbrev full_role : CustomRole
full_role = record plain_role { inherited_roles = some [] }

-- Atlas that answers a role as it was written, and does not delete it.
abbrev service : CustomRole → CustomRoleService ℕ
service role = record {
  get_role = (λ name w. (ok (some (role_from_atlas (role_to_atlas role))), w));
  create_role = (λ r w. (none, w));
  update_role = (λ name r w. (none, w));
  delete_role = (λ name w. (some (plain "in use"), w));
}

abbrev request : CustomRole → Bool → RoleRequest
request role protected = record {
  project_id = "p";
  project_name = "prj";
  role = role;
  dp_enabled = protected;
}

abbrev start : Option ℕ → RoleSim ℕ
start deleted = record {
  world = 0;
  meta = record {
    name = "role";
    namespace = "default";
    annotations = [];
    labels = [];
    finalizers = some [];
    deletion_timestamp = deleted;
  };
  ctx = new_context [];
  queue = record { active = false; errs = [] };
  calls = [];
}

same_role_back_example :
    same_role plain_role (role_from_atlas (role_to_atlas plain_role)) ≡ is_full_role plain_role
same_role_back_example = same_role_back plain_role

-- A role without inherited roles is sent again although it did not change.
unchanged_role_test :
    (handle_custom_role kube (service plain_role) (request plain_role false) (start none)).1.calls
    ≡ patch_finalizers (some (finalizer_label ∷ []))
      ∷ atlas (updates_role "reader" plain_role)
      ∷ atlas (reads_role "reader")
      ∷ []
unfolding handle_custom_role same_role role_from_atlas role_to_atlas set_finalizer
unchanged_role_test = refl

role_kept_in_atlas_example :
    All
      (OnAtlas IsNoRoleDeletion)
      (handle_custom_role kube
        (service full_role)
        (request full_role true)
        (start (some 4))).1.calls
role_kept_in_atlas_example =
    role_kept_in_atlas kube (service full_role) (request full_role true) (start (some 4)) (inr refl)
      tt

equal_role_only_read_example :
    let o = handle_custom_role kube (service full_role) (request full_role false) (start none) in
    (o.0 ≡ ok_result)
    × (o.1.meta ≡ (start none).meta)
    × (o.1.calls ≡ atlas (reads_role "reader") ∷ [])
unfolding same_role role_from_atlas role_to_atlas
equal_role_only_read_example =
    equal_role_only_read kube (service full_role) (request full_role false) (start none)
      (role_from_atlas (role_to_atlas full_role)) refl refl refl refl
