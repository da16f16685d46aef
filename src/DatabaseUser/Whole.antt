-- ===== src/DatabaseUser/Whole.antt =====
-- A whole reconciliation of an AtlasDatabaseUser.
use mongodb_atlas_kubernetes.Base.{
  ◌≡◌, refl, subst, sym, String, Bool, true, false, Option, none, some, All,
}
use mongodb_atlas_kubernetes.Base.Errors.{GoError, Answer, ok, err}
use mongodb_atlas_kubernetes.Base.Effect.{Effect}
use mongodb_atlas_kubernetes.Resource.Meta.{Meta}
use mongodb_atlas_kubernetes.Resource.Policy.{
  reconciliation_should_be_skipped, resource_version_is_valid,
}
use mongodb_atlas_kubernetes.Resource.Scene.{KubeClient, report, terminating}
use mongodb_atlas_kubernetes.Resource.Frame.{OnAtlas}
use mongodb_atlas_kubernetes.Resource.Leading.{EndsCalls}
use mongodb_atlas_kubernetes.Reconciler.Project.{Project, Cluster, resolve_project}
use mongodb_atlas_kubernetes.Reconciler.Credentials.{ConnectionConfig, resolve_connection_config}
use mongodb_atlas_kubernetes.Reconciler.Passage.{PassageSetting}
use mongodb_atlas_kubernetes.DatabaseUser.Service.{
  UserCall, UserSim, gets_user, deletes_user, creates_user, updates_user,
}
use mongodb_atlas_kubernetes.DatabaseUser.Controller.{UserRequest, was_renamed, terminate_on}
use mongodb_atlas_kubernetes.DatabaseUser.Lifecycle.{dbu_life_cycle}
use mongodb_atlas_kubernetes.DatabaseUser.Deleting.{MayCall, dbu_life_cycle-Ends}
use mongodb_atlas_kubernetes.DatabaseUser.Reconcile.{
  UserProvider, in_project, with_client, with_config, supported_or_not, valid_or_not,
  handle_database_user, skipped_or_not, reconcile_database_user,
}

module _ (req : UserRequest) (project : String) (r : Meta) where
  -- The ID of the project does not matter to what may be called.
  in_any_project :
      (c : UserCall) → MayCall req r c ≡ MayCall (record req { project_id = project }) r c
  unfolding was_renamed
  in_any_project (gets_user db name) = refl
  in_any_project (deletes_user db name) = refl
  in_any_project (creates_user c) = refl
  in_any_project (updates_user db name c) = refl

  same_calls : MayCall req r ≡ MayCall (record req { project_id = project }) r
  same_calls i c = in_any_project c i

module _ {W V : Type 0} (kube : KubeClient W) (cluster : Cluster W) (provider : UserProvider W)
    (setting : PassageSetting V) (req : UserRequest) (r : Meta) where
  abbrev Ends : {B : Type 0} → Effect (UserSim W) B → Type 0
  Ends f = EndsCalls (MayCall req r) r f

  terminate_on-Ends :
      (condition reason : String) (retry : Bool) (e : GoError)
      → Ends (terminate_on kube condition reason retry e)
  unfolding terminate_on terminating report
  terminate_on-Ends condition reason retry e s (h, same) = h

  in_project-Ends :
      (cfg : ConnectionConfig) (a : Answer Project)
      → Ends (in_project kube cluster provider setting req cfg a)
  in_project-Ends cfg (err e) = terminate_on-Ends _ _ _ e
  in_project-Ends cfg (ok p) =
      let own = record req { project_id = p.project_id } in
      subst (λ P. EndsCalls P r (dbu_life_cycle (provider.parts_of cfg p.project_id) own))
        (sym (same_calls req p.project_id r))
        (dbu_life_cycle-Ends (provider.parts_of cfg p.project_id) own r)

  supported_or_not-Ends : (b : Bool) → Ends (supported_or_not kube cluster provider setting req r b)
  supported_or_not-Ends false s h = terminate_on-Ends _ _ _ _ s h
  supported_or_not-Ends true s h =
      configured
        ((resolve_connection_config cluster setting.global_secret r.namespace
          setting.connection_secret setting.reference s.world).0)
        _ h
    where
      connected :
          (cfg : ConnectionConfig) (e : Option GoError)
          → Ends (with_client kube cluster provider setting req cfg r e)
      connected cfg (some e) s h = terminate_on-Ends _ _ _ e s h
      connected cfg none s h =
          in_project-Ends cfg
            ((resolve_project cluster (provider.projects_of cfg) r.namespace setting.reference
              s.world).0)
            _ h

      configured :
          (a : Answer ConnectionConfig) → Ends (with_config kube cluster provider setting req r a)
      configured (err e) s h = terminate_on-Ends _ _ _ e s h
      configured (ok cfg) s h = connected cfg ((provider.make_clients cfg s.world).0) _ h

  valid_or_not-Ends : (a : Answer Bool) → Ends (valid_or_not kube cluster provider setting req r a)
  unfolding report
  valid_or_not-Ends (err e) s h = terminate_on-Ends _ _ _ e s h
  valid_or_not-Ends (ok false) s h = terminate_on-Ends _ _ _ _ s h
  valid_or_not-Ends (ok true) s h = supported_or_not-Ends provider.is_user_supported _ h

module _ {W V : Type 0} (kube : KubeClient W) (cluster : Cluster W) (provider : UserProvider W)
    (setting : PassageSetting V) (req : UserRequest) where
  -- Of the users in Atlas, a reconciliation of an AtlasDatabaseUser deletes none but, in the
  -- database of the spec, the user that the spec names if the resource is being deleted and neither
  -- its policy nor the deletion protection keeps the user, and the user under the name of the
  -- status if the resource is not being deleted and the user was renamed; and it creates and
  -- updates users only if the resource is not being deleted. It is assumed of the calls before it.
  pub user_deletions :
      (s : UserSim W)
      → All (OnAtlas (MayCall req s.meta)) s.calls
      → All
          (OnAtlas (MayCall req s.meta))
          (reconcile_database_user kube cluster provider setting req s).1.calls
  unfolding reconcile_database_user handle_database_user report
  user_deletions s h = chosen (reconciliation_should_be_skipped s.meta)
    where
      chosen :
          (b : Bool)
          → All
              (OnAtlas (MayCall req s.meta))
              (skipped_or_not kube cluster provider setting req b s).1.calls
      chosen true = h
      chosen false =
          valid_or_not-Ends kube cluster provider setting req s.meta
            (resource_version_is_valid setting.semver setting.operator_version s.meta) _ (h, refl)
