-- ===== src/DatabaseUser/Blocked.antt =====
-- An AtlasDatabaseUser whose scopes name a deployment that is missing.
use mongodb_atlas_kubernetes.Base.{
  ◌≡◌, ◌∙◌, is_empty_text, refl, ap, some, String, Bool, true, false, Bool-cases, inl, inr, List,
  [], ◌∷◌, ◌&&◌,
}
use mongodb_atlas_kubernetes.Base.Errors.{Answer, ok}
use mongodb_atlas_kubernetes.Base.Return.{Return, done}
use mongodb_atlas_kubernetes.Base.Effect.{Effect}
use mongodb_atlas_kubernetes.Workflow.Results.{terminate, reconcile_result, without_retry}
use mongodb_atlas_kubernetes.Resource.Scene.{call_atlas, terminating, report, atlas}
use mongodb_atlas_kubernetes.DatabaseUser.Conversion.{User}
use mongodb_atlas_kubernetes.DatabaseUser.Service.{UserSim, gets_user, get_user}
use mongodb_atlas_kubernetes.DatabaseUser.Controller.{
  UserRequest, UserParts, get_scopes, terminate_on, terminate_user,
}
use mongodb_atlas_kubernetes.DatabaseUser.Lifecycle.{
  scopes_exist, is_user_expired, dbu_life_cycle, after_scopes, looked_at,
}
use mongodb_atlas_kubernetes.Workflow.Conditions.{
  ready_type, false_condition, init_condition, resource_version_status, validation_succeeded,
}
use mongodb_atlas_kubernetes.Workflow.Context.{new_context, set_condition_true}
use mongodb_atlas_kubernetes.Resource.Policy.{
  resource_version_is_valid, reconciliation_should_be_skipped,
}
use mongodb_atlas_kubernetes.Resource.Scene.{KubeClient}
use mongodb_atlas_kubernetes.Reconciler.Project.{Project, Cluster, resolve_project}
use mongodb_atlas_kubernetes.Reconciler.Credentials.{ConnectionConfig, resolve_connection_config}
use mongodb_atlas_kubernetes.Reconciler.Passage.{PassageSetting}
use mongodb_atlas_kubernetes.Reconciler.Reaching.{Resolves}
use mongodb_atlas_kubernetes.DatabaseUser.Reconcile.{
  UserProvider, in_project, with_client, with_config, supported_or_not, valid_or_not,
  skipped_or_not, handle_database_user, reconcile_database_user,
}

abbrev pub all_known : (String → Bool) → List String → Bool
all_known known [] = true
all_known known (n ∷ rest) = known n && all_known known rest

module _ {W : Type 0} (parts : UserParts W) (req : UserRequest) (known : String → Bool)
    (sees : (n : String) (w : W) → (parts.deployments.cluster_exists n w).0 ≡ ok (known n)) where
  abbrev Reads : {B : Type 0} → Effect (UserSim W) B → B → Type 0
  Reads f b = (s : UserSim W) → ((f s).0 ≡ b) × ((f s).1.calls ≡ s.calls) × ((f s).1.meta ≡ s.meta)

  scopes_exist-Reads :
      (names : List String) → Reads (scopes_exist parts req names) (ok (all_known known names))
  unfolding scopes_exist
  scopes_exist-Reads [] s = (refl, refl, refl)
  scopes_exist-Reads (n ∷ rest) s = elim (Bool-cases (known n)) [
    | inl e ↦ rw (sees n s.world, e) (scopes_exist-Reads rest _)
    | inr e ↦ rw (sees n s.world, e) (refl, refl, refl)
  ]

  abbrev Stops : Effect (UserSim W) Return → UserSim W → Type 0
  Stops f s = ((f s).0 ≡ done) × ((f s).1.calls ≡ s.calls) × ((f s).1.meta ≡ s.meta)

  after_scopes-Stops :
      (theirs : User) (a : Answer Bool) (s : UserSim W)
      → a ≡ ok false
      → Stops (after_scopes parts req (some theirs) a) s
  unfolding terminate_user terminate_on terminating report reconcile_result without_retry terminate
  after_scopes-Stops theirs a s e = rw e (refl, refl, refl)

  looked_at-Stops :
      (theirs : User) (s : UserSim W)
      → is_empty_text req.spec.delete_after_date ≡ true
      → all_known known (get_scopes req) ≡ false
      → Stops (looked_at parts req (some theirs)) s
  unfolding is_user_expired
  looked_at-Stops theirs s unset missing = rw unset (
      let names = get_scopes req in
      let o = scopes_exist parts req names s in
      let (answer, calls, meta) = scopes_exist-Reads names s in
      let (returned, calls', meta') = after_scopes-Stops theirs o.0 o.1 (answer ∙ ap ok missing) in
      (returned, calls' ∙ calls, meta' ∙ meta))

  -- dbuLifeCycle, of a user that is found in Atlas.
  life_cycle_blocked :
      (theirs : User) (s : UserSim W)
      → (get_user parts.parsing parts.users req.spec.database_name req.spec.username s).0
        ≡ ok theirs
      → is_empty_text req.spec.delete_after_date ≡ true
      → all_known known (get_scopes req) ≡ false
      → ((dbu_life_cycle parts req s).0 ≡ done)
        × ((dbu_life_cycle parts req s).1.calls
            ≡ atlas (gets_user req.spec.database_name req.spec.username) ∷ s.calls)
        × ((dbu_life_cycle parts req s).1.meta ≡ s.meta)
  unfolding dbu_life_cycle get_user call_atlas
  life_cycle_blocked theirs s found unset missing =
      rw found (looked_at-Stops theirs _ unset missing)

module _ {W V : Type 0} (kube : KubeClient W) (cluster : Cluster W) (provider : UserProvider W)
    (setting : PassageSetting V) (req : UserRequest) (cfg : ConnectionConfig) (p : Project) where
  abbrev pub parts_at : UserParts W
  parts_at = provider.parts_of cfg p.project_id

  reconcile_user_reaches :
      (s : UserSim W)
      → reconciliation_should_be_skipped s.meta ≡ false
      → resource_version_is_valid setting.semver setting.operator_version s.meta ≡ ok true
      → provider.is_user_supported ≡ true
      → Resolves cluster setting s.meta.namespace provider.make_clients provider.projects_of cfg p
      → (u : UserSim W) × (u.meta ≡ s.meta)
        × (u.calls ≡ s.calls)
        × (reconcile_database_user kube cluster provider setting req s
            ≡ dbu_life_cycle parts_at (record req { project_id = p.project_id }) u)
  unfolding reconcile_database_user handle_database_user report
  reconcile_user_reaches s k v supported resolves =
      let r = s.meta in
      let t0 =
        (report kube
          (λ now c.
            new_context (init_condition (false_condition ready_type now) setting.conditions now))
          s).1 in
      let t1 =
        (report kube (set_condition_true validation_succeeded)
          (report kube (set_condition_true resource_version_status) t0).1).1 in
      let t2 = record t1 {
        world =
            (resolve_connection_config cluster setting.global_secret r.namespace
              setting.connection_secret setting.reference t1.world).1;
      } in
      let t3 = record t2 { world = (provider.make_clients cfg t2.world).1 } in
      let t4 = record t3 {
        world =
            (resolve_project cluster (provider.projects_of cfg) r.namespace setting.reference
              t3.world).1;
      } in
      (
        t4,
        refl,
        refl,
        ap (λ b. skipped_or_not kube cluster provider setting req b s) k
            ∙ ap (λ a. valid_or_not kube cluster provider setting req r a t0) v
            ∙ ap (λ b. supported_or_not kube cluster provider setting req r b t1) supported
            ∙ ap (λ a. with_config kube cluster provider setting req r a t2)
                (resolves.config_known t1.world)
            ∙ ap (λ e. with_client kube cluster provider setting req cfg r e t3)
                (resolves.client_made t2.world)
            ∙ ap (λ a. in_project kube cluster provider setting req cfg a t4)
                (resolves.project_known t3.world),
      )

  -- If an AtlasDatabaseUser is not skipped, has a valid version and is supported, and its
  -- credentials, its client set and its project are there at every call; if it has no expiry date,
  -- its user is found in Atlas and its scopes name a deployment that does not exist, which is the
  -- same at every call; then the whole reconciliation only reads the user: it ends without an error
  -- and without another try, and the resource keeps its finalizers, whether or not it is being
  -- deleted.
  pub missing_scope_blocks :
      (known : String → Bool) (theirs : User) (s : UserSim W)
      → reconciliation_should_be_skipped s.meta ≡ false
      → resource_version_is_valid setting.semver setting.operator_version s.meta ≡ ok true
      → provider.is_user_supported ≡ true
      → Resolves cluster setting s.meta.namespace provider.make_clients provider.projects_of cfg p
      → is_empty_text req.spec.delete_after_date ≡ true
      → ((u : UserSim W)
          → (get_user parts_at.parsing parts_at.users req.spec.database_name req.spec.username u).0
            ≡ ok theirs)
      → ((n : String) (w : W) → (parts_at.deployments.cluster_exists n w).0 ≡ ok (known n))
      → all_known known (get_scopes req) ≡ false
      → let o = reconcile_database_user kube cluster provider setting req s in
        (o.0 ≡ done)
        × (o.1.calls ≡ atlas (gets_user req.spec.database_name req.spec.username) ∷ s.calls)
        × (o.1.meta ≡ s.meta)
  missing_scope_blocks known theirs s k v supported resolves unset found sees missing =
      let (u, same, calls, whole) = reconcile_user_reaches s k v supported resolves in
      let (returned, made, kept) =
        life_cycle_blocked parts_at (record req { project_id = p.project_id }) known sees theirs u
          (found u) unset missing in
      (
        ap (λ o. o.0) whole ∙ returned,
        ap (λ o. o.1.calls) whole
            ∙ made
            ∙ ap (λ cs. atlas (gets_user req.spec.database_name req.spec.username) ∷ cs) calls,
        ap (λ o. o.1.meta) whole ∙ kept ∙ same,
      )
