-- ===== src/NetworkContainer/Release.antt =====
-- What becomes of a network container whose AtlasProject is gone.
use mongodb_atlas_kubernetes.Base.{◌≡◌, ◌∙◌, refl, ap, String, true, false, none, some, [], ◌∷◌}
use mongodb_atlas_kubernetes.Base.Errors.{
  GoError, sentinel, wrap, joined, errors_is, object_not_found, missing_kube_project, Answer, ok,
  err,
}
use mongodb_atlas_kubernetes.Base.Return.{failed}
use mongodb_atlas_kubernetes.Workflow.Conditions.{resource_version_status}
use mongodb_atlas_kubernetes.Workflow.Context.{set_condition_true}
use mongodb_atlas_kubernetes.Workflow.Results.{is_ok, ok_result, terminate, reconcile_result}
use mongodb_atlas_kubernetes.Resource.Finalizer.{finalizer_label}
use mongodb_atlas_kubernetes.Resource.Giving.{TakesPatch, unset_one}
use mongodb_atlas_kubernetes.Resource.Policy.{
  resource_version_is_valid, reconciliation_should_be_skipped,
}
use mongodb_atlas_kubernetes.Resource.Prepare.{judged, validate_resource_version}
use mongodb_atlas_kubernetes.Resource.Scene.{KubeClient, report, terminating}
use mongodb_atlas_kubernetes.Reconciler.Project.{
  kube_project, Cluster, project_key, fetch_project, fetch_kube_project, KubeProject, read_project,
  found_project,
}
use mongodb_atlas_kubernetes.Reconciler.Credentials.{
  ConnectionConfig, by_project, resolve_connection_config,
}
use mongodb_atlas_kubernetes.NetworkContainer.Controller.{
  ContainerSim, joined_error, terminate_container, release,
}
use mongodb_atlas_kubernetes.NetworkContainer.Reconcile.{
  ContainerProvider, ContainerSetting, container_supported_or_not, container_valid_or_not,
  container_skipped_or_not, container_with_config, start_container_context,
  handle_container_resource,
}

module _ {W : Type 0} (kube : KubeClient W) (takes : TakesPatch kube) where
  release_missing :
      (e : GoError) (s : ContainerSim W)
      → s.meta.finalizers ≡ some (finalizer_label ∷ [])
      → errors_is e missing_kube_project ≡ true
      → ((release kube e s).0 ≡ failed e) × ((release kube e s).1.meta.finalizers ≡ some [])
  unfolding release terminate_container terminating terminate reconcile_result report
  release_missing e s h m =
      let (unset, gone, sent) = unset_one kube takes s h in
      rw m (ap (λ f. failed (joined_error kube e f)) unset, gone)

module _ {W V : Type 0} (kube : KubeClient W) (cluster : Cluster W) (provider : ContainerProvider W)
    (setting : ContainerSetting V) (s : ContainerSim W) where
  -- A resource that is not skipped, has a valid version and is supported gets as far as its
  -- credentials.
  reaches_credentials :
      reconciliation_should_be_skipped s.meta ≡ false
      → resource_version_is_valid setting.semver setting.operator_version s.meta ≡ ok true
      → provider.is_container_supported ≡ true
      → (t : ContainerSim W) × (t.meta ≡ s.meta)
        × (handle_container_resource kube cluster provider setting s
            ≡ container_supported_or_not kube cluster provider setting s.meta true t)
  unfolding handle_container_resource validate_resource_version report is_ok ok_result
  reaches_credentials k v p =
      let s0 = (start_container_context kube cluster provider setting s).1 in
      let t = (report kube (set_condition_true resource_version_status) s0).1 in
      (
        t,
        refl,
        ap (λ b. container_skipped_or_not kube cluster provider setting s.meta b s) k
            ∙ ap
                (λ a.
                  let v = judged kube setting.semver setting.operator_version s.meta a s0 in
                  container_valid_or_not kube cluster provider setting s.meta v.0 (is_ok v.0) v.1)
                v
            ∙ ap (λ b. container_supported_or_not kube cluster provider setting s.meta b t) p,
      )

  -- If a network container is not skipped, has a valid version, is supported, has no connection
  -- secret and only the operator's finalizer, the cluster answers that the AtlasProject it names is
  -- not found, and takes the patch of its finalizers, then the reconciliation fails with an error
  -- that is ErrMissingKubeProject, and the finalizer is given up, whether or not the resource is
  -- being deleted.
  pub released_without_project :
      (namespace name : String) (e : GoError)
      → reconciliation_should_be_skipped s.meta ≡ false
      → resource_version_is_valid setting.semver setting.operator_version s.meta ≡ ok true
      → provider.is_container_supported ≡ true
      → setting.connection_secret ≡ none
      → setting.reference ≡ kube_project namespace name
      → ((w : W)
          → (cluster.get_project (project_key cluster s.meta.namespace namespace name) w).0 ≡ err e)
      → errors_is e object_not_found ≡ true
      → s.meta.finalizers ≡ some (finalizer_label ∷ [])
      → TakesPatch kube
      → let o = handle_container_resource kube cluster provider setting s in
        (f : GoError) × (o.0 ≡ failed f)
        × (errors_is f missing_kube_project ≡ true)
        × (o.1.meta.finalizers ≡ some [])
  unfolding resolve_connection_config fetch_project fetch_kube_project
  released_without_project namespace name e k v p c r missing n h takes =
      let (t, same, reached) = reaches_credentials k v p in
      let f = wrap "error resolving project reference" (joined (sentinel missing_kube_project) e) in
      let u = record t {
        world =
            (cluster.get_project (project_key cluster s.meta.namespace namespace name) t.world).1;
      } in
      let (failure, gone) = release_missing kube takes f u (ap (λ m. m.finalizers) same ∙ h) refl in
      let step = λ (x : Answer ConnectionConfig × W).
        container_with_config kube cluster provider setting s.meta x.0 (record t { world = x.1 }) in
      let whole = reached ∙ ap step (resolved t.world) in
      (f, ap (λ o. o.0) whole ∙ failure, refl, ap (λ o. o.1.meta.finalizers) whole ∙ gone)
    where
      answer : Answer KubeProject × W → Answer ConnectionConfig × W
      answer x =
          by_project cluster setting.global_secret (found_project cluster (read_project cluster x))

      resolved :
          (w : W)
          → resolve_connection_config cluster setting.global_secret s.meta.namespace
              setting.connection_secret setting.reference w
            ≡ (
              err (
                  wrap "error resolving project reference"
                    (joined (sentinel missing_kube_project) e)),
              (cluster.get_project (project_key cluster s.meta.namespace namespace name) w).1,
            )
      resolved w =
          rw (c, r)
            (ap
                (λ a. answer (
                  a,
                  (cluster.get_project (project_key cluster s.meta.namespace namespace name) w).1,
                ))
                (missing w)
              ∙ rw n refl)
