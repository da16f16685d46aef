-- ===== src/AccessList/Passage.antt =====
-- The way of a reconciliation through validation, credentials and project to the access list.
use mongodb_atlas_kubernetes.Base.{
  ◌≡◌, refl, sym, subst, String, Bool, true, false, Option, none, some, is_some, All,
}
use mongodb_atlas_kubernetes.Base.Errors.{GoError, Answer, ok, err}
use mongodb_atlas_kubernetes.Base.Effect.{Effect}
use mongodb_atlas_kubernetes.Workflow.Conditions.{ready_type}
use mongodb_atlas_kubernetes.Workflow.Results.{DeprecatedResult, is_ok, terminate}
use mongodb_atlas_kubernetes.Resource.Meta.{Meta}
use mongodb_atlas_kubernetes.Resource.Policy.{
  resource_version_is_valid, reconciliation_should_be_skipped,
}
use mongodb_atlas_kubernetes.Resource.Prepare.{judged, validate_resource_version}
use mongodb_atlas_kubernetes.Resource.Finalizer.{unset_finalizer}
use mongodb_atlas_kubernetes.Resource.Scene.{KubeClient, terminating, report, manage}
use mongodb_atlas_kubernetes.Resource.Frame.{OnAtlas, manage-Keeps}
use mongodb_atlas_kubernetes.Reconciler.Outcomes.{
  invalidate, skipped_or_failed, skip_by, skip_resource, unsupport,
}
use mongodb_atlas_kubernetes.Reconciler.Project.{Project, Cluster, resolve_project}
use mongodb_atlas_kubernetes.Reconciler.Credentials.{ConnectionConfig, resolve_connection_config}
use mongodb_atlas_kubernetes.AccessList.Service.{ServiceCall}
use mongodb_atlas_kubernetes.AccessList.Controller.{Sim, handle_ip_access_list}
use mongodb_atlas_kubernetes.AccessList.Safety.{fail-Keeps}
use mongodb_atlas_kubernetes.AccessList.Reconcile.{
  AtlasProvider, Setting, reading, in_project, with_client, with_config, supported_or_not,
  valid_or_not, start_context, skipped_or_not, handle_custom_resource,
}

module _ {W V : Type 0} (P : ServiceCall → Type 0) (kube : KubeClient W) (cluster : Cluster W)
    (provider : AtlasProvider W) (setting : Setting V) where
  abbrev KeepsW : {B : Type 0} → Effect (Sim W) B → Type 0
  KeepsW f = (s : Sim W) → All (OnAtlas P) s.calls → All (OnAtlas P) (f s).1.calls

  skip_resource-Keeps : KeepsW (skip_resource kube)
  unfolding skip_resource terminating
  skip_resource-Keeps s h = by (is_some s.meta.deletion_timestamp)
    where
      after :
          (e : Option GoError) (t : Sim W)
          → All (OnAtlas P) t.calls
          → All (OnAtlas P) (skipped_or_failed kube e t).1.calls
      after none t g = g
      after (some e) t g = g

      by : (b : Bool) → All (OnAtlas P) (skip_by kube b s).1.calls
      by false = h
      by true =
          after ((manage kube unset_finalizer s).0) ((manage kube unset_finalizer s).1)
            (manage-Keeps P kube unset_finalizer s h)

  -- The validation of the version makes no call and leaves the resource as it is.
  abbrev IsFramed : Sim W → Answer Bool → DeprecatedResult × Sim W → Type 0
  IsFramed s a o = (o.1.meta ≡ s.meta) × (o.1.calls ≡ s.calls) × (is_ok o.0 ≡ true → a ≡ ok true)

  judged_frame :
      (s : Sim W) (r : Meta) (a : Answer Bool)
      → IsFramed s a (judged kube setting.semver setting.operator_version r a s)
  unfolding report terminating terminate is_ok
  judged_frame s r (ok true) = (refl, refl, λ h. refl)
  judged_frame s r (ok false) = (refl, refl, λ h. cc)
  judged_frame s r (err e) = (refl, refl, λ h. cc)

  validate_frame :
      (s : Sim W)
      → IsFramed s
          (resource_version_is_valid setting.semver setting.operator_version s.meta)
          (validate_resource_version kube setting.semver setting.operator_version s)
  unfolding validate_resource_version
  validate_frame s =
      judged_frame s s.meta
        (resource_version_is_valid setting.semver setting.operator_version s.meta)

  unsupport-Keeps : (name : String) → KeepsW (unsupport kube name)
  unfolding unsupport terminating report
  unsupport-Keeps name s h = h

  -- From the client on: the state has the resource of `m`, and `reach` handles its access list.
  module _ (m : Meta)
      (reach : (cfg : ConnectionConfig) (id : String) (t : Sim W)
        → t.meta ≡ m
        → All (OnAtlas P) t.calls
        → All
            (OnAtlas P)
            (handle_ip_access_list kube
              (provider.access_lists cfg id)
              setting.net
              setting.request
              t).1.calls) where
    in_project-Keeps :
        (cfg : ConnectionConfig) (p : Answer Project) (t : Sim W)
        → t.meta ≡ m
        → All (OnAtlas P) t.calls
        → All (OnAtlas P) (in_project kube cluster provider setting cfg p t).1.calls
    in_project-Keeps cfg (ok p) t e h = reach cfg p.project_id t e h
    in_project-Keeps cfg (err f) t e h =
        fail-Keeps P kube ready_type "AtlasAPIAccessNotConfigured" f t h

    with_client-Keeps :
        (cfg : ConnectionConfig) (r : Meta) (f : Option GoError) (t : Sim W)
        → t.meta ≡ m
        → All (OnAtlas P) t.calls
        → All (OnAtlas P) (with_client kube cluster provider setting cfg r f t).1.calls
    with_client-Keeps cfg r (some f) t e h =
        fail-Keeps P kube ready_type "AtlasAPIAccessNotConfigured" f t h
    with_client-Keeps cfg r none t e h =
        let o =
          reading (resolve_project cluster (provider.projects cfg) r.namespace setting.reference)
            t in
        in_project-Keeps cfg o.0 o.1 e h

    with_config-Keeps :
        (r : Meta) (c : Answer ConnectionConfig) (t : Sim W)
        → t.meta ≡ m
        → All (OnAtlas P) t.calls
        → All (OnAtlas P) (with_config kube cluster provider setting r c t).1.calls
    with_config-Keeps r (err f) t e h =
        fail-Keeps P kube ready_type "AtlasAPIAccessNotConfigured" f t h
    with_config-Keeps r (ok cfg) t e h =
        let o = reading (provider.sdk_client_set cfg) t in with_client-Keeps cfg r o.0 o.1 e h

    supported-Keeps :
        (r : Meta) (b : Bool) (t : Sim W)
        → t.meta ≡ m
        → All (OnAtlas P) t.calls
        → All (OnAtlas P) (supported_or_not kube cluster provider setting r b t).1.calls
    supported-Keeps r false t e h = unsupport-Keeps "AtlasIPAccessList" t h
    supported-Keeps r true t e h =
        let o =
          reading
            (resolve_connection_config cluster setting.global_secret r.namespace
              setting.connection_secret setting.reference)
            t in
        with_config-Keeps r o.0 o.1 e h

  -- A reconciliation keeps to `P` if handling the access list does, where it gets that far.
  pub whole-Keeps :
      (s : Sim W)
      → (reconciliation_should_be_skipped s.meta ≡ false
          → resource_version_is_valid setting.semver setting.operator_version s.meta ≡ ok true
          → provider.is_resource_supported ≡ true
          → (cfg : ConnectionConfig) (id : String) (t : Sim W) → t.meta ≡ s.meta
          → All (OnAtlas P) t.calls
          → All
              (OnAtlas P)
              (handle_ip_access_list kube
                (provider.access_lists cfg id)
                setting.net
                setting.request
                t).1.calls)
      → All (OnAtlas P) s.calls
      → All (OnAtlas P) (handle_custom_resource kube cluster provider setting s).1.calls
  unfolding handle_custom_resource invalidate report
  whole-Keeps s reach h = skipped (reconciliation_should_be_skipped s.meta) refl
    where
      s0 : Sim W
      s0 = (start_context kube cluster provider setting s).1

      v : DeprecatedResult × Sim W
      v = validate_resource_version kube setting.semver setting.operator_version s0

      frame :
          IsFramed s0 (resource_version_is_valid setting.semver setting.operator_version s.meta) v
      frame = validate_frame s0

      kept : All (OnAtlas P) v.1.calls
      kept = subst (All (OnAtlas P)) (sym frame.1) h

      supported :
          reconciliation_should_be_skipped s.meta ≡ false
          → is_ok v.0 ≡ true
          → (b : Bool) → provider.is_resource_supported ≡ b
          → All (OnAtlas P) (supported_or_not kube cluster provider setting s.meta b v.1).1.calls
      supported k e false q = unsupport-Keeps "AtlasIPAccessList" v.1 kept
      supported k e true q =
          supported-Keeps s.meta (reach k (frame.2 e) q) s.meta true v.1 frame.0 kept

      valid :
          reconciliation_should_be_skipped s.meta ≡ false
          → (b : Bool) → is_ok v.0 ≡ b
          → All (OnAtlas P) (valid_or_not kube cluster provider setting s.meta v.0 b v.1).1.calls
      valid k false e = kept
      valid k true e = supported k e (provider.is_resource_supported) refl

      skipped :
          (b : Bool)
          → reconciliation_should_be_skipped s.meta ≡ b
          → All (OnAtlas P) (skipped_or_not kube cluster provider setting s.meta b s).1.calls
      skipped true k = skip_resource-Keeps s h
      skipped false k = valid k (is_ok v.0) refl
