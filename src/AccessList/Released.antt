-- ===== src/AccessList/Released.antt =====
-- When a whole reconciliation of an access list gives the finalizer up.
use mongodb_atlas_kubernetes.Base.{
  ◌≡◌, ◌⊎◌, ◌∙◌, inl, inr, refl, ap, ℕ, String, Bool, true, false, Option, none, some,
}
use mongodb_atlas_kubernetes.Base.Errors.{GoError, Answer, ok, err}
use mongodb_atlas_kubernetes.Base.Return.{Return, failed}
use mongodb_atlas_kubernetes.Workflow.Conditions.{ready_type}
use mongodb_atlas_kubernetes.Workflow.Results.{is_ok, terminate, reconcile_result, ok_result}
use mongodb_atlas_kubernetes.Resource.Policy.{
  resource_version_is_valid, reconciliation_should_be_skipped,
}
use mongodb_atlas_kubernetes.Resource.Prepare.{judged, validate_resource_version}
use mongodb_atlas_kubernetes.Resource.Scene.{KubeClient, report, terminating}
use mongodb_atlas_kubernetes.Reconciler.Outcomes.{invalidate, unsupport}
use mongodb_atlas_kubernetes.Reconciler.Project.{Project, Cluster, resolve_project}
use mongodb_atlas_kubernetes.Reconciler.Credentials.{ConnectionConfig, resolve_connection_config}
use mongodb_atlas_kubernetes.AccessList.Controller.{Sim, fail}
use mongodb_atlas_kubernetes.AccessList.Deletion.{Emptied, handle_outcome}
use mongodb_atlas_kubernetes.AccessList.Reconcile.{
  AtlasProvider, Setting, in_project, with_client, with_config, supported_or_not, valid_or_not,
  handle_custom_resource,
}

module _ {W V : Type 0} (kube : KubeClient W) (cluster : Cluster W) (provider : AtlasProvider W)
    (setting : Setting V) (s : Sim W) where
  -- The resource is as it was, and there is an error unless the Atlas domain does not support it.
  abbrev pub IsKept : Return × Sim W → Type 0
  IsKept o =
      (o.1.meta ≡ s.meta)
      × ((provider.is_resource_supported ≡ false) ⊎ ((f : GoError) × (o.0 ≡ failed f)))

  -- From the state `u` on, before which nothing was called, all entries were deleted.
  abbrev pub IsEmptied : Return × Sim W → Type 0
  IsEmptied o =
      (cfg : ConnectionConfig) × (id : String) × (u : Sim W) × (u.meta ≡ s.meta)
      × (u.calls ≡ s.calls)
      × Emptied kube (provider.access_lists cfg id) u o

  abbrev Outcome : Return × Sim W → Type 0
  Outcome o = IsKept o ⊎ IsEmptied o

  abbrev IsSame : Sim W → Type 0
  IsSame u = (u.meta ≡ s.meta) × (u.calls ≡ s.calls)

  module _ (t : ℕ) (d : s.meta.deletion_timestamp ≡ some t) where
    fail_outcome :
        (condition reason : String) (e : GoError) (u : Sim W)
        → IsSame u
        → Outcome (fail kube condition reason e u)
    unfolding fail terminating report terminate reconcile_result
    fail_outcome condition reason e u (same, calls) = inl (same, inr (e, refl))

    in_project_outcome :
        (cfg : ConnectionConfig) (a : Answer Project) (u : Sim W)
        → IsSame u
        → Outcome (in_project kube cluster provider setting cfg a u)
    in_project_outcome cfg (err e) u h = fail_outcome ready_type "AtlasAPIAccessNotConfigured" e u h
    in_project_outcome cfg (ok p) u (same, calls) =
        let id = p.project_id in
        let handled =
          handle_outcome kube (provider.access_lists cfg id) setting.net setting.request u t
            (ap (λ r. r.deletion_timestamp) same ∙ d) in
        elim handled [
          | inl (e, failure, kept) ↦ inl (kept ∙ same, inr (e, failure))
          | inr emptied ↦ inr (cfg, id, u, same, calls, emptied)
        ]

    with_client_outcome :
        (cfg : ConnectionConfig) (e : Option GoError) (u : Sim W)
        → IsSame u
        → Outcome (with_client kube cluster provider setting cfg s.meta e u)
    with_client_outcome cfg (some e) u h =
        fail_outcome ready_type "AtlasAPIAccessNotConfigured" e u h
    with_client_outcome cfg none u h =
        in_project_outcome cfg
          ((resolve_project cluster (provider.projects cfg) s.meta.namespace setting.reference
            u.world).0)
          _ h

    with_config_outcome :
        (a : Answer ConnectionConfig) (u : Sim W)
        → IsSame u
        → Outcome (with_config kube cluster provider setting s.meta a u)
    with_config_outcome (err e) u h = fail_outcome ready_type "AtlasAPIAccessNotConfigured" e u h
    with_config_outcome (ok cfg) u h =
        with_client_outcome cfg ((provider.sdk_client_set cfg u.world).0) _ h

    supported_outcome :
        (b : Bool) (u : Sim W)
        → provider.is_resource_supported ≡ b
        → IsSame u
        → Outcome (supported_or_not kube cluster provider setting s.meta b u)
    unfolding unsupport terminating report
    supported_outcome false u p (same, calls) = inl (same, inl p)
    supported_outcome true u p h =
        with_config_outcome
          ((resolve_connection_config cluster setting.global_secret s.meta.namespace
            setting.connection_secret setting.reference u.world).0)
          _ h

    judged_outcome :
        (a : Answer Bool) (u : Sim W)
        → IsSame u
        → let v = judged kube setting.semver setting.operator_version s.meta a u in
          Outcome (valid_or_not kube cluster provider setting s.meta v.0 (is_ok v.0) v.1)
    unfolding terminating report terminate is_ok invalidate reconcile_result ok_result
    judged_outcome (err e) u (same, calls) = inl (same, inr (e, refl))
    judged_outcome (ok false) u (same, calls) = inl (same, inr (_, refl))
    judged_outcome (ok true) u h = supported_outcome provider.is_resource_supported _ refl h

    -- A whole reconciliation of a resource that has a deletion timestamp and is not skipped leaves
    -- the resource as it is, with an error unless the Atlas domain does not support it; or it has
    -- first listed the entries in Atlas and deleted every one of them, in order and with no other
    -- call, before it does what is left to do: giving the finalizer up.
    pub released_after_deletes :
        reconciliation_should_be_skipped s.meta ≡ false
        → IsKept (handle_custom_resource kube cluster provider setting s)
          ⊎ IsEmptied (handle_custom_resource kube cluster provider setting s)
    unfolding handle_custom_resource validate_resource_version report
    released_after_deletes k = rw k (
        judged_outcome (resource_version_is_valid setting.semver setting.operator_version s.meta) _
          (refl, refl))
