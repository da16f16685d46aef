-- ===== src/NetworkContainer/Keeping.antt =====
-- The network container's conversion and the calls of its controller.
use mongodb_atlas_kubernetes.Base.{
  ◌≡◌, ◌⊎◌, inl, inr, refl, String, Bool, true, false, not, Option, none, some, ◌∷◌, if◌then◌else◌,
  str_eq, is_some, is_empty_text, All, concat,
}
use mongodb_atlas_kubernetes.Base.Errors.{GoError, wrap, Answer, ok, err}
use mongodb_atlas_kubernetes.Base.Return.{failed}
use mongodb_atlas_kubernetes.Base.Effect.{Effect}
use mongodb_atlas_kubernetes.Workflow.Results.{terminate, reconcile_result}
use mongodb_atlas_kubernetes.Resource.Finalizer.{set_finalizer, unset_finalizer}
use mongodb_atlas_kubernetes.Resource.Policy.{is_resource_policy_keep_or_default}
use mongodb_atlas_kubernetes.Resource.Scene.{
  atlas, KubeClient, call_atlas, add_option, terminating, report, manage,
}
use mongodb_atlas_kubernetes.Resource.Frame.{OnAtlas, manage-Keeps}
use mongodb_atlas_kubernetes.NetworkContainer.Conversion.{
  NetworkContainer, set_or_nil, get_text, container_to_atlas, container_from_atlas, to_atlas_config,
  from_atlas_no_status,
}
use mongodb_atlas_kubernetes.NetworkContainer.Service.{
  NetworkContainerService, ContainerCall, creates, gets_one, finds, updates, removes,
}
use mongodb_atlas_kubernetes.NetworkContainer.Controller.{
  ContainerSim, ContainerRequest, terminate_container, unmanaged_or_failed, unmanage_container,
  container_ready_or_failed, container_ready, ready_or_terminated, create_in_atlas, update_in_atlas,
  sync, delete_in_atlas, known_id, discover_by, discover, handle_by, handle_network_container,
}

get-set_or_nil : (t : String) → get_text (set_or_nil t) ≡ t
get-set_or_nil String.[] = refl
get-set_or_nil (String.◌∷◌ c t) = refl

region_text :
    (aws : Bool) (t : String)
    → (if aws
        then get_text (if aws then set_or_nil t else none)
        else get_text (if aws then none else set_or_nil t))
      ≡ t
region_text true t = get-set_or_nil t
region_text false t = get-set_or_nil t

-- A container that is converted to Atlas and back keeps its ID, provider, region and CIDR block,
-- whichever field of Atlas its provider has for the region.
pub container_from-to_atlas :
    (c : NetworkContainer)
    → let d = container_from_atlas (container_to_atlas c) in
      (d.id ≡ c.id) × (d.config ≡ record c.config { config_id = "" })
unfolding container_from_atlas container_to_atlas to_atlas_config from_atlas_no_status
container_from-to_atlas c = (get-set_or_nil c.id, simp (get-set_or_nil, region_text))

module _ {W : Type 0} (P : ContainerCall → Type 0) (kube : KubeClient W) where
  abbrev KeepsC : {B : Type 0} → Effect (ContainerSim W) B → Type 0
  KeepsC f = (s : ContainerSim W) → All (OnAtlas P) s.calls → All (OnAtlas P) (f s).1.calls

  terminate_container-Keeps :
      (reason : String) (e : GoError) → KeepsC (terminate_container kube reason e)
  unfolding terminate_container terminating report
  terminate_container-Keeps reason e s h = h

  unmanage_container-Keeps : KeepsC (unmanage_container kube)
  unfolding unmanage_container
  unmanage_container-Keeps s h =
      after ((manage kube unset_finalizer s).0) ((manage kube unset_finalizer s).1)
        (manage-Keeps P kube unset_finalizer s h)
    where
      after : (e : Option GoError) → KeepsC (unmanaged_or_failed kube e)
      after none s h = h
      after (some e) s h = terminate_container-Keeps "AtlasFinalizerNotRemoved" e s h

  container_ready-Keeps :
      (req : ContainerRequest) (c : NetworkContainer) → KeepsC (container_ready kube req c)
  unfolding container_ready report add_option
  container_ready-Keeps req c s h =
      after ((manage kube set_finalizer s).0) ((manage kube set_finalizer s).1)
        (manage-Keeps P kube set_finalizer s h)
    where
      after : (e : Option GoError) → KeepsC (container_ready_or_failed kube req c e)
      after none s h = h
      after (some e) s h = terminate_container-Keeps "AtlasFinalizerNotSet" e s h

  module _ (service : NetworkContainerService W) (req : ContainerRequest) where
    ready_or_terminated-Keeps :
        (msg : String) (a : Answer NetworkContainer)
        → KeepsC (ready_or_terminated kube service req msg a)
    ready_or_terminated-Keeps msg (ok c) s h = container_ready-Keeps req c s h
    ready_or_terminated-Keeps msg (err e) s h =
        terminate_container-Keeps "NetworkContainerNotConfigured" (wrap msg e) s h

    create_in_atlas-Keeps : P (creates req.spec) → KeepsC (create_in_atlas kube service req)
    unfolding create_in_atlas call_atlas
    create_in_atlas-Keeps p s h =
        ready_or_terminated-Keeps "failed to create container"
          (service.create_container req.spec s.world).0
          ((call_atlas (creates req.spec) (service.create_container req.spec) s).1) (p, h)

    sync-Keeps :
        (c : NetworkContainer) → P (updates c.id req.spec) → KeepsC (sync kube service req c)
    unfolding sync update_in_atlas call_atlas
    sync-Keeps c p s h = chosen (not (str_eq req.spec.cidr_block c.config.cidr_block))
      where
        chosen :
            (b : Bool)
            → All
                (OnAtlas P)
                ((if b then update_in_atlas kube service req c.id else container_ready kube req c)
                  s).1.calls
        chosen true =
            ready_or_terminated-Keeps "failed to update container"
              (service.update_container c.id req.spec s.world).0
              ((call_atlas (updates c.id req.spec) (service.update_container c.id req.spec) s).1)
              (p, h)
        chosen false = container_ready-Keeps req c s h

    discover_by-Keeps :
        (id : String) (b : Bool)
        → P (gets_one id)
        → P (finds req.spec)
        → KeepsC (discover_by kube service req id b)
    unfolding call_atlas
    discover_by-Keeps id true p q s h = (q, h)
    discover_by-Keeps id false p q s h = (p, h)

-- Every call but the deletion of a container.
abbrev pub IsNoRemoval : ContainerCall → Type 0
IsNoRemoval (removes id) = ⊥
IsNoRemoval (creates cfg) = Unit
IsNoRemoval (gets_one id) = Unit
IsNoRemoval (finds cfg) = Unit
IsNoRemoval (updates id cfg) = Unit

module _ {W : Type 0} (kube : KubeClient W) (service : NetworkContainerService W)
    (req : ContainerRequest) where
  found-Keeps :
      (a : Answer (Option NetworkContainer)) (deleted : Bool) (s : ContainerSim W)
      → (deleted ≡ false)
        ⊎ (is_resource_policy_keep_or_default s.meta req.object_deletion_protection ≡ true)
      → All (OnAtlas IsNoRemoval) s.calls
      → All (OnAtlas IsNoRemoval) (handle_by kube service req a deleted s).1.calls
  unfolding delete_in_atlas
  found-Keeps (err e) deleted s k h =
      terminate_container-Keeps IsNoRemoval kube "NetworkContainerNotConfigured" e s h
  found-Keeps (ok none) false s k h = create_in_atlas-Keeps IsNoRemoval kube service req tt s h
  found-Keeps (ok (some c)) false s k h = sync-Keeps IsNoRemoval kube service req c tt s h
  found-Keeps (ok none) true s k h = unmanage_container-Keeps IsNoRemoval kube s h
  found-Keeps (ok (some c)) true s (inl e) h = cc
  found-Keeps (ok (some c)) true s (inr e) h = rw e (unmanage_container-Keeps IsNoRemoval kube s h)

  discover_by-meta :
      (id : String) (b : Bool) (s : ContainerSim W)
      → (discover_by kube service req id b s).1.meta ≡ s.meta
  unfolding call_atlas
  discover_by-meta id true s = refl
  discover_by-meta id false s = refl

  -- If the resource has no deletion timestamp, or the resource policy annotation, or without it the
  -- deletion protection, says to keep it, then a reconciliation does not delete a container in
  -- Atlas. It is assumed of the calls before it.
  pub kept_in_atlas :
      (s : ContainerSim W)
      → (is_some s.meta.deletion_timestamp ≡ false)
        ⊎ (is_resource_policy_keep_or_default s.meta req.object_deletion_protection ≡ true)
      → All (OnAtlas IsNoRemoval) s.calls
      → All (OnAtlas IsNoRemoval) (handle_network_container kube service req s).1.calls
  unfolding handle_network_container discover
  kept_in_atlas s k h =
      let id = known_id kube service req in
      let o = discover_by kube service req id (is_empty_text id) s in
      let same = discover_by-meta id (is_empty_text id) s in
      found-Keeps o.0 (is_some o.1.meta.deletion_timestamp) o.1 (rw same k)
        (discover_by-Keeps IsNoRemoval kube service req id (is_empty_text id) tt tt s h)

  -- If an ID of the container is known and Atlas does not answer its container, be it because it is
  -- gone, then the reconciliation fails with that error after this one call, and the resource keeps
  -- its finalizers, whether or not it is being deleted.
  pub missing_container_fails :
      (s : ContainerSim W) (id : String) (e : GoError)
      → known_id kube service req ≡ id
      → is_empty_text id ≡ false
      → (service.get_container id s.world).0 ≡ err e
      → let o = handle_network_container kube service req s in
        (o.0
          ≡ failed (
              wrap
                (concat "failed to get container "
                  (concat id (concat " from project " req.project_id)))
                e))
        × (o.1.meta ≡ s.meta)
        × (o.1.calls ≡ atlas (gets_one id) ∷ s.calls)
  unfolding handle_network_container discover call_atlas terminate_container terminating report
      terminate reconcile_result
  missing_container_fails s id e k n g = rw (k, n, g) (refl, refl, refl)
