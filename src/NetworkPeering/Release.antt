-- ===== src/NetworkPeering/Release.antt =====
-- What becomes of a network peering that Atlas does not know any more.
use mongodb_atlas_kubernetes.Base.{
  ◌≡◌, ◌∙◌, refl, ap, String, true, false, some, [], ◌∷◌, is_some, is_empty_text,
}
use mongodb_atlas_kubernetes.Base.Errors.{GoError, ok, err}
use mongodb_atlas_kubernetes.Base.Return.{Return, done}
use mongodb_atlas_kubernetes.Workflow.Results.{deleted_result, ok_result, reconcile_result}
use mongodb_atlas_kubernetes.Resource.Finalizer.{finalizer_label}
use mongodb_atlas_kubernetes.Resource.Giving.{TakesPatch, unset_one}
use mongodb_atlas_kubernetes.Resource.Scene.{
  KubeClient, call_atlas, add_option, patch_finalizers, atlas,
}
use mongodb_atlas_kubernetes.Resource.Policy.{
  resource_version_is_valid, reconciliation_should_be_skipped,
}
use mongodb_atlas_kubernetes.Reconciler.Project.{Project, Cluster}
use mongodb_atlas_kubernetes.Reconciler.Credentials.{ConnectionConfig}
use mongodb_atlas_kubernetes.Reconciler.Passage.{PassageSetting}
use mongodb_atlas_kubernetes.Reconciler.Reaching.{Resolves, run_passage_reaches}
use mongodb_atlas_kubernetes.NetworkContainer.Conversion.{NetworkContainer}
use mongodb_atlas_kubernetes.NetworkContainer.Service.{NetworkContainerService}
use mongodb_atlas_kubernetes.NetworkPeering.Status.{clear_peering}
use mongodb_atlas_kubernetes.NetworkPeering.Service.{
  PeeringApi, PeerSim, gets_peer, gets_container, get_peer,
}
use mongodb_atlas_kubernetes.NetworkPeering.Controller.{
  PeerRequest, ReadContainer, unmanage_peer, peer_id, already_removed, get_container,
  handle_peering,
}
use mongodb_atlas_kubernetes.NetworkPeering.Reconcile.{
  PeeringProvider, peering_passage, handle_peering_resource,
}

module _ {W : Type 0} (kube : KubeClient W) (takes : TakesPatch kube) where
  abbrev Released : PeerSim W → Return × PeerSim W → Type 0
  Released s o =
      (o.0 ≡ done)
      × (o.1.meta.finalizers ≡ some [])
      × (o.1.calls ≡ patch_finalizers (some []) ∷ s.calls)

  unmanage_peer_lem :
      (s : PeerSim W)
      → s.meta.finalizers ≡ some (finalizer_label ∷ [])
      → Released s (unmanage_peer kube s)
  unfolding unmanage_peer add_option deleted_result ok_result reconcile_result
  unmanage_peer_lem s h =
      let (unset, gone, sent) = unset_one kube takes (add_option clear_peering s).1 h in
      rw unset (refl, gone, sent)

  module _ (api : PeeringApi W) (req : PeerRequest) (containers : NetworkContainerService W)
      (read : ReadContainer W) where
    -- handle, of a resource that is being deleted.
    handle_gone_peer :
        (s : PeerSim W) (c : NetworkContainer) (w w' : W) (e : GoError)
        → is_some s.meta.deletion_timestamp ≡ true
        → s.meta.finalizers ≡ some (finalizer_label ∷ [])
        → is_empty_text req.container_ref_id ≡ false
        → containers.get_container req.container_ref_id s.world ≡ (ok c, w)
        → is_empty_text (peer_id kube api req) ≡ false
        → api.get_group_peer (peer_id kube api req) w ≡ (err e, w')
        → api.is_error_code e "PEER_NOT_FOUND" ≡ true
        → let o = handle_peering kube api req containers read s in
          (o.0 ≡ done)
          × (o.1.meta.finalizers ≡ some [])
          × (o.1.calls
              ≡ patch_finalizers (some [])
                ∷ atlas (gets_peer (peer_id kube api req))
                ∷ atlas (gets_container req.container_ref_id)
                ∷ s.calls)
    unfolding handle_peering get_container get_peer call_atlas already_removed
    handle_gone_peer s c w w' e d f k g n p q =
        rw (k, g, d, n, p, q)
          (unmanage_peer_lem
            (record s {
              world = w';
              calls =
                  atlas (gets_peer (peer_id kube api req))
                  ∷ atlas (gets_container req.container_ref_id)
                  ∷ s.calls;
            })
            f)

module _ {W V : Type 0} (kube : KubeClient W) (takes : TakesPatch kube) (cluster : Cluster W)
    (read : ReadContainer W) (provider : PeeringProvider W) (setting : PassageSetting V)
    (req : PeerRequest) (cfg : ConnectionConfig) (p : Project) where
  abbrev pub api_of : PeeringApi W
  api_of = provider.peerings cfg p.project_id

  abbrev pub id_of : String
  id_of = peer_id kube api_of req

  -- If a resource is not skipped, has a valid version and is supported, and its credentials, its
  -- client set and its project are there at every call; if it is being deleted, has only the
  -- operator's finalizer, names its container by the ID, which Atlas answers, and has a known ID of
  -- which Atlas answers that there is no such peer; then the whole reconciliation gives the
  -- finalizer up, if the cluster takes the patch, with no call but the two reads and that patch, and
  -- ends without an error or a wait.
  pub gone_peer_released :
      (s : PeerSim W) (c : NetworkContainer) (e : GoError)
      → reconciliation_should_be_skipped s.meta ≡ false
      → resource_version_is_valid setting.semver setting.operator_version s.meta ≡ ok true
      → provider.is_peering_supported ≡ true
      → Resolves cluster setting s.meta.namespace provider.make_client_set provider.project_service
          cfg p
      → is_some s.meta.deletion_timestamp ≡ true
      → s.meta.finalizers ≡ some (finalizer_label ∷ [])
      → is_empty_text req.container_ref_id ≡ false
      → ((w : W)
          → ((provider.peer_containers cfg p.project_id).get_container req.container_ref_id w).0
            ≡ ok c)
      → is_empty_text id_of ≡ false
      → ((w : W) → (api_of.get_group_peer id_of w).0 ≡ err e)
      → api_of.is_error_code e "PEER_NOT_FOUND" ≡ true
      → let o = handle_peering_resource kube cluster read provider setting req s in
        (o.0 ≡ done)
        × (o.1.meta.finalizers ≡ some [])
        × (o.1.calls
            ≡ patch_finalizers (some [])
              ∷ atlas (gets_peer id_of)
              ∷ atlas (gets_container req.container_ref_id)
              ∷ s.calls)
  unfolding handle_peering_resource
  gone_peer_released s c e k v supported resolves d f g found n gone code =
      let (u, same, calls, whole) =
        run_passage_reaches kube cluster setting
          (peering_passage kube cluster read provider setting req) s cfg p k v supported resolves in
      let containers = provider.peer_containers cfg p.project_id in
      let w = (containers.get_container req.container_ref_id u.world).1 in
      let w' = (api_of.get_group_peer id_of w).1 in
      let (returned, finalizers, made) =
        handle_gone_peer kube takes api_of req containers read u c w w' e
          (ap (λ r. is_some r.deletion_timestamp) same ∙ d) (ap (λ r. r.finalizers) same ∙ f) g
          (λ i. (found u.world i, w)) n (λ i. (gone w i, w')) code in
      (
        ap (λ o. o.0) whole ∙ returned,
        ap (λ o. o.1.meta.finalizers) whole ∙ finalizers,
        ap (λ o. o.1.calls) whole
            ∙ made
            ∙ ap
                (λ cs.
                  patch_finalizers (some [])
                  ∷ atlas (gets_peer id_of)
                  ∷ atlas (gets_container req.container_ref_id)
                  ∷ cs)
                calls,
      )
