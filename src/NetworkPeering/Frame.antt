-- ===== src/NetworkPeering/Frame.antt =====
-- What the calls of the network peering controller have in common, step by step.
use mongodb_atlas_kubernetes.Base.{
  ◌≡◌, ◌⊎◌, inl, inr, String, Bool, true, false, not, Option, none, some, if◌then◌else◌,
  is_empty_text, All, ◌&&◌, concat,
}
use mongodb_atlas_kubernetes.Base.Errors.{
  GoError, plain, wrap, errors_is, peer_not_found, Answer, ok, err,
}
use mongodb_atlas_kubernetes.Base.Effect.{Effect, ◌>>=◌}
use mongodb_atlas_kubernetes.Resource.Finalizer.{set_finalizer, unset_finalizer}
use mongodb_atlas_kubernetes.Resource.Scene.{
  KubeClient, call_atlas, add_option, terminating, report, manage,
}
use mongodb_atlas_kubernetes.Resource.Frame.{OnAtlas, manage-Keeps}
use mongodb_atlas_kubernetes.NetworkContainer.Conversion.{NetworkContainer}
use mongodb_atlas_kubernetes.NetworkPeering.Conversion.{
  NetworkPeer, ConnectionSettings, has_failed, is_available, is_closing, new_network_peer,
  compare_configs, peer_to_atlas,
}
use mongodb_atlas_kubernetes.NetworkPeering.Status.{clear_peering}
use mongodb_atlas_kubernetes.NetworkPeering.Service.{
  PeeringApi, PeerCall, PeerSim, creates_peer, gets_peer, updates_peer, deletes_peer, create_peer,
  get_peer, update_peer, delete_peer, send_new, send_update, peer_in,
}
use mongodb_atlas_kubernetes.NetworkPeering.Controller.{
  PeerRequest, terminate_peer, released_or_failed, unmanage_peer, pend_peer, peer_ready_or_failed,
  peer_ready, created_or_failed, after_create, create_peering, after_update,
  update_peering_in_atlas, sync_peer, closing_or_gone, after_closing, after_delete,
  delete_peering_or_keep,
}

module _ {W : Type 0} (P : PeerCall → Type 0) (kube : KubeClient W) where
  abbrev pub KeepsPeer : {B : Type 0} → Effect (PeerSim W) B → Type 0
  KeepsPeer f = (s : PeerSim W) → All (OnAtlas P) s.calls → All (OnAtlas P) (f s).1.calls

  pub terminate_peer-Keeps :
      (reason : String) (e : GoError) → KeepsPeer (terminate_peer kube reason e)
  unfolding terminate_peer terminating report
  terminate_peer-Keeps reason e s h = h

  pend_peer-Keeps :
      (reason : String) (p : NetworkPeer) (c : NetworkContainer)
      → KeepsPeer (pend_peer kube reason p c)
  unfolding pend_peer report add_option
  pend_peer-Keeps reason p c s h = h

  pub unmanage_peer-Keeps : KeepsPeer (unmanage_peer kube)
  unfolding unmanage_peer
  unmanage_peer-Keeps s h =
      let t = (add_option clear_peering s).1 in
      after ((manage kube unset_finalizer t).0) ((manage kube unset_finalizer t).1)
        (manage-Keeps P kube unset_finalizer t (cleared s h))
    where
      cleared : KeepsPeer (add_option clear_peering)
      cleared s h = h

      after : (e : Option GoError) → KeepsPeer (released_or_failed kube e)
      after none s h = h
      after (some e) s h = terminate_peer-Keeps "AtlasFinalizerNotRemoved" e s h

  peer_ready-Keeps :
      (req : PeerRequest) (p : NetworkPeer) (c : NetworkContainer)
      → KeepsPeer (peer_ready kube req p c)
  unfolding peer_ready report add_option
  peer_ready-Keeps req p c s h =
      after ((manage kube set_finalizer s).0) ((manage kube set_finalizer s).1)
        (manage-Keeps P kube set_finalizer s h)
    where
      after : (e : Option GoError) → KeepsPeer (peer_ready_or_failed kube req p c e)
      after none s h = h
      after (some e) s h = terminate_peer-Keeps "AtlasFinalizerNotSet" e s h

  module _ (api : PeeringApi W) (req : PeerRequest) where
    pub create_peering-Keeps :
        (c : NetworkContainer)
        → ((a : ConnectionSettings) → P (creates_peer a))
        → KeepsPeer (create_peering kube api req c)
    unfolding create_peering create_peer call_atlas
    create_peering-Keeps c p s h =
        let o = send_new api req.spec (peer_to_atlas (peer_in c.id req.spec)) s in
        after o.0 o.1 (sent (peer_to_atlas (peer_in c.id req.spec)) s h)
      where
        sent : (a : Answer ConnectionSettings) → KeepsPeer (send_new api req.spec a)
        sent (err e) s h = h
        sent (ok a) s h = (p a, h)

        finished :
            (q : NetworkPeer) (e : Option GoError)
            → KeepsPeer (created_or_failed kube api req q c e)
        finished q none s h = pend_peer-Keeps "NetworkPeeringConnectionCreating" q c s h
        finished q (some e) s h = terminate_peer-Keeps "AtlasFinalizerNotSet" e s h

        after : (a : Answer NetworkPeer) → KeepsPeer (after_create kube api req c a)
        after (err e) s h =
            terminate_peer-Keeps "NetworkPeeringNotConfigured"
              (wrap "failed to create peering connection" e) s h
        after (ok q) s h =
            finished q ((manage kube set_finalizer s).0) ((manage kube set_finalizer s).1)
              (manage-Keeps P kube set_finalizer s h)

    update_peering-Keeps :
        (c : NetworkContainer)
        → ((id : String) (a : ConnectionSettings) → P (updates_peer id a))
        → KeepsPeer (update_peering_in_atlas kube api req c)
    unfolding update_peering_in_atlas update_peer call_atlas
    update_peering-Keeps c p s h =
        let a = peer_to_atlas (peer_in c.id req.spec) in
        let o = send_update api req.status_id req.spec a s in after o.0 o.1 (sent a s h)
      where
        sent :
            (a : Answer ConnectionSettings) → KeepsPeer (send_update api req.status_id req.spec a)
        sent (err e) s h = h
        sent (ok a) s h = (p req.status_id a, h)

        after : (a : Answer NetworkPeer) → KeepsPeer (after_update kube api req c a)
        after (err e) s h =
            terminate_peer-Keeps "InternalError" (wrap "failed to update peering connection" e) s h
        after (ok q) s h = pend_peer-Keeps "NetworkPeeringConnectionUpdating" q c s h

    pub sync_peer-Keeps :
        (q : NetworkPeer) (c : NetworkContainer)
        → ((id : String) (a : ConnectionSettings) → P (updates_peer id a))
        → KeepsPeer (sync_peer kube api req q c)
    unfolding sync_peer
    sync_peer-Keeps q c p s h =
        chosen (has_failed q) (not (is_available q))
          (not (compare_configs q (new_network_peer q.config.id req.spec)))
      where
        chosen :
            (failed pending different : Bool)
            → All
                (OnAtlas P)
                ((if failed
                    then terminate_peer kube "InternalError"
                        (plain (concat "peering connection failed: " q.error_message))
                    else if pending
                    then pend_peer kube "NetworkPeeringConnectionPending" q c
                    else if different
                    then update_peering_in_atlas kube api req c
                    else peer_ready kube req q c)
                  s).1.calls
        chosen true pending different =
            terminate_peer-Keeps "InternalError"
              (plain (concat "peering connection failed: " q.error_message)) s h
        chosen false true different = pend_peer-Keeps "NetworkPeeringConnectionPending" q c s h
        chosen false false true = update_peering-Keeps c p s h
        chosen false false false = peer_ready-Keeps req q c s h

    closing_or_gone-Keeps :
        (c : NetworkContainer) (o : Option NetworkPeer)
        → KeepsPeer (closing_or_gone kube api req c o)
    closing_or_gone-Keeps c none s h = unmanage_peer-Keeps s h
    closing_or_gone-Keeps c (some q) s h = pend_peer-Keeps "NetworkPeeringConnectionClosing" q c s h

    module _ (reads : (id : String) → P (gets_peer id)) where
      pub get_peer-Keeps : (id : String) → KeepsPeer (get_peer api id)
      unfolding get_peer call_atlas
      get_peer-Keeps id s h = (reads id, h)

      after_closing-Keeps :
          (c : NetworkContainer) (a : Answer NetworkPeer)
          → KeepsPeer (after_closing kube api req c a)
      after_closing-Keeps c (ok q) s h = closing_or_gone-Keeps c (some q) s h
      after_closing-Keeps c (err e) s h = chosen (errors_is e peer_not_found)
        where
          chosen :
              (gone : Bool)
              → All
                  (OnAtlas P)
                  ((if gone
                      then closing_or_gone kube api req c none
                      else terminate_peer kube "InternalError"
                          (wrap (concat "failed to get closing peer connection " req.status_id) e))
                    s).1.calls
          chosen true = closing_or_gone-Keeps c none s h
          chosen false =
              terminate_peer-Keeps "InternalError"
                (wrap (concat "failed to get closing peer connection " req.status_id) e) s h

      after_delete-Keeps :
          (c : NetworkContainer) (e : Option GoError) → KeepsPeer (after_delete kube api req c e)
      after_delete-Keeps c (some e) s h =
          terminate_peer-Keeps "InternalError"
            (wrap (concat "failed to delete peer connection " req.status_id) e) s h
      after_delete-Keeps c none s h =
          after_closing-Keeps c ((get_peer api req.status_id s).0)
            ((get_peer api req.status_id s).1) (get_peer-Keeps req.status_id s h)

      pub delete_peering_or_keep-Keeps :
          (q : NetworkPeer) (c : NetworkContainer) (keep : Bool)
          → (keep ≡ true) ⊎ P (deletes_peer req.status_id)
          → KeepsPeer (delete_peering_or_keep kube api req q c keep)
      unfolding delete_peer call_atlas
      delete_peering_or_keep-Keeps q c true p s h = unmanage_peer-Keeps s h
      delete_peering_or_keep-Keeps q c false (inl e) s h = cc
      delete_peering_or_keep-Keeps q c false (inr p) s h =
          chosen (not (is_empty_text req.status_id) && not (is_closing q))
        where
          sent : KeepsPeer (delete_peer api req.status_id)
          sent s h = (p, h)

          chosen :
              (known : Bool)
              → All
                  (OnAtlas P)
                  ((if known
                      then (do e ← delete_peer api req.status_id; after_delete kube api req c e)
                      else closing_or_gone kube api req c (some q))
                    s).1.calls
          chosen true =
              after_delete-Keeps c ((delete_peer api req.status_id s).0)
                ((delete_peer api req.status_id s).1) (sent s h)
          chosen false = closing_or_gone-Keeps c (some q) s h
