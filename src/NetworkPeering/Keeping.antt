-- ===== src/NetworkPeering/Keeping.antt =====
-- When the network peering controller writes to Atlas.
use mongodb_atlas_kubernetes.Base.{
  ◌≡◌, ◌⊎◌, inl, inr, refl, subst, sym, Bool-cases, String, Bool, true, false, not, Option, none,
  some, if◌then◌else◌, is_some, is_empty_text, All,
}
use mongodb_atlas_kubernetes.Base.Errors.{Answer, ok, err}
use mongodb_atlas_kubernetes.Resource.Meta.{Meta}
use mongodb_atlas_kubernetes.Resource.Policy.{is_resource_policy_keep_or_default}
use mongodb_atlas_kubernetes.Resource.Scene.{KubeClient, call_atlas}
use mongodb_atlas_kubernetes.Resource.Frame.{OnAtlas}
use mongodb_atlas_kubernetes.NetworkContainer.Conversion.{NetworkContainer}
use mongodb_atlas_kubernetes.NetworkContainer.Service.{NetworkContainerService}
use mongodb_atlas_kubernetes.NetworkPeering.Conversion.{NetworkPeer, ConnectionSettings}
use mongodb_atlas_kubernetes.NetworkPeering.Service.{
  PeeringApi, PeerCall, PeerSim, creates_peer, gets_peer, updates_peer, deletes_peer,
  gets_container, get_peer,
}
use mongodb_atlas_kubernetes.NetworkPeering.Controller.{
  PeerRequest, ReadContainer, terminate_peer, delete_peering, handle_found, peer_id,
  already_removed, after_get, look_up, get_container, fetch_if_known, known_container_id,
  handle_in_container, handle_peering,
}
use mongodb_atlas_kubernetes.NetworkPeering.Frame.{
  terminate_peer-Keeps, unmanage_peer-Keeps, create_peering-Keeps, sync_peer-Keeps, get_peer-Keeps,
  delete_peering_or_keep-Keeps,
}

module _ {W : Type 0} (kube : KubeClient W) (api : PeeringApi W) (req : PeerRequest) where
  abbrev pub policy_keeps : Meta → Bool
  policy_keeps r = is_resource_policy_keep_or_default r req.object_deletion_protection

  module _ (P : PeerCall → Type 0) where
    -- What a predicate on the calls has to allow: the writes while the resource is not being
    -- deleted, and the one deletion while it is, unless its policy keeps the peer.
    abbrev pub Allows : Meta → Bool → Type 0
    Allows r false =
        ((a : ConnectionSettings) → P (creates_peer a))
        × ((id : String) (a : ConnectionSettings) → P (updates_peer id a))
    Allows r true = (policy_keeps r ≡ true) ⊎ P (deletes_peer req.status_id)

    module _ (reads : (id : String) → P (gets_peer id)) where
      found-Keeps :
          (c : NetworkContainer) (o : Option NetworkPeer) (deleted : Bool) (s : PeerSim W)
          → Allows s.meta deleted
          → All (OnAtlas P) s.calls
          → All (OnAtlas P) (handle_found kube api req c o deleted s).1.calls
      unfolding delete_peering
      found-Keeps c none false s p h = create_peering-Keeps P kube api req c p.0 s h
      found-Keeps c (some q) false s p h = sync_peer-Keeps P kube api req q c p.1 s h
      found-Keeps c (some q) true s p h =
          delete_peering_or_keep-Keeps P kube api req reads q c (policy_keeps s.meta) p s h
      found-Keeps c none true s p h = unmanage_peer-Keeps P kube s h

      after_get-Keeps :
          (c : NetworkContainer) (deleted : Bool) (a : Answer NetworkPeer) (s : PeerSim W)
          → Allows s.meta deleted
          → All (OnAtlas P) s.calls
          → All (OnAtlas P) (after_get kube api req c deleted a s).1.calls
      after_get-Keeps c deleted (ok q) s p h = found-Keeps c (some q) deleted s p h
      after_get-Keeps c deleted (err e) s p h =
          chosen (not (already_removed kube api req deleted e))
        where
          chosen :
              (b : Bool)
              → All
                  (OnAtlas P)
                  ((if b
                      then terminate_peer kube "InternalError" e
                      else handle_found kube api req c none deleted)
                    s).1.calls
          chosen true = terminate_peer-Keeps P kube "InternalError" e s h
          chosen false = found-Keeps c none deleted s p h

      look_up-Keeps :
          (c : NetworkContainer) (deleted unknown : Bool) (s : PeerSim W)
          → Allows s.meta deleted
          → All (OnAtlas P) s.calls
          → All (OnAtlas P) (look_up kube api req c deleted unknown s).1.calls
      unfolding get_peer call_atlas
      look_up-Keeps c deleted true s p h = found-Keeps c none deleted s p h
      look_up-Keeps c deleted false s p h =
          let id = peer_id kube api req in
          after_get-Keeps c deleted ((get_peer api id s).0) ((get_peer api id s).1) p
            (get_peer-Keeps P kube api req reads id s h)

      module _ (containers : NetworkContainerService W) (read : ReadContainer W)
          (finds : (id : String) → P (gets_container id)) where
        abbrev Found : PeerSim W → Answer NetworkContainer × PeerSim W → Type 0
        Found s o = All (OnAtlas P) o.1.calls × (o.1.meta ≡ s.meta)

        fetch_if_known-Keeps :
            (a : Answer String) (s : PeerSim W)
            → All (OnAtlas P) s.calls
            → Found s (fetch_if_known kube api req containers read a s)
        unfolding call_atlas
        fetch_if_known-Keeps (err e) s h = (h, refl)
        fetch_if_known-Keeps (ok id) s h = elim (Bool-cases (is_empty_text id)) [
          | inl e ↦ rw e (h, refl)
          | inr e ↦ rw e ((finds id, h), refl)
        ]

        get_container-Keeps :
            (s : PeerSim W)
            → All (OnAtlas P) s.calls
            → Found s (get_container kube api req containers read s)
        unfolding get_container call_atlas
        get_container-Keeps s h = elim (Bool-cases (is_empty_text req.container_ref_id)) [
          | inl e ↦
              let o = known_container_id kube api req containers read s.meta.namespace s in
              rw e (fetch_if_known-Keeps o.0 o.1 h)
          | inr e ↦ rw e ((finds req.container_ref_id, h), refl)
        ]

        pub handle_peering-Keeps :
            (s : PeerSim W)
            → Allows s.meta (is_some s.meta.deletion_timestamp)
            → All (OnAtlas P) s.calls
            → All (OnAtlas P) (handle_peering kube api req containers read s).1.calls
        unfolding handle_peering
        handle_peering-Keeps s p h =
            let o = get_container kube api req containers read s in
            let (kept, same) = get_container-Keeps s h in
            after o.0 (is_some o.1.meta.deletion_timestamp) o.1
              (subst (λ r. Allows r (is_some r.deletion_timestamp)) (sym same) p) kept
          where
            after :
                (a : Answer NetworkContainer) (deleted : Bool) (t : PeerSim W)
                → Allows t.meta deleted
                → All (OnAtlas P) t.calls
                → All
                    (OnAtlas P)
                    (handle_in_container kube api req containers read a deleted t).1.calls
            after (err e) deleted t p g = terminate_peer-Keeps P kube "InternalError" e t g
            after (ok c) deleted t p g =
                look_up-Keeps c deleted (is_empty_text (peer_id kube api req)) t p g

-- Every call but the deletion of a peer.
abbrev pub IsNoPeerDeletion : PeerCall → Type 0
IsNoPeerDeletion (deletes_peer id) = ⊥
IsNoPeerDeletion (creates_peer a) = Unit
IsNoPeerDeletion (gets_peer id) = Unit
IsNoPeerDeletion (updates_peer id a) = Unit
IsNoPeerDeletion (gets_container id) = Unit

-- A read, or the deletion of one peer.
abbrev pub IsDeletionOf : String → PeerCall → Type 0
IsDeletionOf own (deletes_peer id) = id ≡ own
IsDeletionOf own (creates_peer a) = ⊥
IsDeletionOf own (gets_peer id) = Unit
IsDeletionOf own (updates_peer id a) = ⊥
IsDeletionOf own (gets_container id) = Unit

module _ {W : Type 0} (kube : KubeClient W) (api : PeeringApi W) (req : PeerRequest)
    (containers : NetworkContainerService W) (read : ReadContainer W) (s : PeerSim W) where
  -- If the resource has no deletion timestamp, or the resource policy annotation, or without it the
  -- deletion protection, says to keep it, then a reconciliation does not delete a peering
  -- connection in Atlas. It is assumed of the calls before it.
  pub peer_kept_in_atlas :
      (is_some s.meta.deletion_timestamp ≡ false) ⊎ (policy_keeps kube api req s.meta ≡ true)
      → All (OnAtlas IsNoPeerDeletion) s.calls
      → All (OnAtlas IsNoPeerDeletion) (handle_peering kube api req containers read s).1.calls
  peer_kept_in_atlas k h =
      handle_peering-Keeps kube api req IsNoPeerDeletion (λ id. tt) containers read (λ id. tt) s
        (allowed (is_some s.meta.deletion_timestamp) k) h
    where
      allowed :
          (deleted : Bool)
          → (deleted ≡ false) ⊎ (policy_keeps kube api req s.meta ≡ true)
          → Allows kube api req IsNoPeerDeletion s.meta deleted
      allowed false k = (λ a. tt, λ id a. tt)
      allowed true (inl e) = cc
      allowed true (inr e) = inl e

  -- A reconciliation of a resource that is being deleted creates and updates no peering connection
  -- in Atlas, and deletes none but the one that the status names. It is assumed of the calls before
  -- it.
  pub deleted_peer_only :
      is_some s.meta.deletion_timestamp ≡ true
      → All (OnAtlas (IsDeletionOf req.status_id)) s.calls
      → All
          (OnAtlas (IsDeletionOf req.status_id))
          (handle_peering kube api req containers read s).1.calls
  deleted_peer_only d h =
      handle_peering-Keeps kube api req (IsDeletionOf req.status_id) (λ id. tt) containers read
        (λ id. tt) s
        (subst (Allows kube api req (IsDeletionOf req.status_id) s.meta) (sym d) (inr refl)) h
