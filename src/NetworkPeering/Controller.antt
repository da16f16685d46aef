-- ===== src/NetworkPeering/Controller.antt =====
-- internal/controller/atlasnetworkpeering: transition.go, and handle with getContainer of state.go.
use mongodb_atlas_kubernetes.Base.{
  String, Bool, true, false, not, Option, none, some, if◌then◌else◌, is_some, concat, is_empty_text,
  ◌&&◌,
}
use mongodb_atlas_kubernetes.Base.Int.{ℤ}
use mongodb_atlas_kubernetes.Base.Errors.{
  GoError, plain, wrap, joined, errors_is, missing_kube_project, peer_not_found, Answer, ok, err,
}
use mongodb_atlas_kubernetes.Base.Return.{Return}
use mongodb_atlas_kubernetes.Base.Effect.{Effect, pure, gets, ◌>>=◌, ◌>>◌}
use mongodb_atlas_kubernetes.Workflow.Conditions.{ready_type, network_peer_ready}
use mongodb_atlas_kubernetes.Workflow.Context.{
  set_condition_false, set_condition_false_msg, set_condition_from_result, set_condition_true,
}
use mongodb_atlas_kubernetes.Workflow.Results.{
  ok_result, requeue, in_progress, deleted_result, reconcile_result,
}
use mongodb_atlas_kubernetes.Resource.Finalizer.{set_finalizer, unset_finalizer}
use mongodb_atlas_kubernetes.Resource.Policy.{ObjectKey, is_resource_policy_keep_or_default}
use mongodb_atlas_kubernetes.Resource.Scene.{
  KubeClient, call_atlas, add_option, terminating, report, manage,
}
use mongodb_atlas_kubernetes.NetworkContainer.Conversion.{NetworkContainer}
use mongodb_atlas_kubernetes.NetworkContainer.Service.{NetworkContainerService}
use mongodb_atlas_kubernetes.NetworkPeering.Conversion.{
  PeeringConfig, NetworkPeer, has_failed, is_available, is_closing, new_network_peer,
  compare_configs,
}
use mongodb_atlas_kubernetes.NetworkPeering.Status.{update_peering, clear_peering}
use mongodb_atlas_kubernetes.NetworkPeering.Service.{
  PeeringApi, PeerSim, gets_container, create_peer, get_peer, update_peer, delete_peer,
}

-- The AtlasNetworkPeering as far as it is read (ContainerDualReference is a name and an ID), and
-- the reconciler's settings.
pub record PeerRequest : Type 0 where
  pub spec : PeeringConfig
  pub container_name : String
  pub container_ref_id : String
  pub status_id : String
  pub has_external_project : Bool
  pub independent_sync_period : ℤ
  pub object_deletion_protection : Bool

-- Client.Get of an AtlasNetworkContainer: the IDs of its specification and of its status.
abbrev pub ReadContainer : Type 0 → Type 0
ReadContainer W = ObjectKey → W → Answer (String × String) × W

module _ {W : Type 0} (kube : KubeClient W) where
  unfoldable pub terminate_peer : String → GoError → Effect (PeerSim W) Return
  unfolding terminating report set_condition_false set_condition_from_result reconcile_result
  terminate_peer reason e = do
    result ← terminating reason e
    report kube (set_condition_false ready_type)
    report kube (set_condition_from_result ready_type result)
    pure (reconcile_result result)

  abbrev pub released_or_failed : Option GoError → Effect (PeerSim W) Return
  released_or_failed (some e) = terminate_peer "AtlasFinalizerNotRemoved" e
  released_or_failed none = pure (reconcile_result deleted_result)

  unfoldable pub unmanage_peer : Effect (PeerSim W) Return
  unfolding manage terminate_peer add_option reconcile_result deleted_result
  unmanage_peer = do add_option clear_peering; e ← manage kube unset_finalizer; released_or_failed e

  abbrev pub status_text : NetworkPeer → String
  status_text p = concat "Network Peering Connection " (concat p.config.id (concat " is " p.status))

  unfoldable pub pend_peer : String → NetworkPeer → NetworkContainer → Effect (PeerSim W) Return
  unfolding report set_condition_false_msg set_condition_false add_option reconcile_result
      in_progress
  pend_peer reason p c = do
    add_option (update_peering p c)
    report kube (set_condition_false_msg network_peer_ready (status_text p))
    report kube (set_condition_false ready_type)
    pure (reconcile_result (in_progress reason (status_text p)))

  abbrev pub joined_failure : GoError → Option GoError → GoError
  joined_failure e none = e
  joined_failure e (some f) = joined e f

  unfoldable pub release_peer : GoError → Effect (PeerSim W) Return
  unfolding manage terminate_peer
  release_peer e =
      if errors_is e missing_kube_project
      then (do
        failure ← manage kube unset_finalizer
        terminate_peer "NetworkPeeringNotConfigured" (joined_failure e failure))
      else terminate_peer "NetworkPeeringNotConfigured" e

  abbrev pub peer_ready_or_failed :
      PeerRequest → NetworkPeer → NetworkContainer → Option GoError → Effect (PeerSim W) Return
  peer_ready_or_failed req p c (some e) = terminate_peer "AtlasFinalizerNotSet" e
  peer_ready_or_failed req p c none = do
    add_option (update_peering p c)
    report kube (set_condition_true network_peer_ready)
    report kube (set_condition_true ready_type)
    pure (
        reconcile_result
          (if req.has_external_project then requeue req.independent_sync_period else ok_result))

  unfoldable pub peer_ready :
      PeerRequest → NetworkPeer → NetworkContainer → Effect (PeerSim W) Return
  unfolding manage terminate_peer report set_condition_true add_option reconcile_result requeue
      ok_result
  peer_ready req p c = do e ← manage kube set_finalizer; peer_ready_or_failed req p c e

  module _ (api : PeeringApi W) (req : PeerRequest) where
    abbrev pub created_or_failed :
        NetworkPeer → NetworkContainer → Option GoError → Effect (PeerSim W) Return
    created_or_failed p c (some e) = terminate_peer "AtlasFinalizerNotSet" e
    created_or_failed p c none = pend_peer "NetworkPeeringConnectionCreating" p c

    abbrev pub after_create : NetworkContainer → Answer NetworkPeer → Effect (PeerSim W) Return
    after_create c (err e) =
        terminate_peer "NetworkPeeringNotConfigured" (wrap "failed to create peering connection" e)
    after_create c (ok p) = do e ← manage kube set_finalizer; created_or_failed p c e

    unfoldable pub create_peering : NetworkContainer → Effect (PeerSim W) Return
    unfolding create_peer terminate_peer manage pend_peer
    create_peering c = do created ← create_peer api c.id req.spec; after_create c created

    abbrev pub after_update : NetworkContainer → Answer NetworkPeer → Effect (PeerSim W) Return
    after_update c (err e) =
        terminate_peer "InternalError" (wrap "failed to update peering connection" e)
    after_update c (ok p) = pend_peer "NetworkPeeringConnectionUpdating" p c

    -- The ID is the one of the status.
    unfoldable pub update_peering_in_atlas : NetworkContainer → Effect (PeerSim W) Return
    unfolding update_peer terminate_peer pend_peer
    update_peering_in_atlas c = do
      updated ← update_peer api req.status_id c.id req.spec
      after_update c updated

    unfoldable pub sync_peer : NetworkPeer → NetworkContainer → Effect (PeerSim W) Return
    unfolding terminate_peer pend_peer update_peering_in_atlas peer_ready has_failed is_available
        new_network_peer compare_configs
    sync_peer p c =
        if has_failed p
        then terminate_peer "InternalError"
            (plain (concat "peering connection failed: " p.error_message))
        else if not (is_available p)
        then pend_peer "NetworkPeeringConnectionPending" p c
        else if not (compare_configs p (new_network_peer p.config.id req.spec))
        then update_peering_in_atlas c
        else peer_ready req p c

    abbrev pub closing_or_gone : NetworkContainer → Option NetworkPeer → Effect (PeerSim W) Return
    closing_or_gone c none = unmanage_peer
    closing_or_gone c (some p) = pend_peer "NetworkPeeringConnectionClosing" p c

    -- A peer that is not found any more is gone.
    abbrev pub after_closing : NetworkContainer → Answer NetworkPeer → Effect (PeerSim W) Return
    after_closing c (ok p) = closing_or_gone c (some p)
    after_closing c (err e) =
        if errors_is e peer_not_found
        then closing_or_gone c none
        else terminate_peer "InternalError"
            (wrap (concat "failed to get closing peer connection " req.status_id) e)

    abbrev pub after_delete : NetworkContainer → Option GoError → Effect (PeerSim W) Return
    after_delete c (some e) =
        terminate_peer "InternalError"
          (wrap (concat "failed to delete peer connection " req.status_id) e)
    after_delete c none = do closing ← get_peer api req.status_id; after_closing c closing

    abbrev pub delete_peering_or_keep :
        NetworkPeer → NetworkContainer → Bool → Effect (PeerSim W) Return
    delete_peering_or_keep p c true = unmanage_peer
    delete_peering_or_keep p c false =
        if not (is_empty_text req.status_id) && not (is_closing p)
        then (do e ← delete_peer api req.status_id; after_delete c e)
        else closing_or_gone c (some p)

    unfoldable pub delete_peering : NetworkPeer → NetworkContainer → Effect (PeerSim W) Return
    unfolding delete_peer get_peer terminate_peer pend_peer unmanage_peer is_closing
        is_resource_policy_keep_or_default
    delete_peering p c = do
      r ← gets (λ s. s.meta)
      delete_peering_or_keep p c
          (is_resource_policy_keep_or_default r req.object_deletion_protection)

    abbrev pub handle_found :
        NetworkContainer → Option NetworkPeer → Bool → Effect (PeerSim W) Return
    handle_found c none false = create_peering c
    handle_found c (some p) false = sync_peer p c
    handle_found c (some p) true = delete_peering p c
    handle_found c none true = unmanage_peer

    -- the ID of the specification, or else the one of the status
    unfoldable pub peer_id : String
    peer_id = if is_empty_text req.spec.id then req.status_id else req.spec.id

    unfoldable pub already_removed : Bool → GoError → Bool
    already_removed deleted e = deleted && errors_is e peer_not_found

    abbrev pub after_get : NetworkContainer → Bool → Answer NetworkPeer → Effect (PeerSim W) Return
    after_get c deleted (ok p) = handle_found c (some p) deleted
    after_get c deleted (err e) =
        if not (already_removed deleted e)
        then terminate_peer "InternalError" e
        else handle_found c none deleted

    abbrev pub look_up : NetworkContainer → Bool → Bool → Effect (PeerSim W) Return
    look_up c deleted true = handle_found c none deleted
    look_up c deleted false = do got ← get_peer api peer_id; after_get c deleted got

    module _ (containers : NetworkContainerService W) (read_container : ReadContainer W) where
      abbrev pub id_of : Answer (String × String) × W → Answer String × W
      id_of (ok (spec_id, status_id), w) =
          (ok (if is_empty_text spec_id then status_id else spec_id), w)
      id_of (err e, w) = (
        err (
            wrap
              (concat "failed to fetch the Kubernetes Network Container "
                (concat req.container_name " info"))
              e),
        w,
      )

      -- getContainerIDFromKubernetes
      unfoldable pub container_id_from_kubernetes : String → W → Answer String × W
      container_id_from_kubernetes namespace w =
          id_of (read_container (namespace, req.container_name) w)

      abbrev pub fetched_container : String → Answer NetworkContainer → Answer NetworkContainer
      fetched_container id (ok c) = ok c
      fetched_container id (err e) =
          err (wrap (concat "failed to fetch Network Container " (concat id " from Atlas by id")) e)

      abbrev pub fetch_container : String → Effect (PeerSim W) (Answer NetworkContainer)
      fetch_container id = do
        got ← call_atlas (gets_container id) (containers.get_container id)
        pure (fetched_container id got)

      abbrev pub fetch_if_known : Answer String → Effect (PeerSim W) (Answer NetworkContainer)
      fetch_if_known (err e) =
          pure (err (wrap "failed to solve Network Container id from Kubernetes" e))
      fetch_if_known (ok id) =
          if is_empty_text id
          then pure (
              err (
                plain (
                  concat "container "
                    (concat req.container_name " has no id, waiting for it to be created"))))
          else fetch_container id

      -- A read of the cluster, which is not logged.
      abbrev pub known_container_id : String → Effect (PeerSim W) (Answer String)
      known_container_id namespace s =
          let (a, w) = container_id_from_kubernetes namespace s.world in (a, record s { world = w })

      unfoldable pub get_container : Effect (PeerSim W) (Answer NetworkContainer)
      unfolding container_id_from_kubernetes call_atlas
      get_container =
          if is_empty_text req.container_ref_id
          then (do
            namespace ← gets (λ s. s.meta.namespace)
            id ← known_container_id namespace
            fetch_if_known id)
          else fetch_container req.container_ref_id

      -- The service never answers an empty container without an error.
      abbrev pub handle_in_container : Answer NetworkContainer → Bool → Effect (PeerSim W) Return
      handle_in_container (err e) deleted = terminate_peer "InternalError" e
      handle_in_container (ok c) deleted = look_up c deleted (is_empty_text peer_id)

      unfoldable pub handle_peering : Effect (PeerSim W) Return
      unfolding get_container get_peer terminate_peer create_peering sync_peer delete_peering
          unmanage_peer peer_id already_removed
      handle_peering = do
        c ← get_container
        r ← gets (λ s. s.meta)
        handle_in_container c (is_some r.deletion_timestamp)
