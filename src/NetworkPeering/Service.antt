-- ===== src/NetworkPeering/Service.antt =====
-- internal/translation/networkpeering/networkpeering.go at one project. The SDK's calls are the
-- parameter; `ConnectionSettings` are what they take and answer.
use mongodb_atlas_kubernetes.Base.{String, Bool, Option, none, some, if◌then◌else◌, concat, ◌||◌}
use mongodb_atlas_kubernetes.Base.Errors.{
  GoError, sentinel, wrap, joined, peer_not_found, Answer, ok, err,
}
use mongodb_atlas_kubernetes.Base.Effect.{Effect, pure, ◌>>=◌}
use mongodb_atlas_kubernetes.Resource.Scene.{Scene, call_atlas}
use mongodb_atlas_kubernetes.NetworkPeering.Conversion.{
  PeeringConfig, NetworkPeer, ConnectionSettings, peer_to_atlas, peer_from_atlas,
}
use mongodb_atlas_kubernetes.NetworkPeering.Status.{PeeringOption}

-- admin.NetworkPeeringApi, `admin.IsErrorCode` and `"%v"` of a configuration, which prints the
-- addresses of its parts.
pub record PeeringApi (W : Type 0) : Type 0 where
  pub create_group_peer : ConnectionSettings → W → Answer ConnectionSettings × W
  pub get_group_peer : String → W → Answer ConnectionSettings × W
  pub update_group_peer : String → ConnectionSettings → W → Answer ConnectionSettings × W
  pub delete_group_peer : String → W → Option GoError × W
  pub is_error_code : GoError → String → Bool
  pub show_config : PeeringConfig → String

pub data PeerCall : Type 0 where
  creates_peer : ConnectionSettings → PeerCall
  gets_peer : String → PeerCall
  updates_peer : String → ConnectionSettings → PeerCall
  deletes_peer : String → PeerCall
  gets_container : String → PeerCall

abbrev pub PeerSim : Type 0 → Type 0
PeerSim W = Scene W PeeringOption PeerCall

-- The peer of a configuration in a container
abbrev pub peer_in : String → PeeringConfig → NetworkPeer
peer_in container cfg = record {
  config = cfg;
  container_id = container;
  status = "";
  error_message = "";
  aws_connection = none;
}

abbrev pub wrapping_peer : String → Answer NetworkPeer → Answer NetworkPeer
wrapping_peer msg (ok p) = ok p
wrapping_peer msg (err e) = err (wrap msg e)

abbrev pub answered_peer : String → Answer ConnectionSettings → Answer NetworkPeer
answered_peer msg (err e) = err (wrap msg e)
answered_peer msg (ok a) = wrapping_peer "failed to convert peer from Atlas" (peer_from_atlas a)

module _ {W : Type 0} (api : PeeringApi W) where
  abbrev pub send_new :
      PeeringConfig → Answer ConnectionSettings → Effect (PeerSim W) (Answer NetworkPeer)
  send_new cfg (err e) = pure (err (wrap "failed to convert peer to Atlas" e))
  send_new cfg (ok a) = do
    created ← call_atlas (creates_peer a) (api.create_group_peer a)
    pure (
        answered_peer (concat "failed to create network peer from config " (api.show_config cfg))
          created)

  unfoldable pub create_peer : String → PeeringConfig → Effect (PeerSim W) (Answer NetworkPeer)
  unfolding call_atlas peer_to_atlas peer_from_atlas
  create_peer container cfg = send_new cfg (peer_to_atlas (peer_in container cfg))

  abbrev pub got_peer : String → Answer ConnectionSettings → Answer NetworkPeer
  got_peer id (ok a) = wrapping_peer "failed to convert peer from Atlas" (peer_from_atlas a)
  got_peer id (err e) =
      if api.is_error_code e "PEER_NOT_FOUND"
      then err (sentinel peer_not_found)
      else err (wrap (concat "failed to get network peer for peer id " id) e)

  unfoldable pub get_peer : String → Effect (PeerSim W) (Answer NetworkPeer)
  unfolding call_atlas peer_from_atlas
  get_peer id = do got ← call_atlas (gets_peer id) (api.get_group_peer id); pure (got_peer id got)

  abbrev pub send_update :
      String → PeeringConfig → Answer ConnectionSettings → Effect (PeerSim W) (Answer NetworkPeer)
  send_update id cfg (err e) = pure (err (wrap "failed to convert peer to Atlas" e))
  send_update id cfg (ok a) = do
    updated ← call_atlas (updates_peer id a) (api.update_group_peer id a)
    pure (
        answered_peer (concat "failed to update network peer from config " (api.show_config cfg))
          updated)

  unfoldable pub update_peer :
      String → String → PeeringConfig → Effect (PeerSim W) (Answer NetworkPeer)
  unfolding call_atlas peer_to_atlas peer_from_atlas
  update_peer id container cfg = send_update id cfg (peer_to_atlas (peer_in container cfg))

  abbrev pub deleted_peer : String → Option GoError → Option GoError
  deleted_peer id none = none
  deleted_peer id (some e) =
      if api.is_error_code e "PEER_ALREADY_REQUESTED_DELETION"
        || api.is_error_code e "PEER_NOT_FOUND"
      then some (joined e (sentinel peer_not_found))
      else some (wrap (concat "failed to delete peering connection for peer " id) e)

  unfoldable pub delete_peer : String → Effect (PeerSim W) (Option GoError)
  unfolding call_atlas
  delete_peer id = do
    e ← call_atlas (deletes_peer id) (api.delete_group_peer id)
    pure (deleted_peer id e)
