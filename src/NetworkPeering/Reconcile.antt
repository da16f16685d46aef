-- ===== src/NetworkPeering/Reconcile.antt =====
-- handleCustomResource of internal/controller/atlasnetworkpeering/state.go.
use mongodb_atlas_kubernetes.Base.{String, Bool, Option}
use mongodb_atlas_kubernetes.Base.Errors.{GoError}
use mongodb_atlas_kubernetes.Base.Return.{Return}
use mongodb_atlas_kubernetes.Base.Effect.{Effect}
use mongodb_atlas_kubernetes.Resource.Scene.{KubeClient}
use mongodb_atlas_kubernetes.Reconciler.Project.{Cluster, ProjectService}
use mongodb_atlas_kubernetes.Reconciler.Credentials.{ConnectionConfig}
use mongodb_atlas_kubernetes.Reconciler.Passage.{Passage, PassageSetting, run_passage}
use mongodb_atlas_kubernetes.NetworkContainer.Service.{NetworkContainerService}
use mongodb_atlas_kubernetes.NetworkPeering.Status.{PeeringOption}
use mongodb_atlas_kubernetes.NetworkPeering.Service.{PeeringApi, PeerCall, PeerSim}
use mongodb_atlas_kubernetes.NetworkPeering.Controller.{
  PeerRequest, ReadContainer, terminate_peer, release_peer, handle_peering,
}

-- atlas.Provider and the SDK's services of the client set that it makes, at a project
pub record PeeringProvider (W : Type 0) : Type 0 where
  pub is_peering_supported : Bool
  pub make_client_set : ConnectionConfig → W → Option GoError × W
  pub project_service : ConnectionConfig → ProjectService W
  pub peerings : ConnectionConfig → String → PeeringApi W
  pub peer_containers : ConnectionConfig → String → NetworkContainerService W

module _ {W V : Type 0} (kube : KubeClient W) (cluster : Cluster W) (read : ReadContainer W)
    (provider : PeeringProvider W) (setting : PassageSetting V) (req : PeerRequest) where
  abbrev pub peering_passage : Passage W PeeringOption PeerCall
  peering_passage = record {
    type_name = "AtlasNetworkPeering";
    is_supported = provider.is_peering_supported;
    client_set = provider.make_client_set;
    projects = provider.project_service;
    refuse = terminate_peer kube "NetworkPeeringNotConfigured";
    give_up = release_peer kube;
    proceed = λ cfg project.
        handle_peering kube (provider.peerings cfg project) req
          (provider.peer_containers cfg project) read;
  }

  unfoldable pub handle_peering_resource : Effect (PeerSim W) Return
  unfolding run_passage
  handle_peering_resource = run_passage kube cluster setting peering_passage
