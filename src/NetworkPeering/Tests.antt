-- ===== src/NetworkPeering/Tests.antt =====
-- Runs of the network peering controller.
use mongodb_atlas_kubernetes.Base.{
  ◌≡◌, inl, refl, ℕ, zero, suc, String, true, false, Option, none, some, [], ◌∷◌, All, str_eq,
}
use mongodb_atlas_kubernetes.Base.Int.{pos}
use mongodb_atlas_kubernetes.Base.Errors.{plain, Answer, ok, err, error_text}
use mongodb_atlas_kubernetes.Base.Return.{done}
use mongodb_atlas_kubernetes.Workflow.Context.{new_context}
use mongodb_atlas_kubernetes.Resource.Finalizer.{finalizer_label, set_finalizer, unset_finalizer}
use mongodb_atlas_kubernetes.Resource.Scene.{patch_finalizers, atlas, KubeClient}
use mongodb_atlas_kubernetes.Resource.Frame.{OnAtlas}
use mongodb_atlas_kubernetes.NetworkContainer.Conversion.{NetworkContainer}
use mongodb_atlas_kubernetes.NetworkContainer.Service.{NetworkContainerService}
use mongodb_atlas_kubernetes.NetworkPeering.Conversion.{
  PeeringConfig, ConnectionSettings, no_settings, peer_to_atlas, peer_from_atlas,
}
use mongodb_atlas_kubernetes.NetworkPeering.Service.{
  PeeringApi, PeerSim, gets_peer, gets_container, deletes_peer, updates_peer, peer_in,
}
use mongodb_atlas_kubernetes.NetworkPeering.Controller.{
  PeerRequest, ReadContainer, peer_id, handle_peering,
}
use mongodb_atlas_kubernetes.NetworkPeering.Translation.{own_part, plain_peer, peer_from-to_atlas}
use mongodb_atlas_kubernetes.NetworkPeering.Keeping.{
  IsNoPeerDeletion, IsDeletionOf, peer_kept_in_atlas, deleted_peer_only,
}
use mongodb_atlas_kubernetes.NetworkPeering.Release.{gone_peer_released}
use mongodb_atlas_kubernetes.NetworkPeering.Reconcile.{PeeringProvider, handle_peering_resource}
use mongodb_atlas_kubernetes.Resource.Policy.{
  reconciliation_should_be_skipped, resource_version_is_valid,
}
use mongodb_atlas_kubernetes.Reconciler.Project.{Project, Cluster, kube_project, resolve_project}
use mongodb_atlas_kubernetes.Reconciler.Credentials.{ConnectionConfig, resolve_connection_config}
use mongodb_atlas_kubernetes.Reconciler.Passage.{PassageSetting}
use mongodb_atlas_kubernetes.Reconciler.Reaching.{Resolves}

abbrev kube : KubeClient ℕ
kube = record { patch = (λ fs r w. (ok (record r { finalizers = fs }), w)); now = (λ w. (w, w)) }

abbrev config : PeeringConfig
config = record {
  id = "";
  provider = "GCP";
  aws = none;
  azure = none;
  gcp = some (record { gcp_project_id = "g"; network_name = "net" });
}

abbrev settings : String → ConnectionSettings
settings status = record no_settings {
  container_id = "c1";
  id = some "p1";
  provider_name = some "GCP";
  gcp_project_id = some "g";
  network_name = some "net";
  status = some status;
}

abbrev container : NetworkContainer
container = record {
  config = record { provider = "GCP"; config_id = ""; region = ""; cidr_block = "10.8.0.0/18" };
  id = "c1";
  provisioned = true;
  aws_status = none;
  azure_status = none;
  gcp_status = none;
}

abbrev containers : NetworkContainerService ℕ
containers = record {
  create_container = (λ cfg w. (ok container, w));
  get_container = (λ id w. (ok container, w));
  find_container = (λ cfg w. (ok container, w));
  update_container = (λ id cfg w. (ok container, w));
  delete_container = (λ id w. (none, w));
}

-- In the world 0 Atlas has the peer, in a later one it has not; a deletion leads there.
abbrev answer : ℕ → Answer ConnectionSettings
answer zero = ok (settings "AVAILABLE")
answer (suc n) = err (plain "PEER_NOT_FOUND")

abbrev api : PeeringApi ℕ
api = record {
  create_group_peer = (λ a w. (ok (settings "ADDING_PEER"), w));
  get_group_peer = (λ id w. (answer w, w));
  update_group_peer = (λ id a w. (ok (settings "ADDING_PEER"), w));
  delete_group_peer = (λ id w. (none, suc w));
  is_error_code = (λ e code. str_eq (error_text e) code);
  show_config = (λ cfg. "config");
}

abbrev read : ReadContainer ℕ
read key w = (ok ("c1", ""), w)

abbrev request : PeeringConfig → PeerRequest
request spec = record {
  spec = spec;
  container_name = "";
  container_ref_id = "c1";
  status_id = "p1";
  has_external_project = false;
  independent_sync_period = pos 0;
  object_deletion_protection = false;
}

abbrev start : ℕ → Option ℕ → PeerSim ℕ
start w deleted = record {
  world = w;
  meta = record {
    name = "peer";
    namespace = "default";
    annotations = [];
    labels = [];
    finalizers = some (finalizer_label ∷ []);
    deletion_timestamp = deleted;
  };
  ctx = new_context [];
  queue = record { active = false; errs = [] };
  calls = [];
}

peer_from-to_atlas_example :
    peer_from_atlas (record no_settings {
      container_id = "c1";
      provider_name = some "GCP";
      gcp_project_id = some "g";
      network_name = some "net";
    })
    ≡ ok (plain_peer "c1" (own_part config))
unfolding peer_to_atlas
peer_from-to_atlas_example = peer_from-to_atlas (peer_in "c1" config) _ refl

peer_kept_in_atlas_example :
    All
      (OnAtlas IsNoPeerDeletion)
      (handle_peering kube api (request config) containers read (start 0 none)).1.calls
peer_kept_in_atlas_example =
    peer_kept_in_atlas kube api (request config) containers read (start 0 none) (inl refl) tt

deleted_peer_only_example :
    All
      (OnAtlas (IsDeletionOf "p1"))
      (handle_peering kube api (request config) containers read (start 0 (some 4))).1.calls
deleted_peer_only_example =
    deleted_peer_only kube api (request config) containers read (start 0 (some 4)) refl tt

-- The deletion is asked for, and the peer is gone at once.
peer_deletion_test :
    (handle_peering kube api (request config) containers read (start 0 (some 4))).1.calls
    ≡ patch_finalizers (some [])
      ∷ atlas (gets_peer "p1")
      ∷ atlas (deletes_peer "p1")
      ∷ atlas (gets_peer "p1")
      ∷ atlas (gets_container "c1")
      ∷ []
unfolding handle_peering unset_finalizer set_finalizer
peer_deletion_test = refl

-- A settled peer is only read; one whose network differs is updated.
settled_peer_test :
    (handle_peering kube api (request config) containers read (start 0 none)).1.calls
    ≡ atlas (gets_peer "p1") ∷ atlas (gets_container "c1") ∷ []
unfolding handle_peering unset_finalizer set_finalizer
settled_peer_test = refl

changed_peer_test :
    (handle_peering kube api
      (request
        (record config { gcp = some (record { gcp_project_id = "g"; network_name = "other" }) }))
      containers
      read
      (start 0 none)).1.calls
    ≡ atlas (
        updates_peer "p1" (record no_settings {
          container_id = "c1";
          provider_name = some "GCP";
          gcp_project_id = some "g";
          network_name = some "other";
        }))
      ∷ atlas (gets_peer "p1")
      ∷ atlas (gets_container "c1")
      ∷ []
unfolding handle_peering unset_finalizer set_finalizer
changed_peer_test = refl

-- Atlas does not have the peer, at any time.
abbrev without_peer : PeeringApi ℕ
without_peer = record api { get_group_peer = (λ id w. (err (plain "PEER_NOT_FOUND"), w)) }

abbrev cluster : Cluster ℕ
cluster = record {
  get_project = (λ key w. (ok (record { atlas_name = "prj"; connection_secret = none }), w));
  get_secret =
      (λ key w. (ok (("orgId", "o") ∷ ("publicApiKey", "u") ∷ ("privateApiKey", "v") ∷ []), w));
}

abbrev provider : PeeringProvider ℕ
provider = record {
  is_peering_supported = true;
  make_client_set = (λ cfg w. (none, w));
  project_service = (λ cfg. record {
    project_by_name = (λ name w. (ok (record { project_id = "p1"; project_name = name }), w));
    project_by_id = (λ id w. (ok (record { project_id = id; project_name = "prj" }), w));
  });
  peerings = (λ cfg id. without_peer);
  peer_containers = (λ cfg id. containers);
}

abbrev setting : PassageSetting ℕ
setting = record {
  semver = record { new_version = (λ text. err (plain text)); compare_version = (λ a b. pos 0) };
  operator_version = "2";
  global_secret = ("operator", "key");
  conditions = [];
  connection_secret = none;
  reference = kube_project "" "prj";
}

abbrev credentials : ConnectionConfig
credentials = record { org_id = "o"; public_key = "u"; private_key = "v" }

abbrev project : Project
project = record { project_id = "p1"; project_name = "prj" }

resolves :
    Resolves cluster setting "default" provider.make_client_set provider.project_service credentials
      project
unfolding resolve_connection_config resolve_project
resolves = record { config_known = λ w. refl; client_made = λ w. refl; project_known = λ w. refl }

gone_peer_released_example :
    let o =
      handle_peering_resource kube cluster read provider setting
        (request config)
        (start 0 (some 4)) in
    (o.0 ≡ done)
    × (o.1.meta.finalizers ≡ some [])
    × (o.1.calls
        ≡ patch_finalizers (some []) ∷ atlas (gets_peer "p1") ∷ atlas (gets_container "c1") ∷ [])
unfolding peer_id reconciliation_should_be_skipped resource_version_is_valid
gone_peer_released_example =
    gone_peer_released kube (λ fs r w. refl) cluster read provider setting (request config)
      credentials project (start 0 (some 4)) container (plain "PEER_NOT_FOUND") refl refl refl
      resolves refl refl refl (λ w. refl) refl (λ w. refl) refl
