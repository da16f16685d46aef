-- ===== src/NetworkPeering/Conversion.antt =====
-- internal/translation/networkpeering/conversion.go, and the configurations of
-- api/v1/atlasnetworkpeering_types.go.
use mongodb_atlas_kubernetes.Base.{
  String, Bool, true, false, not, Option, none, some, if◌then◌else◌, is_empty_text, str_eq, is_some,
  concat, ◌&&◌, ◌||◌,
}
use mongodb_atlas_kubernetes.Base.Errors.{GoError, plain, wrap, Answer, ok, err}
use mongodb_atlas_kubernetes.NetworkContainer.Conversion.{set_or_nil, get_text}

pub record AwsPeering : Type 0 where
  pub accepter_region_name : String
  pub aws_account_id : String
  pub route_table_cidr_block : String
  pub vpc_id : String

pub record AzurePeering : Type 0 where
  pub azure_directory_id : String
  pub azure_subscription_id : String
  pub resource_group_name : String
  pub vnet_name : String

pub record GcpPeering : Type 0 where
  pub gcp_project_id : String
  pub network_name : String

-- AtlasNetworkPeeringConfig
pub record PeeringConfig : Type 0 where
  pub id : String
  pub provider : String
  pub aws : Option AwsPeering
  pub azure : Option AzurePeering
  pub gcp : Option GcpPeering

-- AWSStatus is the connection ID of it.
pub record NetworkPeer : Type 0 where
  pub config : PeeringConfig
  pub container_id : String
  pub status : String
  pub error_message : String
  pub aws_connection : Option String

-- admin.BaseNetworkPeeringConnectionSettings
pub record ConnectionSettings : Type 0 where
  pub container_id : String
  pub id : Option String
  pub provider_name : Option String
  pub accepter_region_name : Option String
  pub aws_account_id : Option String
  pub route_table_cidr_block : Option String
  pub vpc_id : Option String
  pub gcp_project_id : Option String
  pub network_name : Option String
  pub azure_directory_id : Option String
  pub azure_subscription_id : Option String
  pub resource_group_name : Option String
  pub vnet_name : Option String
  pub connection_id : Option String
  pub status_name : Option String
  pub error_state_name : Option String
  pub status : Option String
  pub error_message : Option String
  pub error_state : Option String

unfoldable pub has_failed : NetworkPeer → Bool
has_failed p = not (is_empty_text p.error_message)

unfoldable pub is_available : NetworkPeer → Bool
is_available p = str_eq p.status "AVAILABLE"

unfoldable pub is_closing : NetworkPeer → Bool
is_closing p = str_eq p.status "DELETING" || str_eq p.status "TERMINATING"

abbrev pub aws_connection_id : NetworkPeer → String
aws_connection_id p = get_text p.aws_connection

unfoldable pub new_network_peer : String → PeeringConfig → NetworkPeer
new_network_peer id cfg = record {
  config = record cfg { id = id };
  container_id = "";
  status = "";
  error_message = "";
  aws_connection = none;
}

abbrev is_aws_provider : String → Bool
is_aws_provider p = str_eq p "AWS"

-- The status fields only; the connection of AWS is copied when there is one.
unfoldable pub update_status : NetworkPeer → NetworkPeer → NetworkPeer
update_status p from = record p {
  status = from.status;
  error_message = from.error_message;
  aws_connection =
      if is_aws_provider p.config.provider && is_some from.aws_connection
      then from.aws_connection
      else p.aws_connection;
}

-- `"%q"` of a text without characters to escape
abbrev pub quoted : String → String
quoted t = concat "\"" (concat t "\"")

abbrev pub unsupported_provider : String → GoError
unsupported_provider provider = plain (concat "unsupported provider " (quoted provider))

abbrev pub no_settings : ConnectionSettings
no_settings = record {
  container_id = "";
  id = none;
  provider_name = none;
  accepter_region_name = none;
  aws_account_id = none;
  route_table_cidr_block = none;
  vpc_id = none;
  gcp_project_id = none;
  network_name = none;
  azure_directory_id = none;
  azure_subscription_id = none;
  resource_group_name = none;
  vnet_name = none;
  connection_id = none;
  status_name = none;
  error_state_name = none;
  status = none;
  error_message = none;
  error_state = none;
}

abbrev pub named_settings : NetworkPeer → ConnectionSettings
named_settings p = record no_settings {
  container_id = p.container_id;
  provider_name = set_or_nil p.config.provider;
}

abbrev pub aws_settings : NetworkPeer → Option AwsPeering → Answer ConnectionSettings
aws_settings p none = err (plain "unsupported AWS peer with AWSConfiguration unset")
aws_settings p (some c) = ok (record (named_settings p) {
  accepter_region_name = set_or_nil c.accepter_region_name;
  aws_account_id = set_or_nil c.aws_account_id;
  route_table_cidr_block = set_or_nil c.route_table_cidr_block;
  vpc_id = set_or_nil c.vpc_id;
})

abbrev pub gcp_settings : NetworkPeer → Option GcpPeering → Answer ConnectionSettings
gcp_settings p none = err (plain "unsupported Google peer with GCPConfiguration unset")
gcp_settings p (some c) = ok (record (named_settings p) {
  gcp_project_id = set_or_nil c.gcp_project_id;
  network_name = set_or_nil c.network_name;
})

abbrev pub azure_settings : NetworkPeer → Option AzurePeering → Answer ConnectionSettings
azure_settings p none = err (plain "unsupported Azure peer with AzureConfiguration unset")
azure_settings p (some c) = ok (record (named_settings p) {
  azure_directory_id = set_or_nil c.azure_directory_id;
  azure_subscription_id = set_or_nil c.azure_subscription_id;
  resource_group_name = set_or_nil c.resource_group_name;
  vnet_name = set_or_nil c.vnet_name;
})

unfoldable pub peer_to_atlas : NetworkPeer → Answer ConnectionSettings
peer_to_atlas p =
    if str_eq p.config.provider "AWS"
    then aws_settings p p.config.aws
    else if str_eq p.config.provider "GCP"
    then gcp_settings p p.config.gcp
    else if str_eq p.config.provider "AZURE"
    then azure_settings p p.config.azure
    else err (unsupported_provider p.config.provider)

abbrev pub named_peer : ConnectionSettings → NetworkPeer
named_peer a = record {
  config = record {
    id = get_text a.id;
    provider = get_text a.provider_name;
    aws = none;
    azure = none;
    gcp = none;
  };
  container_id = a.container_id;
  status = "";
  error_message = "";
  aws_connection = none;
}

abbrev pub with_aws : ConnectionSettings → NetworkPeer
with_aws a = record (named_peer a) {
  config = record (named_peer a).config {
    aws = some (record {
      accepter_region_name = get_text a.accepter_region_name;
      aws_account_id = get_text a.aws_account_id;
      route_table_cidr_block = get_text a.route_table_cidr_block;
      vpc_id = get_text a.vpc_id;
    });
  };
}

abbrev pub with_gcp : ConnectionSettings → NetworkPeer
with_gcp a = record (named_peer a) {
  config = record (named_peer a).config {
    gcp = some (record {
      gcp_project_id = get_text a.gcp_project_id;
      network_name = get_text a.network_name;
    });
  };
}

abbrev pub with_azure : ConnectionSettings → NetworkPeer
with_azure a = record (named_peer a) {
  config = record (named_peer a).config {
    azure = some (record {
      azure_directory_id = get_text a.azure_directory_id;
      azure_subscription_id = get_text a.azure_subscription_id;
      resource_group_name = get_text a.resource_group_name;
      vnet_name = get_text a.vnet_name;
    });
  };
}

-- fromAtlasConnectionNoStatus
unfoldable pub peer_no_status : ConnectionSettings → Answer NetworkPeer
peer_no_status a =
    if str_eq (get_text a.provider_name) "AWS"
    then ok (with_aws a)
    else if str_eq (get_text a.provider_name) "GCP"
    then ok (with_gcp a)
    else if str_eq (get_text a.provider_name) "AZURE"
    then ok (with_azure a)
    else err (unsupported_provider (get_text a.provider_name))

-- Each provider has its own fields for the status and the error.
unfoldable pub with_status : ConnectionSettings → NetworkPeer → Answer NetworkPeer
with_status a p =
    if str_eq (get_text a.provider_name) "AWS"
    then ok (record p {
      status = get_text a.status_name;
      error_message = get_text a.error_state_name;
      aws_connection = a.connection_id;
    })
    else if str_eq (get_text a.provider_name) "GCP"
    then ok (record p { status = get_text a.status; error_message = get_text a.error_message })
    else if str_eq (get_text a.provider_name) "AZURE"
    then ok (record p { status = get_text a.status; error_message = get_text a.error_state })
    else err (unsupported_provider (get_text a.provider_name))

abbrev pub status_after : ConnectionSettings → Answer NetworkPeer → Answer NetworkPeer
status_after a (err e) =
    err (wrap "failed to convert BaseNetworkPeeringConnectionSettings to NetworkPeer" e)
status_after a (ok p) = with_status a p

unfoldable pub peer_from_atlas : ConnectionSettings → Answer NetworkPeer
unfolding peer_no_status with_status
peer_from_atlas a = status_after a (peer_no_status a)

-- The DeepCopy that CompareConfigs calls is the embedded configuration's, so that nothing else of
-- the peers is compared. The accepter region of AWS is cleared in both.
unfoldable pub comparable : PeeringConfig → PeeringConfig
comparable c = elim c.aws [
  | none ↦ c
  | some aws ↦ record c { aws = some (record aws { accepter_region_name = "" }) }
]

abbrev pub same_aws : Option AwsPeering → Option AwsPeering → Bool
same_aws none none = true
same_aws (some a) (some b) =
    str_eq a.accepter_region_name b.accepter_region_name
    && str_eq a.aws_account_id b.aws_account_id
    && str_eq a.route_table_cidr_block b.route_table_cidr_block
    && str_eq a.vpc_id b.vpc_id
same_aws _ _ = false

abbrev pub same_azure : Option AzurePeering → Option AzurePeering → Bool
same_azure none none = true
same_azure (some a) (some b) =
    str_eq a.azure_directory_id b.azure_directory_id
    && str_eq a.azure_subscription_id b.azure_subscription_id
    && str_eq a.resource_group_name b.resource_group_name
    && str_eq a.vnet_name b.vnet_name
same_azure _ _ = false

abbrev pub same_gcp : Option GcpPeering → Option GcpPeering → Bool
same_gcp none none = true
same_gcp (some a) (some b) =
    str_eq a.gcp_project_id b.gcp_project_id && str_eq a.network_name b.network_name
same_gcp _ _ = false

-- `reflect.DeepEqual` of configurations
unfoldable pub same_config : PeeringConfig → PeeringConfig → Bool
same_config c d =
    str_eq c.id d.id
    && str_eq c.provider d.provider
    && same_aws c.aws d.aws
    && same_azure c.azure d.azure
    && same_gcp c.gcp d.gcp

unfoldable pub compare_configs : NetworkPeer → NetworkPeer → Bool
unfolding comparable same_config
compare_configs p q = same_config (comparable p.config) (comparable q.config)
