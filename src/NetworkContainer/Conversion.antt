-- ===== src/NetworkContainer/Conversion.antt =====
-- internal/translation/networkcontainer/conversion.go. The SDK's container has optional fields, of
-- which the getters give the empty text or false.
use mongodb_atlas_kubernetes.Base.{
  String, Bool, false, Option, none, some, if◌then◌else◌, is_empty_text, str_eq, is_some,
}

-- NetworkContainerConfig; `config_id` is the field ID of its specification.
pub record ContainerConfig : Type 0 where
  pub provider : String
  pub config_id : String
  pub region : String
  pub cidr_block : String

-- the statuses of AWS, Azure and GCP
pub record AwsStatus : Type 0 where
  pub vpc_id : String
  pub container_id : String

pub record AzureStatus : Type 0 where
  pub azure_subscription_id : String
  pub vnet_name : String

pub record GcpStatus : Type 0 where
  pub gcp_project_id : String
  pub network_name : String

pub record NetworkContainer : Type 0 where
  pub config : ContainerConfig
  pub id : String
  pub provisioned : Bool
  pub aws_status : Option AwsStatus
  pub azure_status : Option AzureStatus
  pub gcp_status : Option GcpStatus

-- admin.CloudProviderContainer
pub record CloudProviderContainer : Type 0 where
  pub id : Option String
  pub provider_name : Option String
  pub atlas_cidr_block : Option String
  pub region_name : Option String
  pub region : Option String
  pub provisioned : Option Bool
  pub vpc_id : Option String
  pub azure_subscription_id : Option String
  pub vnet_name : Option String
  pub gcp_project_id : Option String
  pub network_name : Option String

-- pointer.SetOrNil with the empty text, and the getter of an optional text.
abbrev pub set_or_nil : String → Option String
set_or_nil t = if is_empty_text t then none else some t

abbrev pub get_text : Option String → String
get_text none = ""
get_text (some t) = t

abbrev pub get_flag : Option Bool → Bool
get_flag none = false
get_flag (some b) = b

abbrev pub is_aws : String → Bool
is_aws provider = str_eq provider "AWS"

unfoldable pub to_atlas_config : ContainerConfig → CloudProviderContainer
to_atlas_config cfg = record {
  id = none;
  provider_name = set_or_nil cfg.provider;
  atlas_cidr_block = set_or_nil cfg.cidr_block;
  region_name = if is_aws (get_text (set_or_nil cfg.provider)) then set_or_nil cfg.region else none;
  region = if is_aws (get_text (set_or_nil cfg.provider)) then none else set_or_nil cfg.region;
  provisioned = none;
  vpc_id = none;
  azure_subscription_id = none;
  vnet_name = none;
  gcp_project_id = none;
  network_name = none;
}

unfoldable pub container_to_atlas : NetworkContainer → CloudProviderContainer
unfolding to_atlas_config
container_to_atlas c = record (to_atlas_config c.config) { id = set_or_nil c.id }

unfoldable pub from_atlas_aws_status : CloudProviderContainer → Option AwsStatus
from_atlas_aws_status c = elim c.vpc_id [
  | none ↦ none
  | some vpc ↦ some (record { vpc_id = vpc; container_id = "" })
]

unfoldable pub from_atlas_azure_status : CloudProviderContainer → Option AzureStatus
from_atlas_azure_status c =
    if is_some c.azure_subscription_id
    then some (record {
      azure_subscription_id = get_text c.azure_subscription_id;
      vnet_name = get_text c.vnet_name;
    })
    else if is_some c.vnet_name
    then some (record { azure_subscription_id = ""; vnet_name = get_text c.vnet_name })
    else none

unfoldable pub from_atlas_gcp_status : CloudProviderContainer → Option GcpStatus
from_atlas_gcp_status c =
    if is_some c.gcp_project_id
    then some (record {
      gcp_project_id = get_text c.gcp_project_id;
      network_name = get_text c.network_name;
    })
    else if is_some c.network_name
    then some (record { gcp_project_id = ""; network_name = get_text c.network_name })
    else none

unfoldable pub from_atlas_no_status : CloudProviderContainer → NetworkContainer
from_atlas_no_status c = record {
  config = record {
    provider = get_text c.provider_name;
    config_id = "";
    region =
        if is_aws (get_text c.provider_name) then get_text c.region_name else get_text c.region;
    cidr_block = get_text c.atlas_cidr_block;
  };
  id = get_text c.id;
  provisioned = false;
  aws_status = none;
  azure_status = none;
  gcp_status = none;
}

-- Of the three statuses the one of the provider is set.
unfoldable pub container_from_atlas : CloudProviderContainer → NetworkContainer
unfolding from_atlas_no_status from_atlas_aws_status from_atlas_azure_status from_atlas_gcp_status
container_from_atlas c =
    let provider = get_text c.provider_name in
    record (from_atlas_no_status c) {
      provisioned = get_flag c.provisioned;
      aws_status = if str_eq provider "AWS" then from_atlas_aws_status c else none;
      azure_status = if str_eq provider "AZURE" then from_atlas_azure_status c else none;
      gcp_status = if str_eq provider "GCP" then from_atlas_gcp_status c else none;
    }
