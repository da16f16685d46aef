-- ===== src/NetworkPeering/Status.antt =====
-- ApplyPeeringStatus and ClearPeeringStatus of internal/translation/networkpeering/conversion.go,
-- on the status of api/v1/status/atlasnetworkpeering.go.
use mongodb_atlas_kubernetes.Base.{
  String, Option, none, some, if◌then◌else◌, str_eq, is_some, concat, ◌||◌,
}
use mongodb_atlas_kubernetes.NetworkContainer.Conversion.{
  NetworkContainer, AwsStatus, AzureStatus, GcpStatus,
}
use mongodb_atlas_kubernetes.NetworkPeering.Conversion.{NetworkPeer, quoted}

-- AWSPeeringStatus
pub record AwsPeeringStatus : Type 0 where
  pub vpc : String
  pub connection : String

-- The statuses of Azure and GCP have the fields of the container's.
pub record PeeringStatus : Type 0 where
  pub id : String
  pub status : String
  pub aws : Option AwsPeeringStatus
  pub azure : Option AzureStatus
  pub gcp : Option GcpStatus

abbrev pub or_empty : Option AwsPeeringStatus → AwsPeeringStatus
or_empty none = record { vpc = ""; connection = "" }
or_empty (some a) = a

abbrev pub set_vpc : Option AwsStatus → AwsPeeringStatus → AwsPeeringStatus
set_vpc none a = a
set_vpc (some c) a = record a { vpc = c.vpc_id }

abbrev pub set_connection : Option String → AwsPeeringStatus → AwsPeeringStatus
set_connection none a = a
set_connection (some c) a = record a { connection = c }

-- What the peer and the container do not say stays as it is.
abbrev pub aws_part :
    NetworkPeer → NetworkContainer → Option AwsPeeringStatus → Option AwsPeeringStatus
aws_part p c old =
    if is_some c.aws_status || is_some p.aws_connection
    then some (set_connection p.aws_connection (set_vpc c.aws_status (or_empty old)))
    else old

abbrev pub or_old {ℓ} : {A : Type ℓ} → Option A → Option A → Option A
or_old none old = old
or_old (some a) old = some a

unfoldable pub apply_peering_status : NetworkPeer → NetworkContainer → PeeringStatus → PeeringStatus
apply_peering_status p c s =
    let s' = record s { id = p.config.id; status = p.status } in
    if str_eq p.config.provider "AWS"
    then record s' { aws = aws_part p c s.aws }
    else if str_eq p.config.provider "AZURE"
    then record s' { azure = or_old c.azure_status s.azure }
    else if str_eq p.config.provider "GCP"
    then record s' { gcp = or_old c.gcp_status s.gcp }
    else record s' { status = concat "unsupported provider: " (quoted p.config.provider) }

unfoldable pub clear_peering_status : PeeringStatus → PeeringStatus
clear_peering_status s = record { id = ""; status = ""; aws = none; azure = none; gcp = none }

-- AtlasNetworkPeeringStatusOption: the options that the controller makes
pub data PeeringOption : Type 0 where
  update_peering : NetworkPeer → NetworkContainer → PeeringOption
  clear_peering : PeeringOption

unfoldable pub apply_peering_option : PeeringOption → PeeringStatus → PeeringStatus
unfolding apply_peering_status clear_peering_status
apply_peering_option (update_peering p c) s = apply_peering_status p c s
apply_peering_option clear_peering s = clear_peering_status s
