-- ===== src/NetworkPeering/Translation.antt =====
-- What the conversion of network peers keeps, and what their comparison compares.
use mongodb_atlas_kubernetes.Base.{
  ◌≡◌, ◌↔◌, refl, subst, String, true, false, Option, none, some, if◌then◌else◌, str_eq, eq_iff,
  arith, Bool-cases, inl, inr,
}
use mongodb_atlas_kubernetes.Base.Errors.{ok, ok_injective}
use mongodb_atlas_kubernetes.NetworkContainer.Conversion.{set_or_nil, get_text}
use mongodb_atlas_kubernetes.NetworkPeering.Conversion.{
  PeeringConfig, NetworkPeer, ConnectionSettings, AwsPeering, AzurePeering, GcpPeering,
  peer_to_atlas, aws_settings, gcp_settings, azure_settings, peer_from_atlas, peer_no_status,
  with_status, comparable, same_config, compare_configs, same_aws, same_azure, same_gcp,
}

get-set_or_nil : (t : String) → get_text (set_or_nil t) ≡ t
get-set_or_nil String.[] = refl
get-set_or_nil (String.◌∷◌ c t) = refl

-- The configuration of the provider alone; a new peer has no ID yet.
abbrev pub own_part : PeeringConfig → PeeringConfig
own_part c =
    if str_eq c.provider "AWS"
    then record c { id = ""; azure = none; gcp = none }
    else if str_eq c.provider "GCP"
    then record c { id = ""; aws = none; azure = none }
    else record c { id = ""; aws = none; gcp = none }

abbrev pub plain_peer : String → PeeringConfig → NetworkPeer
plain_peer container c = record {
  config = c;
  container_id = container;
  status = "";
  error_message = "";
  aws_connection = none;
}

-- What a conversion of the settings gives.
abbrev Sent : NetworkPeer → PeeringConfig → ConnectionSettings → Type 0
Sent p c x = peer_from_atlas x ≡ ok (plain_peer p.container_id c)

from_aws :
    (p : NetworkPeer) (o : Option AwsPeering) (a : ConnectionSettings)
    → str_eq p.config.provider "AWS" ≡ true
    → aws_settings p o ≡ ok a
    → peer_from_atlas a
      ≡ ok (
          plain_peer p.container_id
            (record p.config { id = ""; aws = o; azure = none; gcp = none }))
unfolding peer_from_atlas peer_no_status with_status
from_aws p none a e h = cc
from_aws p (some c) a e h =
    subst (Sent p (record p.config { id = ""; aws = some c; azure = none; gcp = none }))
      (ok_injective _ a h) (simp (get-set_or_nil, e))

from_gcp :
    (p : NetworkPeer) (o : Option GcpPeering) (a : ConnectionSettings)
    → str_eq p.config.provider "AWS" ≡ false
    → str_eq p.config.provider "GCP" ≡ true
    → gcp_settings p o ≡ ok a
    → peer_from_atlas a
      ≡ ok (
          plain_peer p.container_id
            (record p.config { id = ""; aws = none; azure = none; gcp = o }))
unfolding peer_from_atlas peer_no_status with_status
from_gcp p none a e f h = cc
from_gcp p (some c) a e f h =
    subst (Sent p (record p.config { id = ""; aws = none; azure = none; gcp = some c }))
      (ok_injective _ a h) (simp (get-set_or_nil, e, f))

from_azure :
    (p : NetworkPeer) (o : Option AzurePeering) (a : ConnectionSettings)
    → str_eq p.config.provider "AWS" ≡ false
    → str_eq p.config.provider "GCP" ≡ false
    → str_eq p.config.provider "AZURE" ≡ true
    → azure_settings p o ≡ ok a
    → peer_from_atlas a
      ≡ ok (
          plain_peer p.container_id
            (record p.config { id = ""; aws = none; azure = o; gcp = none }))
unfolding peer_from_atlas peer_no_status with_status
from_azure p none a e f g h = cc
from_azure p (some c) a e f g h =
    subst (Sent p (record p.config { id = ""; aws = none; azure = some c; gcp = none }))
      (ok_injective _ a h) (simp (get-set_or_nil, e, f, g))

-- If a peer is converted to Atlas, then what is sent converts back, to a peer of the same container
-- with the provider and all the configuration that belongs to the provider, and without an ID, a
-- status or an error.
pub peer_from-to_atlas :
    (p : NetworkPeer) (a : ConnectionSettings)
    → peer_to_atlas p ≡ ok a
    → peer_from_atlas a ≡ ok (plain_peer p.container_id (own_part p.config))
unfolding peer_to_atlas peer_from_atlas peer_no_status with_status
peer_from-to_atlas p a h = elim (Bool-cases (str_eq p.config.provider "AWS")) [
  | inl e ↦ simp (e, from_aws p p.config.aws a e (rw e at h))
  | inr e ↦ elim (Bool-cases (str_eq p.config.provider "GCP")) [
    | inl f ↦ simp (e, f, from_gcp p p.config.gcp a e f (rw (e, f) at h))
    | inr f ↦ elim (Bool-cases (str_eq p.config.provider "AZURE")) [
      | inl g ↦ simp (e, f, from_azure p p.config.azure a e f g (rw (e, f, g) at h))
      | inr g ↦ cc (rw (e, f, g) at h)
    ]
  ]
]

same_aws_iff : (a b : Option AwsPeering) → (same_aws a b ≡ true) ↔ (a ≡ b)
same_aws_iff none none = grind arith
same_aws_iff none (some b) = grind arith
same_aws_iff (some a) none = grind arith
same_aws_iff (some a) (some b) = grind (arith, eq_iff)

same_azure_iff : (a b : Option AzurePeering) → (same_azure a b ≡ true) ↔ (a ≡ b)
same_azure_iff none none = grind arith
same_azure_iff none (some b) = grind arith
same_azure_iff (some a) none = grind arith
same_azure_iff (some a) (some b) = grind (arith, eq_iff)

same_gcp_iff : (a b : Option GcpPeering) → (same_gcp a b ≡ true) ↔ (a ≡ b)
same_gcp_iff none none = grind arith
same_gcp_iff none (some b) = grind arith
same_gcp_iff (some a) none = grind arith
same_gcp_iff (some a) (some b) = grind (arith, eq_iff)

same_config_iff : (c d : PeeringConfig) → (same_config c d ≡ true) ↔ (c ≡ d)
unfolding same_config
same_config_iff c d = grind (arith, eq_iff, same_aws_iff, same_azure_iff, same_gcp_iff)

-- Two peers compare as equal exactly when their configurations are the same but for the accepter
-- region of AWS; their containers, statuses and errors do not count.
pub compare_configs_iff :
    (p q : NetworkPeer) → (compare_configs p q ≡ true) ↔ (comparable p.config ≡ comparable q.config)
unfolding compare_configs
compare_configs_iff p q = same_config_iff (comparable p.config) (comparable q.config)
