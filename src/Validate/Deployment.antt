-- ===== src/Validate/Deployment.antt =====
-- deployment.go and tags.go, on the parts of an AtlasDeployment that they read.
use mongodb_atlas_kubernetes.Base.{
  ℕ, ◌+◌, String, Bool, true, false, not, Option, none, some, List, [], ◌∷◌, if◌then◌else◌, str_eq,
  is_some, is_empty_text, elem, concat, nat_eq,
}
use mongodb_atlas_kubernetes.Base.Errors.{GoError, plain}
use mongodb_atlas_kubernetes.Validate.InstanceSize.{Run, returns, panics}
use mongodb_atlas_kubernetes.Validate.Regions.{
  RegionConfig, is_supported, and_then, regular_deployment,
}

-- The loops over names with a Go map of those seen.
abbrev pub has_duplicate : List String → List String → Option String
has_duplicate seen [] = none
has_duplicate seen (n ∷ ns) =
    let rest = has_duplicate (n ∷ seen) ns in if elem n seen then some n else rest

abbrev pub duplicate_tag : Option String → Option GoError
duplicate_tag none = none
duplicate_tag (some n) = some (plain "duplicate keys found in tags, this is forbidden")

-- Tags, on their keys
unfoldable pub tags_error : List String → Option GoError
tags_error keys = duplicate_tag (has_duplicate [] keys)

abbrev pub duplicate_endpoint : Option String → Option GoError
duplicate_endpoint none = none
duplicate_endpoint (some n) = some (
    plain (
      concat "serverless private endpoint should have a unique name: " (concat n " is duplicated")))

-- serverlessPrivateEndpoints, on their names
unfoldable pub serverless_private_endpoints : List String → Option GoError
serverless_private_endpoints names = duplicate_endpoint (has_duplicate [] names)

-- The provider settings of serverless and flex deployments.
pub record ProviderSettings : Type 0 where
  pub settings_provider : String
  pub backing_provider : String
  pub region_name : String

pub record ServerlessSpec : Type 0 where
  pub serverless_settings : Option ProviderSettings
  pub endpoint_names : List String
  pub serverless_tags : List String

pub record FlexSpec : Type 0 where
  pub flex_settings : Option ProviderSettings
  pub flex_tags : List String

pub record AdvancedSpec : Type 0 where
  pub specs : List (List RegionConfig)
  pub advanced_tags : List String

abbrev pub unsupported_backing : GoError
unsupported_backing = plain "backing provider name is not supported"

unfoldable pub serverless_deployment : ServerlessSpec → Option GoError
unfolding serverless_private_endpoints
serverless_deployment s = elim s.serverless_settings [
  | none ↦ some (plain "provider settings cannot be empty")
  | some p ↦
      if not (str_eq p.settings_provider "SERVERLESS")
      then some (plain "provider name must be SERVERLESS")
      else if not (is_supported p.backing_provider)
      then some unsupported_backing
      else serverless_private_endpoints s.endpoint_names
]

unfoldable pub flex_deployment : FlexSpec → Option GoError
flex_deployment s = elim s.flex_settings [
  | none ↦ some (plain "provider settings cannot be empty")
  | some p ↦
      if not (is_supported p.backing_provider)
      then some unsupported_backing
      else if is_empty_text p.region_name
      then some (plain "regionName cannot be empty")
      else none
]

pub record DeploymentSpecs : Type 0 where
  pub deployment_spec : Option AdvancedSpec
  pub serverless_spec : Option ServerlessSpec
  pub flex_spec : Option FlexSpec

abbrev pub bit : Bool → ℕ → ℕ
bit true n = n
bit false n = 0

-- DeploymentSet, ServerlessSet and FlexSet are 1, 2 and 4.
unfoldable pub deployment_spec_mask : DeploymentSpecs → ℕ
deployment_spec_mask d =
    bit (is_some d.deployment_spec) 1
    + bit (is_some d.serverless_spec) 2
    + bit (is_some d.flex_spec) 4

abbrev pub no_spec : GoError
no_spec = plain (
    concat "expected exactly one of spec.deploymentSpec or spec.serverlessSpec or spec.flexSpec"
      " to be present, but none were")

abbrev pub many_specs : GoError
many_specs = plain (
    concat "expected exactly one of spec.deploymentSpec or spec.serverlessSpec or spec.flexSpec"
      " to be present, but multiple were")

abbrev pub advanced_error : Option AdvancedSpec → Run (Option GoError)
advanced_error none = panics
advanced_error (some s) =
    and_then (regular_deployment s.specs) (returns (tags_error s.advanced_tags))

abbrev pub serverless_error : Option ServerlessSpec → Run (Option GoError)
serverless_error none = panics
serverless_error (some s) =
    and_then (returns (serverless_deployment s)) (returns (tags_error s.serverless_tags))

abbrev pub flex_error : Option FlexSpec → Run (Option GoError)
flex_error none = panics
flex_error (some s) = and_then (returns (flex_deployment s)) (returns (tags_error s.flex_tags))

-- AtlasDeployment; a specification that the mask says is there is never missing.
unfoldable pub deployment_error : DeploymentSpecs → Run (Option GoError)
unfolding deployment_spec_mask regular_deployment serverless_deployment flex_deployment tags_error
deployment_error d =
    let mask = deployment_spec_mask d in
    if nat_eq mask 0
    then returns (some no_spec)
    else if nat_eq mask 1
    then advanced_error d.deployment_spec
    else if nat_eq mask 2
    then serverless_error d.serverless_spec
    else if nat_eq mask 4
    then flex_error d.flex_spec
    else returns (some many_specs)
