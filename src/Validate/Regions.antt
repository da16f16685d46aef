-- ===== src/Validate/Regions.antt =====
-- The region configurations of deployment.go: their providers, autoscaling and instance sizes.
use mongodb_atlas_kubernetes.Base.{
  String, Bool, true, false, not, Option, none, some, List, [], ◌∷◌, if◌then◌else◌, str_eq, ◌&&◌,
  ◌||◌, is_some,
}
use mongodb_atlas_kubernetes.Base.Int.{pos, negsuc}
use mongodb_atlas_kubernetes.Base.Errors.{GoError, plain, Answer, ok, err}
use mongodb_atlas_kubernetes.Validate.InstanceSize.{
  Run, returns, panics, InstanceSize, compare_instance_sizes, new_from_instance_size_name,
  same_flag, same_int,
}

-- AdvancedAutoScalingSpec; `disk_gb` is the flag of its DiskGB.
pub record ComputeSpec : Type 0 where
  pub enabled : Option Bool
  pub scale_down_enabled : Option Bool
  pub min_instance_size : String
  pub max_instance_size : String

pub record AutoScaling : Type 0 where
  pub disk_gb : Option (Option Bool)
  pub compute : Option ComputeSpec

-- AdvancedRegionConfig; of its three kinds of nodes the instance size is read.
pub record RegionConfig : Type 0 where
  pub provider_name : String
  pub backing_provider_name : String
  pub auto_scaling : Option AutoScaling
  pub electable : Option String
  pub read_only : Option String
  pub analytics : Option String

-- SupportedProviders().IsSupported
abbrev pub is_supported : String → Bool
is_supported name = str_eq name "AWS" || str_eq name "GCP" || str_eq name "AZURE"

unfoldable pub provider_config : RegionConfig → Option GoError
provider_config r =
    if str_eq r.provider_name "SERVERLESS"
    then some (
        plain
          "deployment cannot be configured as serverless. use dedicated configuration for serverless instance")
    else if str_eq r.provider_name "TENANT"
    then (if not (is_supported r.backing_provider_name)
        then some (plain "backing provider name is not supported")
        else none)
    else if not (is_supported r.provider_name)
    then some (plain "provider name is not supported")
    else none

abbrev pub same_option {ℓ} : {A : Type ℓ} → (A → A → Bool) → Option A → Option A → Bool
same_option eq none none = true
same_option eq (some a) (some b) = eq a b
same_option eq (some a) none = false
same_option eq none (some b) = false

abbrev pub same_compute : ComputeSpec → ComputeSpec → Bool
same_compute a b =
    same_option same_flag a.enabled b.enabled
    && same_option same_flag a.scale_down_enabled b.scale_down_enabled
    && str_eq a.min_instance_size b.min_instance_size
    && str_eq a.max_instance_size b.max_instance_size

-- `cmp.Diff` is empty; there is no list in it for EquateEmpty.
unfoldable pub same_auto_scaling : AutoScaling → AutoScaling → Bool
same_auto_scaling a b =
    same_option (same_option same_flag) a.disk_gb b.disk_gb
    && same_option same_compute a.compute b.compute

unfoldable pub autoscaling_for_deployment : Option AutoScaling → Option AutoScaling → Option GoError
unfolding same_auto_scaling
autoscaling_for_deployment now previous =
    if not (is_some now) && not (is_some previous)
    then none
    else if not (same_option same_auto_scaling now previous)
    then some (
        plain
          "autoscaling must be the same for all regions and across all replication specs for advanced deployment")
    else none

abbrev pub unset_auto_scaling : AutoScaling
unset_auto_scaling = record { disk_gb = none; compute = none }

abbrev pub or_first : AutoScaling → Option AutoScaling → Option AutoScaling × AutoScaling
or_first seen none = (none, seen)
or_first seen (some a) = (some a, a)

-- The autoscaling that a region is compared with, and the one that is seen from then on: the first
-- with a setting.
unfoldable pub first_set_autoscaling : AutoScaling → RegionConfig → Option AutoScaling × AutoScaling
first_set_autoscaling seen r =
    if is_some seen.disk_gb || is_some seen.compute
    then (some seen, seen)
    else or_first seen r.auto_scaling

abbrev pub within : InstanceSize → InstanceSize → InstanceSize → Option GoError
within low high now =
    if same_int (compare_instance_sizes now low) (negsuc 0)
    then some (plain "the instance size is below the minimum autoscaling configuration")
    else if same_int (compare_instance_sizes now high) (pos 1)
    then some (plain "the instance size is above the maximum autoscaling configuration")
    else none

-- A function that may panic, answers an error, or goes on.
abbrev pub then_run {ℓ κ} :
    {A : Type ℓ} {B : Type κ} → Run (Answer A) → (GoError → B) → (A → Run B) → Run B
then_run panics fail go = panics
then_run (returns (err e)) fail go = returns (fail e)
then_run (returns (ok a)) fail go = go a

unfoldable pub advanced_instance_size_in_range : String → String → String → Run (Option GoError)
unfolding new_from_instance_size_name compare_instance_sizes
advanced_instance_size_in_range now low high = then_run (new_from_instance_size_name low) some (λ l.
    then_run (new_from_instance_size_name high) some
      (λ h. then_run (new_from_instance_size_name now) some (λ n. returns (within l h n))))

-- The next check, if there is no error yet.
abbrev pub and_then : Run (Option GoError) → Run (Option GoError) → Run (Option GoError)
and_then panics next = panics
and_then (returns (some e)) next = returns (some e)
and_then (returns none) next = next

abbrev pub node_in_range : Option String → ComputeSpec → Run (Option GoError)
node_in_range none c = returns none
node_in_range (some size) c =
    advanced_instance_size_in_range size c.min_instance_size c.max_instance_size

abbrev pub nodes_in_range : RegionConfig → ComputeSpec → Run (Option GoError)
nodes_in_range r c =
    and_then (node_in_range r.electable c)
      (and_then (node_in_range r.read_only c) (node_in_range r.analytics c))

abbrev pub is_on : Option Bool → Bool
is_on none = false
is_on (some b) = b

abbrev pub if_enabled : RegionConfig → Option ComputeSpec → Run (Option GoError)
if_enabled r none = returns none
if_enabled r (some c) = if is_on c.enabled then nodes_in_range r c else returns none

unfoldable pub instance_size_range : RegionConfig → Run (Option GoError)
unfolding advanced_instance_size_in_range
instance_size_range r = elim r.auto_scaling [
  | none ↦ returns none
  | some a ↦ if_enabled r a.compute
]

abbrev pub or_seen : AutoScaling → Run (Option GoError) → Run (Answer AutoScaling)
or_seen seen panics = panics
or_seen seen (returns (some e)) = returns (err e)
or_seen seen (returns none) = returns (ok seen)

-- One region; `seen` is the variable `autoscaling`.
unfoldable pub region_config : AutoScaling → RegionConfig → Run (Answer AutoScaling)
unfolding provider_config autoscaling_for_deployment first_set_autoscaling instance_size_range
region_config seen r =
    let (previous, next) = first_set_autoscaling seen r in
    or_seen next (
      and_then (returns (provider_config r)) (
        and_then (returns (autoscaling_for_deployment r.auto_scaling previous))
          (instance_size_range r)))

unfoldable pub region_configs : AutoScaling → List RegionConfig → Run (Answer AutoScaling)
unfolding region_config
region_configs seen [] = returns (ok seen)
region_configs seen (r ∷ rs) = then_run (region_config seen r) err (λ next. region_configs next rs)

unfoldable pub replication_specs : AutoScaling → List (List RegionConfig) → Run (Answer AutoScaling)
unfolding region_configs
replication_specs seen [] = returns (ok seen)
replication_specs seen (s ∷ rest) =
    then_run (region_configs seen s) err (λ next. replication_specs next rest)

unfoldable pub regular_deployment : List (List RegionConfig) → Run (Option GoError)
unfolding replication_specs
regular_deployment specs =
    then_run (replication_specs unset_auto_scaling specs) some (λ seen. returns none)
