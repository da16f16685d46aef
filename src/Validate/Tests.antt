-- ===== src/Validate/Tests.antt =====
-- Validations of concrete deployments, projects and schedules.
use Prim.Native.Char.{char, code}
use mongodb_atlas_kubernetes.Base.{
  ◌≡◌, ◌≢◌, ◌↔◌, ◌⊎◌, inl, inr, refl, true, false, none, some, List, [], ◌∷◌, All, str_eq, is_empty,
}
use mongodb_atlas_kubernetes.Base.Int.{pos, negsuc}
use mongodb_atlas_kubernetes.Base.Errors.{plain, ok, err}
use mongodb_atlas_kubernetes.Validate.InstanceSize.{
  InstanceSize, returns, panics, compare_instance_sizes, new_from_instance_size_name,
}
use mongodb_atlas_kubernetes.Validate.Order.{
  IsFamily, IsInt64, opposite, sizes_ordered, parsed_size_bounds, underscore_panics_iff,
}
use mongodb_atlas_kubernetes.Validate.Regions.{
  ComputeSpec, RegionConfig, provider_config, regular_deployment,
}
use mongodb_atlas_kubernetes.Validate.Accepted.{unset_region_order}
use mongodb_atlas_kubernetes.Validate.Deployment.{
  DeploymentSpecs, deployment_error, tags_error, serverless_private_endpoints,
}
use mongodb_atlas_kubernetes.Validate.Project.{
  Parsing, AccessEntry, project_ip_access_list, project_custom_roles, alert_configs,
}
use mongodb_atlas_kubernetes.Validate.Names.{IsDistinct, IsDistinct-names_iff}
use mongodb_atlas_kubernetes.Validate.Entries.{IsGood, access_list_accepted_iff}
use mongodb_atlas_kubernetes.Validate.Backup.{
  BackupPlan, CopyFits, backup_schedule_error, backup_schedule_accepted_iff,
}
use mongodb_atlas_kubernetes.Validate.Whole.{IsAccepted, deployment-IsAccepted}

abbrev m30 : InstanceSize
m30 = record { family = "M"; size = pos 30; is_nvme = false }

abbrev m40 : InstanceSize
m40 = record { family = "M"; size = pos 40; is_nvme = true }

abbrev r40 : InstanceSize
r40 = record { family = "R"; size = pos 40; is_nvme = false }

-- Any size of the family R is above those of M.
size_order_test :
    (compare_instance_sizes m40 (record r40 { size = pos 10 }) ≡ negsuc 0)
    × (compare_instance_sizes m40 m30 ≡ pos 1)
    × (new_from_instance_size_name "M40_NVME" ≡ returns (ok m40))
unfolding compare_instance_sizes new_from_instance_size_name
size_order_test = (refl, refl, refl)

sizes_ordered_example :
    ((compare_instance_sizes m30 m40 ≡ pos 0) ↔ (m30 ≡ m40))
    × (compare_instance_sizes m40 m30 ≡ opposite (compare_instance_sizes m30 m40))
    × (compare_instance_sizes m30 m40 ≡ negsuc 0
        → compare_instance_sizes m40 r40 ≡ negsuc 0
        → compare_instance_sizes m30 r40 ≡ negsuc 0)
sizes_ordered_example = sizes_ordered m30 m40 r40 (inl refl) (inl refl) (inr refl)

parsed_size_bounds_example : IsFamily r40 × IsInt64 (pos 40)
unfolding new_from_instance_size_name
parsed_size_bounds_example = parsed_size_bounds "R40" r40 refl

underscore_panics_iff_example :
    (new_from_instance_size_name "_NVME" ≡ panics) ↔ (code (char 95 tt) ≡ 95)
underscore_panics_iff_example = underscore_panics_iff (char 95 tt) "NVME" refl

abbrev compute : ComputeSpec
compute = record {
  enabled = some true;
  scale_down_enabled = none;
  min_instance_size = "M30";
  max_instance_size = "M60";
}

abbrev scaled : RegionConfig
scaled = record {
  provider_name = "AWS";
  backing_provider_name = "";
  auto_scaling = some (record { disk_gb = none; compute = some compute });
  electable = some "M40";
  read_only = none;
  analytics = none;
}

abbrev unscaled : RegionConfig
unscaled = record scaled { auto_scaling = none }

unset_region_order_example :
    (regular_deployment ((unscaled ∷ scaled ∷ []) ∷ []) ≡ regular_deployment ((scaled ∷ []) ∷ []))
    × (regular_deployment ((scaled ∷ unscaled ∷ []) ∷ []) ≢ returns none)
unfolding provider_config
unset_region_order_example =
    unset_region_order unscaled scaled (record { disk_gb = none; compute = some compute }) refl refl
      refl refl

abbrev dedicated : DeploymentSpecs
dedicated = record {
  deployment_spec =
      some (record { specs = (scaled ∷ scaled ∷ []) ∷ []; advanced_tags = "a" ∷ "b" ∷ [] });
  serverless_spec = none;
  flex_spec = none;
}

deployment-IsAccepted_example : IsAccepted dedicated
unfolding deployment_error
deployment-IsAccepted_example = deployment-IsAccepted dedicated refl

IsDistinct-names_iff_example :
    ((tags_error ("a" ∷ "b" ∷ []) ≡ none) ↔ IsDistinct ("a" ∷ "b" ∷ []))
    × ((serverless_private_endpoints ("a" ∷ "b" ∷ []) ≡ none) ↔ IsDistinct ("a" ∷ "b" ∷ []))
    × ((project_custom_roles ("a" ∷ "b" ∷ []) ≡ none) ↔ IsDistinct ("a" ∷ "b" ∷ []))
IsDistinct-names_iff_example = IsDistinct-names_iff ("a" ∷ "b" ∷ [])

abbrev parsing : Parsing
parsing = record {
  is_cidr = (λ t. str_eq t "10.0.0.0/8");
  is_ip = (λ t. str_eq t "10.0.0.1");
  parse_time = (λ layout t. err (plain "no date"));
  format_time = (λ layout t. "");
}

abbrev entries : List AccessEntry
entries =
    record {
      ip_address = "";
      cidr_block = "";
      aws_security_group = "123/sg-4";
      delete_after_date = "";
    }
    ∷ record {
      ip_address = "10.0.0.1";
      cidr_block = "";
      aws_security_group = "";
      delete_after_date = "";
    }
    ∷ []

access_list_test : project_ip_access_list parsing entries ≡ none
unfolding project_ip_access_list
access_list_test = refl

access_list_accepted_iff_example :
    (project_ip_access_list parsing entries ≡ none) ↔ All (IsGood parsing) entries
access_list_accepted_iff_example = access_list_accepted_iff parsing entries

alert_test : alert_configs str_eq (λ t. t) (λ n. "0") ("a" ∷ "b" ∷ []) ≡ none
unfolding alert_configs
alert_test = refl

abbrev plan : BackupPlan
plan = record {
  has_export = false;
  auto_export_enabled = false;
  copy_settings = record { copy_region = some "EU_WEST_1"; should_copy_oplogs = some true } ∷ [];
  deployment_name = "c";
  replica_sets = "r" ∷ [];
  pit_enabled = some (some true);
}

backup_schedule_accepted_iff_example : (backup_schedule_error (λ n. "0") plan ≡ none) ↔ (
    ((false ≡ true) ⊎ (false ≡ false))
    × ((plan.copy_settings ≡ []) ⊎ (is_empty plan.replica_sets ≡ false))
    × All (CopyFits (λ n. "0") plan.pit_enabled) plan.copy_settings)
backup_schedule_accepted_iff_example = backup_schedule_accepted_iff (λ n. "0") plan
