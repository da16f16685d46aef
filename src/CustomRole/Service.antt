-- ===== src/CustomRole/Service.antt =====
-- The interface of internal/translation/customroles/custom_roles.go at one project. A CustomRole
-- with a nil role is none.
use mongodb_atlas_kubernetes.Base.{String, Option}
use mongodb_atlas_kubernetes.Base.Errors.{GoError, Answer}
use mongodb_atlas_kubernetes.CustomRole.Conversion.{CustomRole}

pub record CustomRoleService (W : Type 0) : Type 0 where
  pub get_role : String → W → Answer (Option CustomRole) × W
  pub create_role : CustomRole → W → Option GoError × W
  pub update_role : String → CustomRole → W → Option GoError × W
  pub delete_role : String → W → Option GoError × W

pub data RoleCall : Type 0 where
  reads_role : String → RoleCall
  creates_role : CustomRole → RoleCall
  updates_role : String → CustomRole → RoleCall
  deletes_role : String → RoleCall
