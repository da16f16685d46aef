-- ===== src/Validate/Backup.antt =====
-- BackupSchedule of validate.go.
use mongodb_atlas_kubernetes.Base.{
  ℕ, ◌+◌, ◌≡◌, ◌↔◌, ◌⊎◌, String, Bool, true, false, not, Option, none, some, List, [], ◌∷◌, All,
  arith, ◌&&◌, is_some, is_empty, concat,
}
use mongodb_atlas_kubernetes.Base.Errors.{GoError, plain}
use mongodb_atlas_kubernetes.Validate.Project.{join_if}
use mongodb_atlas_kubernetes.Validate.Regions.{is_on}
use mongodb_atlas_kubernetes.Validate.Names.{join_none}

pub record CopySetting : Type 0 where
  pub copy_region : Option String
  pub should_copy_oplogs : Option Bool

-- The schedule, and the deployment as far as it is read: its name, the replica sets of its status,
-- and PitEnabled of its DeploymentSpec, if it has one.
pub record BackupPlan : Type 0 where
  pub has_export : Bool
  pub auto_export_enabled : Bool
  pub copy_settings : List CopySetting
  pub deployment_name : String
  pub replica_sets : List String
  pub pit_enabled : Option (Option Bool)

abbrev pub lacks_pit : Option (Option Bool) → Bool
lacks_pit none = false
lacks_pit (some pit) = not (is_on pit)

-- `"%d"` is a parameter.
module _ (show_int : ℕ → String) where
  abbrev pub at_position : ℕ → String → GoError
  at_position n msg =
      plain (concat "copy setting at position " (concat (show_int n) (concat ": " msg)))

  unfoldable pub copy_errors :
      Option (Option Bool) → ℕ → Option GoError → List CopySetting → Option GoError
  copy_errors pit n old [] = old
  copy_errors pit n old (c ∷ cs) =
      copy_errors pit (n + 1)
        (join_if (is_on c.should_copy_oplogs && lacks_pit pit)
          (at_position n "you must enable pit before enable copyOplogs")
          (join_if (not (is_some c.copy_region)) (at_position n "you must set a region name") old))
        cs

  unfoldable pub backup_schedule_error : BackupPlan → Option GoError
  unfolding copy_errors
  backup_schedule_error b =
      copy_errors b.pit_enabled 0
        (join_if (not (is_empty b.copy_settings) && is_empty b.replica_sets)
          (plain (
            concat "deployment "
              (concat b.deployment_name " doesn't have replication status available")))
          (join_if (not b.has_export && b.auto_export_enabled)
            (plain "you must specify export policy when auto export is enabled") none))
        b.copy_settings

  -- A copy goes to a named region, and takes the oplogs only with point in time recovery.
  abbrev pub CopyFits : Option (Option Bool) → CopySetting → Type 0
  CopyFits pit c =
      (is_some c.copy_region ≡ true)
      × ((is_on c.should_copy_oplogs ≡ false) ⊎ (lacks_pit pit ≡ false))

  copies_none :
      (pit : Option (Option Bool)) (n : ℕ) (old : Option GoError) (cs : List CopySetting)
      → (copy_errors pit n old cs ≡ none) ↔ ((old ≡ none) × All (CopyFits pit) cs)
  unfolding copy_errors
  copies_none pit n old [] = grind arith
  copies_none pit n old (c ∷ cs) =
      let region = at_position n "you must set a region name" in
      let oplogs = at_position n "you must enable pit before enable copyOplogs" in
      let old1 = join_if (not (is_some c.copy_region)) region old in
      grind (
        arith,
        copies_none pit (n + 1) (join_if (is_on c.should_copy_oplogs && lacks_pit pit) oplogs old1)
            cs,
        join_none (is_on c.should_copy_oplogs && lacks_pit pit) oplogs old1,
        join_none (not (is_some c.copy_region)) region old,
      )

  -- A backup schedule is accepted exactly when it has an export policy if it exports by itself, the
  -- replica sets of the deployment are known if there is a copy to make, and every copy goes to a
  -- named region and takes the oplogs only if the deployment has no dedicated specification or one
  -- with point in time recovery.
  pub backup_schedule_accepted_iff :
      (b : BackupPlan)
      → (backup_schedule_error b ≡ none) ↔ (
          ((b.has_export ≡ true) ⊎ (b.auto_export_enabled ≡ false))
          × ((b.copy_settings ≡ []) ⊎ (is_empty b.replica_sets ≡ false))
          × All (CopyFits b.pit_enabled) b.copy_settings)
  unfolding backup_schedule_error
  backup_schedule_accepted_iff b =
      let export = plain "you must specify export policy when auto export is enabled" in
      let status = plain (
        concat "deployment "
          (concat b.deployment_name " doesn't have replication status available")) in
      let old1 = join_if (not b.has_export && b.auto_export_enabled) export none in
      let old2 = join_if (not (is_empty b.copy_settings) && is_empty b.replica_sets) status old1 in
      grind (
        arith,
        copies_none b.pit_enabled 0 old2 b.copy_settings,
        join_none (not (is_empty b.copy_settings) && is_empty b.replica_sets) status old1,
        join_none (not b.has_export && b.auto_export_enabled) export none,
      )
