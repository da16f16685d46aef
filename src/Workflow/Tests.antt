-- ===== src/Workflow/Tests.antt =====
-- Runs of the condition list and of a termination.
use mongodb_atlas_kubernetes.Base.{◌≡◌, refl, true, some, List, [], ◌∷◌}
use mongodb_atlas_kubernetes.Workflow.Conditions.{
  Condition, status_true, false_condition, get_condition, has_condition_type,
  ensure_condition_exists, remove_condition_if_exists, init_condition,
}
use mongodb_atlas_kubernetes.Workflow.ErrorQueue.{ErrorQueue}
use mongodb_atlas_kubernetes.Workflow.Context.{condition}
use mongodb_atlas_kubernetes.Workflow.Storing.{IsUnique, conditions-IsUnique}

abbrev two_conditions : List Condition
two_conditions = false_condition "Ready" 3 ∷ false_condition "IPAccessListReady" 4 ∷ []

-- A status that stays keeps its time, and one that changes takes the new one.
times_test :
    (get_condition "Ready" (ensure_condition_exists (false_condition "Ready" 0) two_conditions 9)
      ≡ some (false_condition "Ready" 3))
    × (get_condition "Ready"
          (ensure_condition_exists (condition "Ready" status_true "" "") two_conditions 9)
        ≡ some (record (condition "Ready" status_true "" "") { last_transition_time = 9 }))
unfolding get_condition ensure_condition_exists
times_test = (refl, refl)

conditions-IsUnique_example :
    IsUnique (ensure_condition_exists (false_condition "Validated" 0) two_conditions 9)
    × IsUnique (remove_condition_if_exists "Ready" two_conditions)
    × IsUnique (init_condition (false_condition "Validated" 0) two_conditions 9)
unfolding has_condition_type
conditions-IsUnique_example =
    conditions-IsUnique (false_condition "Validated" 0) "Ready" two_conditions 9
      two_conditions_unique
  where
    two_conditions_unique : IsUnique two_conditions
    two_conditions_unique = (refl, (refl, tt))

abbrev dry_run : ErrorQueue
dry_run = record { active = true; errs = [] }
