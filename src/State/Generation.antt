-- ===== src/State/Generation.antt =====
-- getObservedGeneration of pkg/controller/state/reconciler.go.
use mongodb_atlas_kubernetes.Base.{ℕ, Bool, true, false, none, some, List, if◌then◌else◌}
use mongodb_atlas_kubernetes.State.Kube.{Condition, Object, Machinery}
use mongodb_atlas_kubernetes.State.{
  ResourceState, creating, created, updating, updated, deletion_requested, deleting, deleted,
  state_condition, get_state,
}

-- the cases of the `switch` that keep the previous observed generation
unfoldable pub keeps_generation : ResourceState → ResourceState → Bool
keeps_generation updating updating = true
keeps_generation updating updated = true
keeps_generation creating creating = true
keeps_generation creating created = true
keeps_generation deletion_requested deleting = true
keeps_generation deleting deleting = true
keeps_generation deleting deleted = true
keeps_generation _ _ = false

module _ (m : Machinery) where
  unfoldable pub observed_generation : Object → List Condition → ResourceState → ℕ
  unfolding keeps_generation get_state
  observed_generation obj prev next_state = elim (m.find_status_condition prev state_condition) [
    | none ↦ obj.generation
    | some c ↦
        if keeps_generation (get_state m prev) next_state
        then c.observed_generation
        else obj.generation
  ]
