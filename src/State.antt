-- ===== src/State.antt =====
-- pkg/state/state.go: the state of a resource, kept in its "State" condition; with the parts of a
-- Kubernetes object that the state reconciler reads. What apimachinery does with conditions and
-- finalizers is a parameter.
pub mod Kube
pub mod Finalizers
pub mod Results
pub mod Ready
pub mod Generation
pub mod Sim
pub mod Reapply
pub mod Dispatch
pub mod Reconciler
pub mod Decisions
pub mod Recorded
pub mod Traces
pub mod Runs
pub mod Life
pub mod Lives
mod Concrete
mod Tests
mod RunTests
use mongodb_atlas_kubernetes.Base.{ℕ, ◌≡◌, String, Bool, none, some, List, if◌then◌else◌, str_eq}
use Kube.{Condition, status_true, status_false, Machinery}

pub data ResourceState : Type 0 where
  initial : ResourceState
  import_requested imported : ResourceState
  creating created : ResourceState
  updating updated : ResourceState
  deletion_requested deleting : ResourceState
  deleted : ResourceState
  -- any other text: in Go a ResourceState is a string
  other : String → ResourceState

abbrev pub state_condition : String
state_condition = "State"

abbrev pub ready_condition : String
ready_condition = "Ready"

-- `string(state)`
abbrev pub state_text : ResourceState → String
state_text initial = "Initial"
state_text import_requested = "Importing"
state_text imported = "Imported"
state_text creating = "Creating"
state_text created = "Created"
state_text updating = "Updating"
state_text updated = "Updated"
state_text deletion_requested = "DeletionRequested"
state_text deleting = "Deleting"
state_text deleted = "Deleted"
state_text (other t) = t

-- `ResourceState(text)`
unfoldable pub of_text : String → ResourceState
of_text t =
    if str_eq t "Initial"
    then initial
    else if str_eq t "Importing"
    then import_requested
    else if str_eq t "Imported"
    then imported
    else if str_eq t "Creating"
    then creating
    else if str_eq t "Created"
    then created
    else if str_eq t "Updating"
    then updating
    else if str_eq t "Updated"
    then updated
    else if str_eq t "DeletionRequested"
    then deletion_requested
    else if str_eq t "Deleting"
    then deleting
    else if str_eq t "Deleted"
    then deleted
    else other t

-- Two spellings of one text are one state: `other` is kept for the texts that have no constant.
abbrev pub IsCanonical : ResourceState → Type 0
IsCanonical s = of_text (state_text s) ≡ s

module _ (m : Machinery) where
  unfoldable pub get_state : List Condition → ResourceState
  get_state conditions = elim (m.find_status_condition conditions state_condition) [
    | none ↦ initial
    | some c ↦ of_text c.reason
  ]

  unfoldable pub ensure_state :
      List Condition → ℕ → ResourceState → String → Bool → ℕ → List Condition
  ensure_state conditions observed_generation state msg status now =
      m.set_status_condition conditions (record {
        kind = state_condition;
        status = if status then status_true else status_false;
        observed_generation = observed_generation;
        last_transition_time = now;
        reason = state_text state;
        message = msg;
      })
