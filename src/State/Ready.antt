-- ===== src/State/Ready.antt =====
-- NewReadyCondition of pkg/controller/state/reconciler.go.
use mongodb_atlas_kubernetes.Base.{ℕ, String, concat}
use mongodb_atlas_kubernetes.State.Kube.{Condition, ConditionStatus, status_true, status_false}
use mongodb_atlas_kubernetes.State.{
  ResourceState, initial, import_requested, imported, creating, created, updating, updated,
  deletion_requested, deleting, deleted, other, state_text, ready_condition,
}

abbrev pub reason_error : String
reason_error = "Error"

abbrev pub reason_pending : String
reason_pending = "Pending"

abbrev pub reason_settled : String
reason_settled = "Settled"

abbrev pub ready_as : ConditionStatus → String → String → ℕ → Condition
ready_as cond reason msg now = record {
  kind = ready_condition;
  status = cond;
  observed_generation = 0;
  last_transition_time = now;
  reason = reason;
  message = msg;
}

unfoldable pub new_ready_condition : ResourceState → ℕ → Condition
new_ready_condition initial now =
    ready_as status_false reason_pending "Resource is in initial state." now
new_ready_condition import_requested now =
    ready_as status_false reason_pending "Resource is being imported." now
new_ready_condition creating now = ready_as status_false reason_pending "Resource is pending." now
new_ready_condition updating now = ready_as status_false reason_pending "Resource is pending." now
new_ready_condition deleting now = ready_as status_false reason_pending "Resource is pending." now
new_ready_condition deletion_requested now =
    ready_as status_false reason_pending "Resource is pending." now
new_ready_condition imported now = ready_as status_true reason_settled "Resource is imported." now
new_ready_condition created now = ready_as status_true reason_settled "Resource is settled." now
new_ready_condition updated now = ready_as status_true reason_settled "Resource is settled." now
new_ready_condition deleted now =
    ready_as status_false reason_error (concat "unknown state: " (state_text deleted)) now
new_ready_condition (other t) now =
    ready_as status_false reason_error (concat "unknown state: " t) now
