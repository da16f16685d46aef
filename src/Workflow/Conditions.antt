-- ===== src/Workflow/Conditions.antt =====
-- api/condition.go and InitCondition of api/atlascustomresource.go. The time of metav1.Now is an
-- argument of the functions that read it.
use mongodb_atlas_kubernetes.Base.{
  ℕ, String, Bool, true, false, Option, none, some, List, [], ◌∷◌, if◌then◌else◌, str_eq, ◌&&◌,
  ◌||◌,
}

-- corev1.ConditionStatus
pub data Status : Type 0 where
  status_true status_false status_unknown : Status

abbrev pub same : Status → Status → Bool
same status_true status_true = true
same status_false status_false = true
same status_unknown status_unknown = true
same _ _ = false

abbrev pub is_true : Status → Bool
is_true status_true = true
is_true _ = false

-- `kind` is the field Type.
pub record Condition : Type 0 where
  pub kind : String
  pub status : Status
  pub last_transition_time : ℕ
  pub reason : String
  pub message : String

abbrev pub ready_type : String
ready_type = "Ready"

abbrev pub ip_access_list_ready : String
ip_access_list_ready = "IPAccessListReady"

abbrev pub network_container_ready : String
network_container_ready = "NetworkContainerReady"

abbrev pub network_peer_ready : String
network_peer_ready = "NetworkPeerReady"

abbrev pub database_user_ready : String
database_user_ready = "DatabaseUserReady"

abbrev pub resource_version_status : String
resource_version_status = "ResourceVersionIsValid"

abbrev pub validation_succeeded : String
validation_succeeded = "ValidationSucceeded"

abbrev pub project_custom_roles_ready_type : String
project_custom_roles_ready_type = "ProjectCustomRolesReady"

abbrev pub false_condition : String → ℕ → Condition
false_condition kind now = record {
  kind = kind;
  status = status_false;
  last_transition_time = now;
  reason = "";
  message = "";
}

unfoldable pub has_condition_type : String → List Condition → Bool
has_condition_type kind [] = false
has_condition_type kind (c ∷ cs) = str_eq c.kind kind || has_condition_type kind cs

unfoldable pub has_ready_condition : List Condition → Bool
has_ready_condition [] = false
has_ready_condition (c ∷ cs) =
    (str_eq c.kind ready_type && is_true c.status) || has_ready_condition cs

-- the loop of EnsureConditionExists over `source`
unfoldable pub replace_or_append : Condition → List Condition → List Condition
replace_or_append new [] = new ∷ []
replace_or_append new (c ∷ cs) =
    if str_eq c.kind new.kind
    then (if same c.status new.status
        then record new { last_transition_time = c.last_transition_time }
        else new)
      ∷ cs
    else c ∷ replace_or_append new cs

unfoldable pub ensure_condition_exists : Condition → List Condition → ℕ → List Condition
unfolding replace_or_append
ensure_condition_exists condition source now =
    replace_or_append (record condition { last_transition_time = now }) source

unfoldable pub remove_condition_if_exists : String → List Condition → List Condition
remove_condition_if_exists kind [] = []
remove_condition_if_exists kind (c ∷ cs) =
    let rest = remove_condition_if_exists kind cs in if str_eq c.kind kind then rest else c ∷ rest

-- Status.GetCondition
unfoldable pub get_condition : String → List Condition → Option Condition
get_condition kind [] = none
get_condition kind (c ∷ cs) = if str_eq c.kind kind then some c else get_condition kind cs

-- api.InitCondition
unfoldable pub init_condition : Condition → List Condition → ℕ → List Condition
unfolding has_condition_type ensure_condition_exists
init_condition default conditions now =
    if has_condition_type default.kind conditions
    then conditions
    else ensure_condition_exists default conditions now
