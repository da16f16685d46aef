-- ===== src/Workflow/Context.antt =====
-- internal/controller/workflow/status.go and context.go. `O` is the type of the status options, the
-- functions that update a status; a time is given to what calls metav1.Now.
use mongodb_atlas_kubernetes.Base.{
  ℕ, String, Bool, false, Option, none, some, List, [], ◌∷◌, ◌++◌, if◌then◌else◌, str_eq, ◌||◌,
}
use mongodb_atlas_kubernetes.Workflow.Conditions.{
  Condition, Status, status_true, status_false, ensure_condition_exists, remove_condition_if_exists,
}
use mongodb_atlas_kubernetes.Workflow.Results.{DeprecatedResult, is_ok}

pub record StatusLog (O : Type 0) : Type 0 where
  pub options : List O
  pub conditions : List Condition

pub record Context (O : Type 0) : Type 0 where
  pub status : StatusLog O
  pub last_condition : Option Condition
  pub last_condition_warn : Bool

-- A Condition literal of the source: the time is set when it is stored.
abbrev pub condition : String → Status → String → String → Condition
condition kind status reason message = record {
  kind = kind;
  status = status;
  last_transition_time = 0;
  reason = reason;
  message = message;
}

module _ {O : Type 0} where
  unfoldable pub new_context : List Condition → Context O
  new_context conditions = record {
    status = record { options = []; conditions = conditions };
    last_condition = none;
    last_condition_warn = false;
  }

  unfoldable pub ensure_option : O → StatusLog O → StatusLog O
  ensure_option option s = record s { options = s.options ++ option ∷ [] }

  unfoldable pub ensure_status_option : O → Context O → Context O
  unfolding ensure_option
  ensure_status_option option c = record c { status = ensure_option option c.status }

  unfoldable pub ensure_condition : Condition → ℕ → Context O → Context O
  unfolding ensure_condition_exists
  ensure_condition new now c = record c {
    status = record (c.status) { conditions = ensure_condition_exists new c.status.conditions now };
    last_condition = some new;
  }

  unfoldable pub set_condition_from_result : String → DeprecatedResult → ℕ → Context O → Context O
  unfolding ensure_condition is_ok
  set_condition_from_result kind result now c =
      record (ensure_condition
        (condition kind (if is_ok result then status_true else status_false) result.reason
          result.message)
        now c) { last_condition_warn = result.warning }

  unfoldable pub set_condition_false : String → ℕ → Context O → Context O
  unfolding ensure_condition
  set_condition_false kind now c = ensure_condition (condition kind status_false "" "") now c

  unfoldable pub set_condition_false_msg : String → String → ℕ → Context O → Context O
  unfolding ensure_condition
  set_condition_false_msg kind msg now c =
      ensure_condition (condition kind status_false "" msg) now c

  unfoldable pub set_condition_true : String → ℕ → Context O → Context O
  unfolding ensure_condition
  set_condition_true kind now c = ensure_condition (condition kind status_true "" "") now c

  unfoldable pub set_condition_true_msg : String → String → ℕ → Context O → Context O
  unfolding ensure_condition
  set_condition_true_msg kind msg now c = ensure_condition (condition kind status_true "" msg) now c

  unfoldable pub unset_condition : String → Context O → Context O
  unfolding remove_condition_if_exists
  unset_condition kind c = record c {
    status = record (c.status) { conditions = remove_condition_if_exists kind c.status.conditions };
  }

abbrev pub any_reason : String → List Condition → Bool
any_reason reason [] = false
any_reason reason (c ∷ cs) = str_eq c.reason reason || any_reason reason cs

unfoldable pub has_reason : {O : Type 0} → String → Context O → Bool
has_reason reason c = any_reason reason c.status.conditions
