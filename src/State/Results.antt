-- ===== src/State/Results.antt =====
-- pkg/result/result.go: the results that a state handler returns.
use mongodb_atlas_kubernetes.Base.{
  String, Option, none, some, if◌then◌else◌, ◌&&◌, not, concat, has_suffix, is_empty_text,
}
use mongodb_atlas_kubernetes.Base.Int.{ℤ, pos}
use mongodb_atlas_kubernetes.Base.Errors.{GoError, plain}
use mongodb_atlas_kubernetes.State.{
  ResourceState, initial, import_requested, imported, creating, created, updating, updated,
  deletion_requested, deleting, deleted, other,
}

-- state.Result: reconcile.Result (its RequeueAfter, in nanoseconds), the next state and a message.
pub record Result : Type 0 where
  pub requeue_after : ℤ
  pub next_state : ResourceState
  pub state_msg : String

-- 15 * time.Second
abbrev pub default_requeue_time : ℤ
default_requeue_time = pos 15000000000

-- `ctrlstate.Result{}`
abbrev pub empty_result : Result
empty_result = record { requeue_after = pos 0; next_state = other ""; state_msg = "" }

abbrev pub settled_result : ResourceState → String → Result × Option GoError
settled_result s msg = (record { requeue_after = pos 0; next_state = s; state_msg = msg }, none)

abbrev pub polling_result : ResourceState → String → Result × Option GoError
polling_result s msg =
    (record { requeue_after = default_requeue_time; next_state = s; state_msg = msg }, none)

-- `if len(msg) > 0 && !strings.HasSuffix(msg, ".") { msg = msg + "." }`
unfoldable pub punctuate : String → String
punctuate msg = if not (is_empty_text msg) && not (has_suffix msg ".") then concat msg "." else msg

-- the `switch`
unfoldable pub result_of : ResourceState → String → Result × Option GoError
result_of created msg = settled_result created msg
result_of imported msg = settled_result imported msg
result_of updated msg = settled_result updated msg
result_of deleted msg = settled_result deleted msg
result_of initial msg = settled_result initial msg
result_of import_requested msg = settled_result import_requested msg
result_of creating msg = polling_result creating msg
result_of updating msg = polling_result updating msg
result_of deleting msg = polling_result deleting msg
result_of deletion_requested msg = polling_result deletion_requested msg
result_of (other t) msg = (empty_result, some (plain (concat "unknown state " t)))

unfoldable pub next_state : ResourceState → String → Result × Option GoError
unfolding punctuate result_of
next_state s msg = result_of s (punctuate msg)

-- Error
unfoldable pub error_result : ResourceState → GoError → Result × Option GoError
error_result s e = (record { requeue_after = pos 0; next_state = s; state_msg = "" }, some e)
