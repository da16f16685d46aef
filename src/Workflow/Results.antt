-- ===== src/Workflow/Results.antt =====
-- internal/controller/workflow/result.go. Terminate and TerminateSilently also add their error to
-- the dry-run queue, which they are given and return.
use mongodb_atlas_kubernetes.Base.{
  String, Bool, true, false, not, Option, none, some, if◌then◌else◌, ◌&&◌,
}
use mongodb_atlas_kubernetes.Base.Int.{ℤ, pos, negsuc, ltb_ℤ}
use mongodb_atlas_kubernetes.Base.Errors.{GoError, error_text}
use mongodb_atlas_kubernetes.Base.Return.{Return, done, failed}
use mongodb_atlas_kubernetes.Workflow.ErrorQueue.{ErrorQueue, add_termination_error}

pub record DeprecatedResult : Type 0 where
  pub terminated : Bool
  pub requeue_after : ℤ
  pub message : String
  pub reason : String
  pub warning : Bool
  pub deleted : Bool
  pub error : Option GoError

-- 10 * time.Second, in nanoseconds
abbrev pub default_retry : ℤ
default_retry = pos 10000000000

-- -1
abbrev pub no_requeue : ℤ
no_requeue = negsuc 0

unfoldable pub ok_result : DeprecatedResult
ok_result = record {
  terminated = false;
  requeue_after = no_requeue;
  message = "";
  reason = "";
  warning = false;
  deleted = false;
  error = none;
}

unfoldable pub requeue : ℤ → DeprecatedResult
unfolding ok_result
requeue period = record ok_result { requeue_after = period }

unfoldable pub terminate : String → GoError → ErrorQueue → DeprecatedResult × ErrorQueue
unfolding add_termination_error
terminate reason e q = (
  record {
    terminated = true;
    requeue_after = default_retry;
    message = error_text e;
    reason = reason;
    warning = true;
    deleted = false;
    error = some e;
  },
  add_termination_error e q,
)

unfoldable pub in_progress : String → String → DeprecatedResult
in_progress reason message = record {
  terminated = true;
  requeue_after = default_retry;
  message = message;
  reason = reason;
  warning = false;
  deleted = false;
  error = none;
}

unfoldable pub deleted_result : DeprecatedResult
unfolding ok_result
deleted_result = record ok_result { deleted = true }

unfoldable pub terminate_silently : GoError → ErrorQueue → DeprecatedResult × ErrorQueue
unfolding add_termination_error
terminate_silently e q = (
  record {
    terminated = true;
    requeue_after = default_retry;
    message = "";
    reason = "";
    warning = false;
    deleted = false;
    error = some e;
  },
  add_termination_error e q,
)

unfoldable pub with_retry : ℤ → DeprecatedResult → DeprecatedResult
with_retry retry r = record r { requeue_after = retry }

unfoldable pub without_retry : DeprecatedResult → DeprecatedResult
without_retry r = record r { error = none; requeue_after = no_requeue }

unfoldable pub with_message : String → DeprecatedResult → DeprecatedResult
with_message message r = record r { message = message }

unfoldable pub is_ok : DeprecatedResult → Bool
is_ok r = not r.terminated

unfoldable pub is_in_progress : DeprecatedResult → Bool
is_in_progress r = r.terminated && not r.warning

unfoldable pub clone_without_error : DeprecatedResult → DeprecatedResult
clone_without_error r = record r { error = none }

abbrev pub with_error : ℤ → Option GoError → Return
with_error period none = record { requeue_after = period; error = none }
with_error period (some e) = failed e

unfoldable pub reconcile_result : DeprecatedResult → Return
reconcile_result r =
    if ltb_ℤ r.requeue_after (pos 0) then done else with_error r.requeue_after r.error
