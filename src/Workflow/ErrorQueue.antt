-- ===== src/Workflow/ErrorQueue.antt =====
-- internal/dryrun/error_queue.go: the errors that a dry run collects. The mutex orders the calls,
-- which here come one after another.
use mongodb_atlas_kubernetes.Base.{Bool, true, List, [], ◌∷◌, ◌++◌, if◌then◌else◌}
use mongodb_atlas_kubernetes.Base.Errors.{GoError}

pub record ErrorQueue : Type 0 where
  pub active : Bool
  pub errs : List GoError

unfoldable pub add_termination_error : GoError → ErrorQueue → ErrorQueue
add_termination_error e q = if q.active then record q { errs = q.errs ++ e ∷ [] } else q

unfoldable pub clear_termination_errors : ErrorQueue → ErrorQueue
clear_termination_errors q = record q { errs = [] }

unfoldable pub enable_errors : ErrorQueue → ErrorQueue
enable_errors q = record q { active = true }
