-- ===== src/Base/Return.antt =====
-- What a reconciler hands back to controller-runtime.
use mathlib.Core.Option.{Option, none, some}
use mongodb_atlas_kubernetes.Base.Int.{ℤ, pos}
use mongodb_atlas_kubernetes.Base.Errors.{GoError}

-- reconcile.Result, of which RequeueAfter is used, and the error.
pub record Return : Type 0 where
  pub requeue_after : ℤ
  pub error : Option GoError

abbrev pub done : Return
done = record { requeue_after = pos 0; error = none }

abbrev pub failed : GoError → Return
failed e = record { requeue_after = pos 0; error = some e }
