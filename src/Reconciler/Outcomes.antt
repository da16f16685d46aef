-- ===== src/Reconciler/Outcomes.antt =====
-- reconciler.go: Skip, Invalidate and Unsupport.
use mongodb_atlas_kubernetes.Base.{String, Bool, true, false, Option, none, some, is_some, concat}
use mongodb_atlas_kubernetes.Base.Errors.{GoError, plain}
use mongodb_atlas_kubernetes.Base.Return.{Return}
use mongodb_atlas_kubernetes.Base.Effect.{Effect, pure, gets, ◌>>=◌, ◌>>◌}
use mongodb_atlas_kubernetes.Workflow.Conditions.{ready_type}
use mongodb_atlas_kubernetes.Workflow.Context.{set_condition_from_result}
use mongodb_atlas_kubernetes.Workflow.Results.{
  DeprecatedResult, ok_result, without_retry, reconcile_result,
}
use mongodb_atlas_kubernetes.Resource.Finalizer.{unset_finalizer}
use mongodb_atlas_kubernetes.Resource.Scene.{Scene, KubeClient, terminating, report, manage}

unfoldable pub invalidate : {W O A : Type 0} → DeprecatedResult → Effect (Scene W O A) Return
unfolding reconcile_result
invalidate invalid = pure (reconcile_result invalid)

module _ {W O A : Type 0} (kube : KubeClient W) where
  abbrev pub skipped_or_failed : Option GoError → Effect (Scene W O A) Return
  skipped_or_failed none = pure (reconcile_result ok_result)
  skipped_or_failed (some e) = do
    result ← terminating "InternalError" e
    pure (reconcile_result result)

  abbrev pub skip_by : Bool → Effect (Scene W O A) Return
  skip_by false = pure (reconcile_result ok_result)
  skip_by true = do e ← manage kube unset_finalizer; skipped_or_failed e

  -- A resource that is being deleted gives its finalizer up.
  unfoldable pub skip_resource : Effect (Scene W O A) Return
  unfolding manage terminating reconcile_result ok_result
  skip_resource = do deleting ← gets (λ s. is_some s.meta.deletion_timestamp); skip_by deleting

  unfoldable pub unsupport : String → Effect (Scene W O A) Return
  unfolding terminating without_retry report set_condition_from_result reconcile_result
  unsupport type_name = do
    result ←
        terminating "AtlasGovUnsupported"
          (plain (concat "the " (concat type_name " is not supported by Atlas for government")))
    report kube (set_condition_from_result ready_type (without_retry result))
    pure (reconcile_result (without_retry result))
