-- ===== src/Resource/Prepare.antt =====
-- PrepareResource and ValidateResourceVersion of customresource.go.
use mongodb_atlas_kubernetes.Base.{String, Bool, true, false, if◌then◌else◌, concat}
use mongodb_atlas_kubernetes.Base.Errors.{
  GoError, plain, errors_is, object_not_found, Answer, ok, err,
}
use mongodb_atlas_kubernetes.Base.Effect.{Effect, pure, gets, ◌>>=◌, ◌>>◌}
use mongodb_atlas_kubernetes.Workflow.Conditions.{resource_version_status}
use mongodb_atlas_kubernetes.Workflow.Context.{set_condition_from_result, set_condition_true}
use mongodb_atlas_kubernetes.Workflow.ErrorQueue.{ErrorQueue}
use mongodb_atlas_kubernetes.Workflow.Results.{
  DeprecatedResult, terminate_silently, without_retry, ok_result,
}
use mongodb_atlas_kubernetes.Resource.Meta.{Meta}
use mongodb_atlas_kubernetes.Resource.Policy.{Semver, resource_version_is_valid}
use mongodb_atlas_kubernetes.Resource.Scene.{Scene, KubeClient, report, terminating}

-- The answer of Client.Get, the dry-run queue, and the result.
unfoldable pub prepare_resource : Answer Meta → ErrorQueue → DeprecatedResult × ErrorQueue
unfolding terminate_silently without_retry ok_result
prepare_resource (ok r) q = (ok_result, q)
prepare_resource (err e) q =
    let (r, q') = terminate_silently e q in
    (if errors_is e object_not_found then without_retry r else r, q')

module _ {W O A V : Type 0} (kube : KubeClient W) (semver : Semver V)
    (operator_version : String) where
  abbrev pub rejected : String → GoError → Effect (Scene W O A) DeprecatedResult
  rejected reason e = do
    result ← terminating reason e
    report kube (set_condition_from_result resource_version_status result)
    pure result

  abbrev pub judged : Meta → Answer Bool → Effect (Scene W O A) DeprecatedResult
  judged r (err e) = rejected "AtlasResourceVersionIsInvalid" e
  judged r (ok false) = rejected "AtlasResourceVersionMismatch" (
      plain (
        concat "version of the resource '" (
          concat r.name
            (concat "' is higher than the operator version '" (concat operator_version "'. ")))))
  judged r (ok true) = do report kube (set_condition_true resource_version_status); pure ok_result

  unfoldable pub validate_resource_version : Effect (Scene W O A) DeprecatedResult
  unfolding resource_version_is_valid report terminating set_condition_from_result
      set_condition_true ok_result
  validate_resource_version = do
    r ← gets (λ s. s.meta)
    judged r (resource_version_is_valid semver operator_version r)
