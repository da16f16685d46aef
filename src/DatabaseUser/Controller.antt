-- ===== src/DatabaseUser/Controller.antt =====
-- internal/controller/atlasdatabaseuser: the states of atlasdatabaseuser_controller.go and
-- databaseuser.go, from dbuLifeCycle on.
use mongodb_atlas_kubernetes.Base.{
  ℕ, zero, suc, String, Bool, true, false, not, Option, none, some, List, [], ◌∷◌, if◌then◌else◌,
  concat, is_empty_text, str_eq, elem, lookup, ◌&&◌, ◌||◌,
}
use mongodb_atlas_kubernetes.Base.Int.{ℤ}
use mongodb_atlas_kubernetes.Base.Errors.{
  GoError, plain, errors_is, user_not_found, Answer, ok, err,
}
use mongodb_atlas_kubernetes.Base.Return.{Return}
use mongodb_atlas_kubernetes.Base.Effect.{Effect, pure, gets, ◌>>=◌, ◌>>◌}
use mongodb_atlas_kubernetes.Workflow.Conditions.{ready_type, database_user_ready}
use mongodb_atlas_kubernetes.Workflow.Context.{set_condition_from_result, set_condition_true}
use mongodb_atlas_kubernetes.Workflow.Results.{
  ok_result, requeue, in_progress, without_retry, reconcile_result,
}
use mongodb_atlas_kubernetes.Resource.Finalizer.{
  finalizer_label, have_finalizer, set_finalizer, unset_finalizer,
}
use mongodb_atlas_kubernetes.Resource.Scene.{KubeClient, add_option, terminating, report, manage}
use mongodb_atlas_kubernetes.Reconciler.Passage.{reading}
use mongodb_atlas_kubernetes.Validate.Project.{Parsing}
use mongodb_atlas_kubernetes.DatabaseUser.Conversion.{
  ScopeSpec, UserSpec, User, equal_specs, or_empty_list,
}
use mongodb_atlas_kubernetes.DatabaseUser.Service.{
  UsersApi, Deployments, UserSecrets, UserSim, name_option, password_version, delete_user,
}

-- The AtlasDatabaseUser as far as it is read, and the reconciler's settings.
pub record UserRequest : Type 0 where
  pub project_id : String
  pub spec : UserSpec
  pub password_secret : Option String
  pub status_name : String
  pub status_password_version : String
  pub has_external_project : Bool
  pub independent_sync_period : ℤ
  pub object_deletion_protection : Bool

-- AtlasDatabaseUser.GetScopes
abbrev pub names_of : String → List ScopeSpec → List String
names_of t [] = []
names_of t (s ∷ rest) =
    let more = names_of t rest in if str_eq s.scope_type t then s.scope_name ∷ more else more

abbrev pub get_scopes : UserRequest → List String
get_scopes req = names_of "CLUSTER" (or_empty_list req.spec.scopes)

abbrev pub those_in : List String → List String → List String
those_in all [] = []
those_in all (s ∷ rest) = let more = those_in all rest in if elem s all then s ∷ more else more

unfoldable pub filter_scope_deployments : UserRequest → List String → List String
filter_scope_deployments req all = those_in all (get_scopes req)

unfoldable pub was_renamed : UserRequest → Bool
was_renamed req =
    not (is_empty_text req.status_name) && not (str_eq req.spec.username req.status_name)

unfoldable pub has_changed : User → User → String → String → Bool
unfolding equal_specs
has_changed own theirs current version =
    not (equal_specs own.spec theirs.spec) || not (str_eq current version)

-- The parts that the controller is made of; `show_int` is `"%d"`.
pub record UserParts (W : Type 0) : Type 0 where
  pub kube : KubeClient W
  pub parsing : Parsing
  pub show_int : ℕ → String
  pub users : UsersApi W
  pub deployments : Deployments W
  pub secrets : UserSecrets W

-- terminate, on a condition: with a reason, another try or not, and the error
unfoldable pub terminate_on :
    {W : Type 0} → KubeClient W → String → String → Bool → GoError → Effect (UserSim W) Return
unfolding terminating report set_condition_from_result reconcile_result without_retry
terminate_on kube condition reason retry e = do
  result ← terminating reason e
  report kube (set_condition_from_result condition result)
  pure (reconcile_result (if retry then result else without_retry result))

module _ {W : Type 0} (parts : UserParts W) (req : UserRequest) where
  unfoldable pub terminate_user : String → Bool → GoError → Effect (UserSim W) Return
  unfolding terminate_on
  terminate_user reason retry e = terminate_on parts.kube database_user_ready reason retry e

  abbrev pub after_unset : Option GoError → Effect (UserSim W) Return
  after_unset (some e) = terminate_user "AtlasFinalizerNotRemoved" true e
  after_unset none = pure (reconcile_result ok_result)

  abbrev pub unset_if : Bool → Effect (UserSim W) Return
  unset_if false = pure (reconcile_result ok_result)
  unset_if true = do e ← manage parts.kube unset_finalizer; after_unset e

  abbrev pub unset_if_clean : Option GoError → Effect (UserSim W) Return
  unset_if_clean (some e) = terminate_user "DatabaseUserConnectionSecretsNotDeleted" true e
  unset_if_clean none = do r ← gets (λ s. s.meta); unset_if (have_finalizer r finalizer_label)

  unfoldable pub unmanage_user : Effect (UserSim W) Return
  unfolding terminate_user manage have_finalizer reconcile_result ok_result
  unmanage_user = do e ← reading (parts.secrets.remove_stale req.spec.username); unset_if_clean e

  abbrev pub set_if_missing : Bool → Effect (UserSim W) (Option GoError)
  set_if_missing true = pure none
  set_if_missing false = manage parts.kube set_finalizer

  abbrev pub claim : Effect (UserSim W) (Option GoError)
  claim = do r ← gets (λ s. s.meta); set_if_missing (have_finalizer r finalizer_label)

  abbrev pub apply_config : Effect (UserSim W) (Option GoError)
  apply_config = do r ← gets (λ s. s.meta); reading (parts.secrets.apply_last_config r)

  abbrev pub pending_or_failed : String → String → Option GoError → Effect (UserSim W) Return
  pending_or_failed version msg (some e) = terminate_user "InternalError" true e
  pending_or_failed version msg none = do
    report parts.kube (
        set_condition_from_result database_user_ready
          (in_progress "DeploymentAppliedDatabaseUsersChanges" msg))
    add_option (name_option req.spec.username)
    add_option (password_version version)
    pure (reconcile_result (in_progress "DeploymentAppliedDatabaseUsersChanges" msg))

  abbrev pub pending_if_claimed : String → String → Option GoError → Effect (UserSim W) Return
  pending_if_claimed version msg (some e) = terminate_user "AtlasFinalizerNotSet" true e
  pending_if_claimed version msg none = do e ← apply_config; pending_or_failed version msg e

  unfoldable pub pend_user : String → String → Effect (UserSim W) Return
  unfolding terminate_user manage have_finalizer report set_condition_from_result add_option
      in_progress reconcile_result
  pend_user version msg = do e ← claim; pending_if_claimed version msg e

  abbrev pub ready_or_failed : String → Option GoError → Effect (UserSim W) Return
  ready_or_failed version (some e) = terminate_user "InternalError" true e
  ready_or_failed version none = do
    report parts.kube (set_condition_true ready_type)
    report parts.kube (set_condition_true database_user_ready)
    add_option (name_option req.spec.username)
    add_option (password_version version)
    pure (
        reconcile_result
          (if req.has_external_project then requeue req.independent_sync_period else ok_result))

  abbrev pub ready_if_claimed : String → Option GoError → Effect (UserSim W) Return
  ready_if_claimed version (some e) = terminate_user "AtlasFinalizerNotSet" true e
  ready_if_claimed version none = do e ← apply_config; ready_or_failed version e

  unfoldable pub ready_user : String → Effect (UserSim W) Return
  unfolding terminate_user manage have_finalizer report set_condition_true add_option requeue
      ok_result reconcile_result
  ready_user version = do e ← claim; ready_if_claimed version e

  -- the password and the version of its secret
  abbrev pub password_in :
      String → Answer (List (String × String) × String) → Answer (String × String)
  password_in name (err e) = err e
  password_in name (ok (fields, version)) = elim (lookup "password" fields) [
    | none ↦
        err (
          plain (concat "secret " (concat name " is invalid: it doesn't contain 'password' field")))
    | some p ↦
        if is_empty_text p
        then err
            (plain (concat "secret " (concat name " is invalid: the 'password' field is empty")))
        else ok (p, version)
  ]

  abbrev pub password_of : Option String → Effect (UserSim W) (Answer (String × String))
  password_of none = pure (ok ("", ""))
  password_of (some name) = do
    got ← reading (parts.secrets.read_secret name)
    pure (password_in name got)

  unfoldable pub read_password : Effect (UserSim W) (Answer (String × String))
  read_password = password_of req.password_secret

  -- removeOldUser: so many attempts are left
  abbrev pub is_done : Option GoError → Bool
  is_done none = true
  is_done (some e) = errors_is e user_not_found

  unfoldable pub remove_old_user : ℕ → Option GoError → Effect (UserSim W) (Option GoError)
  unfolding delete_user
  remove_old_user zero last = pure last
  remove_old_user (suc n) last = do
    e ← delete_user parts.parsing parts.users req.spec.database_name req.status_name
    let again = remove_old_user n e in if is_done e then pure none else again
