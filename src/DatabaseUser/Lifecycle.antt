-- ===== src/DatabaseUser/Lifecycle.antt =====
-- The transitions of internal/controller/atlasdatabaseuser/databaseuser.go, and dbuLifeCycle.
use mongodb_atlas_kubernetes.Base.{
  ℕ, ◌+◌, String, Bool, true, false, not, Option, none, some, List, [], ◌∷◌, if◌then◌else◌, is_some,
  concat, is_empty_text, ltb, length,
}
use mongodb_atlas_kubernetes.Base.Errors.{
  GoError, plain, errors_is, user_not_found, Answer, ok, err,
}
use mongodb_atlas_kubernetes.Base.Return.{Return}
use mongodb_atlas_kubernetes.Base.Effect.{Effect, pure, gets, ◌>>=◌, ◌>>◌}
use mongodb_atlas_kubernetes.Workflow.Conditions.{database_user_ready}
use mongodb_atlas_kubernetes.Workflow.Context.{set_condition_from_result}
use mongodb_atlas_kubernetes.Resource.Policy.{is_resource_policy_keep_or_default}
use mongodb_atlas_kubernetes.Resource.Scene.{terminating, report}
use mongodb_atlas_kubernetes.Reconciler.Passage.{reading}
use mongodb_atlas_kubernetes.Validate.Project.{Time, parse_iso8601}
use mongodb_atlas_kubernetes.DatabaseUser.Conversion.{ScopeSpec, User, new_user}
use mongodb_atlas_kubernetes.DatabaseUser.Service.{
  UserSim, get_user, delete_user, create_user, update_user,
}
use mongodb_atlas_kubernetes.DatabaseUser.Controller.{
  UserRequest, UserParts, get_scopes, filter_scope_deployments, was_renamed, has_changed,
  terminate_user, unmanage_user, pend_user, ready_user, read_password, remove_old_user,
}

module _ {W : Type 0} (parts : UserParts W) (req : UserRequest) where
  abbrev pub scheduled : String
  scheduled = "Clusters are scheduled to handle database users updates"

  abbrev pub after_old_user : String → Option GoError → Effect (UserSim W) Return
  after_old_user version (some e) = terminate_user parts req "InternalError" true e
  after_old_user version none = pend_user parts req version scheduled

  abbrev pub after_stale : String → Option GoError → Effect (UserSim W) Return
  after_stale version (some e) =
      terminate_user parts req "DatabaseUserConnectionSecretsNotDeleted" true e
  after_stale version none = do e ← remove_old_user parts req 3 none; after_old_user version e

  abbrev pub rename_if : String → Bool → Effect (UserSim W) Return
  rename_if version false = pend_user parts req version scheduled
  rename_if version true = do
    e ← reading (parts.secrets.remove_stale req.status_name)
    after_stale version e

  abbrev pub after_create_user : String → Option GoError → Effect (UserSim W) Return
  after_create_user version (some e) =
      terminate_user parts req "DatabaseUserNotCreatedInAtlas" true e
  after_create_user version none = rename_if version (was_renamed req)

  abbrev pub create_made : String → Answer User → Effect (UserSim W) Return
  create_made version (err e) = terminate_user parts req "InternalError" true e
  create_made version (ok u) = do
    e ← create_user parts.parsing parts.users u
    after_create_user version e

  abbrev pub made_user : String → Answer User
  made_user password = new_user parts.parsing req.spec req.project_id password

  abbrev pub create_with : Answer (String × String) → Effect (UserSim W) Return
  create_with (err e) = terminate_user parts req "InternalError" true e
  create_with (ok (password, version)) = create_made version (made_user password)

  unfoldable pub create_db_user : Effect (UserSim W) Return
  unfolding read_password create_user terminate_user pend_user remove_old_user was_renamed new_user
  create_db_user = do got ← read_password parts req; create_with got

  abbrev pub plus : ℕ → Answer ℕ → Answer ℕ
  plus n (ok k) = ok (n + k)
  plus n (err e) = err e

  abbrev pub count_next :
      Answer Bool → Effect (UserSim W) (Answer ℕ) → Effect (UserSim W) (Answer ℕ)
  count_next (err e) more = pure (err e)
  count_next (ok true) more = do k ← more; pure (plus 1 k)
  count_next (ok false) more = more

  -- the loop over the deployments that counts the ready ones
  abbrev pub count_ready : List String → Effect (UserSim W) (Answer ℕ)
  count_ready [] = pure (ok 0)
  count_ready (d ∷ ds) = do
    ready ← reading (parts.deployments.deployment_is_ready d)
    count_next ready (count_ready ds)

  abbrev pub after_secrets : String → Option String → Effect (UserSim W) Return
  after_secrets version (some msg) =
      terminate_user parts req "DatabaseUserConnectionSecretsNotCreated" true (plain msg)
  after_secrets version none = ready_user parts req version

  abbrev pub after_count : String → List String → Answer ℕ → Effect (UserSim W) Return
  after_count version ds (err e) = terminate_user parts req "InternalError" true e
  after_count version ds (ok n) =
      if ltb n (length ds)
      then pend_user parts req version (
          concat (parts.show_int n) (
            concat " out of " (
              concat (parts.show_int (length ds))
                " deployments have applied database user changes")))
      else (do failure ← reading parts.secrets.write_connection; after_secrets version failure)

  abbrev pub to_check : Option (List ScopeSpec) → List String → List String
  to_check none all = all
  to_check (some scopes) all = filter_scope_deployments req all

  abbrev pub after_reap : String → List String → Option GoError → Effect (UserSim W) Return
  after_reap version all (some e) = terminate_user parts req "InternalError" true e
  after_reap version all none = do
    n ← count_ready (to_check req.spec.scopes all)
    after_count version (to_check req.spec.scopes all) n

  abbrev pub after_names : String → Answer (List String) → Effect (UserSim W) Return
  after_names version (err e) = terminate_user parts req "InternalError" true e
  after_names version (ok all) = do
    e ← reading (parts.secrets.reap_orphans all)
    after_reap version all e

  unfoldable pub readiness : String → Effect (UserSim W) Return
  unfolding terminate_user pend_user ready_user filter_scope_deployments
  readiness version = do
    names ← reading parts.deployments.list_deployment_names
    after_names version names

  abbrev pub after_changes : String → Option GoError → Effect (UserSim W) Return
  after_changes version (some e) = terminate_user parts req "DatabaseUserNotUpdatedInAtlas" true e
  after_changes version none = pend_user parts req version scheduled

  abbrev pub update_if : String → User → Bool → Effect (UserSim W) Return
  update_if version u false = readiness version
  update_if version u true = do e ← update_user parts.parsing parts.users u; after_changes version e

  abbrev pub update_made : User → String → Answer User → Effect (UserSim W) Return
  update_made theirs version (err e) = terminate_user parts req "InternalError" true e
  update_made theirs version (ok u) =
      update_if version u (has_changed u theirs req.status_password_version version)

  abbrev pub update_with : User → Answer (String × String) → Effect (UserSim W) Return
  update_with theirs (err e) = terminate_user parts req "InternalError" true e
  update_with theirs (ok (password, version)) = update_made theirs version (made_user password)

  unfoldable pub update_db_user : User → Effect (UserSim W) Return
  unfolding read_password update_user terminate_user pend_user readiness has_changed new_user
  update_db_user theirs = do got ← read_password parts req; update_with theirs got

  abbrev pub after_delete_user : Option GoError → Effect (UserSim W) Return
  after_delete_user none = unmanage_user parts req
  after_delete_user (some e) =
      if not (errors_is e user_not_found)
      then terminate_user parts req "DatabaseUserNotDeletedInAtlas" true e
      else unmanage_user parts req

  abbrev pub delete_unless : Bool → Effect (UserSim W) Return
  delete_unless true = unmanage_user parts req
  delete_unless false = do
    e ← delete_user parts.parsing parts.users req.spec.database_name req.spec.username
    after_delete_user e

  unfoldable pub delete_db_user : Effect (UserSim W) Return
  unfolding delete_user unmanage_user terminate_user is_resource_policy_keep_or_default
  delete_db_user = do
    r ← gets (λ s. s.meta)
    delete_unless (is_resource_policy_keep_or_default r req.object_deletion_protection)

  abbrev pub by_presence : Option User → Bool → Effect (UserSim W) Return
  by_presence none false = create_db_user
  by_presence (some theirs) false = update_db_user theirs
  by_presence (some theirs) true = delete_db_user
  by_presence none true = unmanage_user parts req

  -- areDeploymentScopesValid
  abbrev pub scope_next :
      Answer Bool → Effect (UserSim W) (Answer Bool) → Effect (UserSim W) (Answer Bool)
  scope_next (err e) more = pure (err e)
  scope_next (ok false) more = pure (ok false)
  scope_next (ok true) more = more

  unfoldable pub scopes_exist : List String → Effect (UserSim W) (Answer Bool)
  scopes_exist [] = pure (ok true)
  scopes_exist (s ∷ rest) = do
    exists ← reading (parts.deployments.cluster_exists s)
    scope_next exists (scopes_exist rest)

  abbrev pub after_scopes : Option User → Answer Bool → Effect (UserSim W) Return
  after_scopes theirs (err e) = terminate_user parts req "DatabaseUserInvalidSpec" false e
  after_scopes theirs (ok false) =
      terminate_user parts req "DatabaseUserInvalidSpec" false
        (plain "\"scopes\" field refer to one or more deployments that don't exist")
  after_scopes theirs (ok true) = do
    r ← gets (λ s. s.meta)
    by_presence theirs (is_some r.deletion_timestamp)

  abbrev pub before_now : Answer Time → Effect (UserSim W) (Answer Bool)
  before_now (err e) = pure (err e)
  before_now (ok t) = do now ← reading parts.kube.now; pure (ok (ltb t.instant now))

  -- isExpired
  unfoldable pub is_user_expired : Effect (UserSim W) (Answer Bool)
  unfolding parse_iso8601
  is_user_expired =
      if is_empty_text req.spec.delete_after_date
      then pure (ok false)
      else before_now (parse_iso8601 parts.parsing req.spec.delete_after_date)

  abbrev pub after_expired_secrets : Option GoError → Effect (UserSim W) Return
  after_expired_secrets (some e) =
      terminate_user parts req "DatabaseUserConnectionSecretsNotDeleted" true e
  after_expired_secrets none = do
    result ← terminating "DatabaseUserExpired" (plain "an expired user cannot be managed")
    report parts.kube (set_condition_from_result database_user_ready result)
    unmanage_user parts req

  abbrev pub after_expiry : Option User → Answer Bool → Effect (UserSim W) Return
  after_expiry theirs (err e) = terminate_user parts req "DatabaseUserInvalidSpec" false e
  after_expiry theirs (ok true) = do
    e ← reading (parts.secrets.remove_stale req.spec.username)
    after_expired_secrets e
  after_expiry theirs (ok false) = do
    valid ← scopes_exist (get_scopes req)
    after_scopes theirs valid

  abbrev pub looked_at : Option User → Effect (UserSim W) Return
  looked_at theirs = do expired ← is_user_expired; after_expiry theirs expired

  abbrev pub after_get_user : Answer User → Effect (UserSim W) Return
  after_get_user (ok theirs) = looked_at (some theirs)
  after_get_user (err e) =
      if not (errors_is e user_not_found)
      then terminate_user parts req "InternalError" true e
      else looked_at none

  unfoldable pub dbu_life_cycle : Effect (UserSim W) Return
  unfolding get_user terminate_user unmanage_user scopes_exist is_user_expired create_db_user
      update_db_user delete_db_user report set_condition_from_result terminating
  dbu_life_cycle = do
    got ← get_user parts.parsing parts.users req.spec.database_name req.spec.username
    after_get_user got
