-- ===== src/DatabaseUser/Service.antt =====
-- What the database user controller calls: AtlasUsersService of internal/translation/dbuser, the
-- deployments of the project, and the secrets of the cluster (connectionsecrets.go of
-- internal/controller/atlasdatabaseuser), at one project and one resource.
use mongodb_atlas_kubernetes.Base.{String, Bool, Option, none, some, List, if◌then◌else◌, concat}
use mongodb_atlas_kubernetes.Base.Errors.{
  GoError, sentinel, wrap, joined, user_not_found, Answer, ok, err,
}
use mongodb_atlas_kubernetes.Base.Effect.{Effect, pure, ◌>>=◌}
use mongodb_atlas_kubernetes.Resource.Meta.{Meta}
use mongodb_atlas_kubernetes.Resource.Scene.{Scene, call_atlas}
use mongodb_atlas_kubernetes.NetworkPeering.Conversion.{quoted}
use mongodb_atlas_kubernetes.DatabaseUser.Conversion.{
  User, CloudUser, user_to_atlas, user_from_atlas,
}
use mongodb_atlas_kubernetes.Validate.Project.{Parsing}

-- admin.DatabaseUsersApi and `admin.IsErrorCode`
pub record UsersApi (W : Type 0) : Type 0 where
  pub get_database_user : String → String → W → Answer CloudUser × W
  pub delete_database_user : String → String → W → Option GoError × W
  pub create_database_user : CloudUser → W → Option GoError × W
  pub update_database_user : String → String → CloudUser → W → Option GoError × W
  pub is_api_code : GoError → String → Bool

pub record Deployments (W : Type 0) : Type 0 where
  pub list_deployment_names : W → Answer (List String) × W
  pub cluster_exists : String → W → Answer Bool × W
  pub deployment_is_ready : String → W → Answer Bool × W

pub record UserSecrets (W : Type 0) : Type 0 where
  -- Client.Get of a Secret of the resource's namespace: its data and its resource version
  pub read_secret : String → W → Answer (List (String × String) × String) × W
  -- RemoveStaleSecretsByUserName, ReapOrphanConnectionSecrets and CreateOrUpdateConnectionSecrets,
  -- which answers the message of a result that is not OK
  pub remove_stale : String → W → Option GoError × W
  pub reap_orphans : List String → W → Option GoError × W
  pub write_connection : W → Option String × W
  -- ApplyLastConfigApplied of internal/controller/customresource
  pub apply_last_config : Meta → W → Option GoError × W

-- the calls to Atlas, with the database and the name of the user
pub data UserCall : Type 0 where
  gets_user : String → String → UserCall
  deletes_user : String → String → UserCall
  creates_user : CloudUser → UserCall
  updates_user : String → String → CloudUser → UserCall

-- AtlasDatabaseUserStatusOption: the user's name and the version of the password
pub data UserOption : Type 0 where
  name_option : String → UserOption
  password_version : String → UserOption

abbrev pub UserSim : Type 0 → Type 0
UserSim W = Scene W UserOption UserCall

module _ {W : Type 0} (parsing : Parsing) (api : UsersApi W) where
  abbrev pub got_user : String → Answer CloudUser → Answer User
  got_user name (ok u) = user_from_atlas parsing u
  got_user name (err e) =
      if api.is_api_code e "USERNAME_NOT_FOUND"
      then err (joined (sentinel user_not_found) e)
      else err (wrap (concat "failed to get database user " (quoted name)) e)

  unfoldable pub get_user : String → String → Effect (UserSim W) (Answer User)
  unfolding call_atlas user_from_atlas
  get_user db name = do
    got ← call_atlas (gets_user db name) (api.get_database_user db name)
    pure (got_user name got)

  abbrev pub deleted_user : Option GoError → Option GoError
  deleted_user none = none
  deleted_user (some e) =
      if api.is_api_code e "USER_NOT_FOUND"
      then some (joined (sentinel user_not_found) e)
      else some e

  unfoldable pub delete_user : String → String → Effect (UserSim W) (Option GoError)
  unfolding call_atlas
  delete_user db name = do
    e ← call_atlas (deletes_user db name) (api.delete_database_user db name)
    pure (deleted_user e)

  abbrev pub send_user : Answer CloudUser → Effect (UserSim W) (Option GoError)
  send_user (err e) = pure (some e)
  send_user (ok u) = call_atlas (creates_user u) (api.create_database_user u)

  unfoldable pub create_user : User → Effect (UserSim W) (Option GoError)
  unfolding call_atlas user_to_atlas
  create_user u = send_user (user_to_atlas parsing u)

  abbrev pub send_changes : User → Answer CloudUser → Effect (UserSim W) (Option GoError)
  send_changes u (err e) = pure (some e)
  send_changes u (ok c) =
      call_atlas (updates_user u.spec.database_name u.spec.username c)
        (api.update_database_user u.spec.database_name u.spec.username c)

  unfoldable pub update_user : User → Effect (UserSim W) (Option GoError)
  unfolding call_atlas user_to_atlas
  update_user u = send_changes u (user_to_atlas parsing u)
