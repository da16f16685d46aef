-- ===== src/DatabaseUser/Keeping.antt =====
-- When the database user controller writes to Atlas.
use mongodb_atlas_kubernetes.Base.{
  ◌≡◌, inl, inr, refl, Bool-cases, String, Bool, true, false, Option, none, some, List, [], ◌∷◌,
  All, ltb, length, ℕ,
}
use mongodb_atlas_kubernetes.Base.Errors.{
  GoError, plain, errors_is, user_not_found, Answer, ok, err,
}
use mongodb_atlas_kubernetes.Base.Effect.{Effect}
use mongodb_atlas_kubernetes.Resource.Meta.{Meta}
use mongodb_atlas_kubernetes.Resource.Policy.{is_resource_policy_keep_or_default}
use mongodb_atlas_kubernetes.Resource.Scene.{call_atlas}
use mongodb_atlas_kubernetes.Resource.Frame.{OnAtlas}
use mongodb_atlas_kubernetes.DatabaseUser.Conversion.{CloudUser, User}
use mongodb_atlas_kubernetes.DatabaseUser.Service.{
  UserCall, UserSim, deletes_user, creates_user, updates_user, delete_user, create_user,
  update_user,
}
use mongodb_atlas_kubernetes.DatabaseUser.Controller.{
  UserRequest, UserParts, was_renamed, has_changed, read_password, remove_old_user,
}
use mongodb_atlas_kubernetes.DatabaseUser.Lifecycle.{
  create_db_user, update_db_user, delete_db_user, readiness, rename_if, after_stale, after_old_user,
  after_create_user, create_made, create_with, made_user, count_ready, count_next, after_secrets,
  after_count, to_check, after_reap, after_names, after_changes, update_if, update_made,
  update_with, delete_unless, after_delete_user, scheduled,
}
use mongodb_atlas_kubernetes.DatabaseUser.Frame.{
  KeepsUser, terminate_user-Keeps, unmanage_user-Keeps, pend_user-Keeps, ready_user-Keeps,
  read_password-Keeps, remove_old_user-Keeps, create_user-Keeps, update_user-Keeps,
}

-- The policy of the resource, or without one the deletion protection, keeps the user in Atlas.
abbrev pub user_kept : UserRequest → Meta → Bool
user_kept req r = is_resource_policy_keep_or_default r req.object_deletion_protection

module _ {W : Type 0} (P : UserCall → Type 0) (parts : UserParts W) (req : UserRequest) where
  module _ (creates : (c : CloudUser) → P (creates_user c))
      (renames : was_renamed req ≡ true
        → P (deletes_user req.spec.database_name req.status_name)) where
    rename_if-Keeps :
        (version : String) (b : Bool)
        → (b ≡ true → P (deletes_user req.spec.database_name req.status_name))
        → KeepsUser P parts req (rename_if parts req version b)
    rename_if-Keeps version false p s h =
        pend_user-Keeps P parts req version (scheduled parts req) s h
    rename_if-Keeps version true p s h =
        stale ((parts.secrets.remove_stale req.status_name s.world).0) _ h
      where
        removed : (e : Option GoError) → KeepsUser P parts req (after_old_user parts req version e)
        removed none s h = pend_user-Keeps P parts req version (scheduled parts req) s h
        removed (some e) s h = terminate_user-Keeps P parts req "InternalError" true e s h

        stale : (e : Option GoError) → KeepsUser P parts req (after_stale parts req version e)
        stale (some e) s h =
            terminate_user-Keeps P parts req "DatabaseUserConnectionSecretsNotDeleted" true e s h
        stale none s h =
            removed ((remove_old_user parts req 3 none s).0) _
              (remove_old_user-Keeps P parts req (p refl) 3 none s h)

    pub create_db_user-Keeps : KeepsUser P parts req (create_db_user parts req)
    unfolding create_db_user
    create_db_user-Keeps s h =
        with ((read_password parts req s).0) _ (read_password-Keeps P parts req s h)
      where
        sent :
            (v : String) (e : Option GoError)
            → KeepsUser P parts req (after_create_user parts req v e)
        sent v none s h = rename_if-Keeps v (was_renamed req) renames s h
        sent v (some e) s h =
            terminate_user-Keeps P parts req "DatabaseUserNotCreatedInAtlas" true e s h

        made : (v : String) (a : Answer User) → KeepsUser P parts req (create_made parts req v a)
        made v (err e) s h = terminate_user-Keeps P parts req "InternalError" true e s h
        made v (ok u) s h =
            sent v ((create_user parts.parsing parts.users u s).0) _
              (create_user-Keeps P parts req creates u s h)

        with : (a : Answer (String × String)) → KeepsUser P parts req (create_with parts req a)
        with (err e) s h = terminate_user-Keeps P parts req "InternalError" true e s h
        with (ok (p, v)) s h = made v (made_user parts req p) s h

  count_ready-Keeps : (ds : List String) → KeepsUser P parts req (count_ready parts req ds)
  count_ready-Keeps [] s h = h
  count_ready-Keeps (d ∷ ds) s h =
      next ((parts.deployments.deployment_is_ready d s.world).0) (count_ready parts req ds)
        (count_ready-Keeps ds) _ h
    where
      next :
          (a : Answer Bool) (more : Effect (UserSim W) (Answer ℕ))
          → KeepsUser P parts req more
          → KeepsUser P parts req (count_next parts req a more)
      next (err e) more k s h = h
      next (ok true) more k s h = k s h
      next (ok false) more k s h = k s h

  readiness-Keeps : (version : String) → KeepsUser P parts req (readiness parts req version)
  unfolding readiness
  readiness-Keeps version s h = named ((parts.deployments.list_deployment_names s.world).0) _ h
    where
      written : (o : Option String) → KeepsUser P parts req (after_secrets parts req version o)
      written none s h = ready_user-Keeps P parts req version s h
      written (some m) s h =
          terminate_user-Keeps P parts req "DatabaseUserConnectionSecretsNotCreated" true (plain m)
            s h

      counted :
          (ds : List String) (a : Answer ℕ)
          → KeepsUser P parts req (after_count parts req version ds a)
      counted ds (err e) s h = terminate_user-Keeps P parts req "InternalError" true e s h
      counted ds (ok n) s h = elim (Bool-cases (ltb n (length ds))) [
        | inl e ↦ rw e (pend_user-Keeps P parts req version _ s h)
        | inr e ↦ rw e (written ((parts.secrets.write_connection s.world).0) _ h)
      ]

      reaped :
          (all : List String) (e : Option GoError)
          → KeepsUser P parts req (after_reap parts req version all e)
      reaped all (some e) s h = terminate_user-Keeps P parts req "InternalError" true e s h
      reaped all none s h =
          let ds = to_check parts req req.spec.scopes all in
          counted ds ((count_ready parts req ds s).0) _ (count_ready-Keeps ds s h)

      named : (a : Answer (List String)) → KeepsUser P parts req (after_names parts req version a)
      named (err e) s h = terminate_user-Keeps P parts req "InternalError" true e s h
      named (ok all) s h = reaped all ((parts.secrets.reap_orphans all s.world).0) _ h

  module _ (updates : (db name : String) (c : CloudUser) → P (updates_user db name c)) where
    pub update_db_user-Keeps :
        (theirs : User) → KeepsUser P parts req (update_db_user parts req theirs)
    unfolding update_db_user
    update_db_user-Keeps theirs s h =
        with ((read_password parts req s).0) _ (read_password-Keeps P parts req s h)
      where
        sent :
            (v : String) (e : Option GoError) → KeepsUser P parts req (after_changes parts req v e)
        sent v none s h = pend_user-Keeps P parts req v (scheduled parts req) s h
        sent v (some e) s h =
            terminate_user-Keeps P parts req "DatabaseUserNotUpdatedInAtlas" true e s h

        changed :
            (v : String) (u : User) (b : Bool) → KeepsUser P parts req (update_if parts req v u b)
        changed v u false s h = readiness-Keeps v s h
        changed v u true s h =
            sent v ((update_user parts.parsing parts.users u s).0) _
              (update_user-Keeps P parts req updates u s h)

        made :
            (v : String) (a : Answer User)
            → KeepsUser P parts req (update_made parts req theirs v a)
        made v (err e) s h = terminate_user-Keeps P parts req "InternalError" true e s h
        made v (ok u) s h = changed v u (has_changed u theirs req.status_password_version v) s h

        with :
            (a : Answer (String × String)) → KeepsUser P parts req (update_with parts req theirs a)
        with (err e) s h = terminate_user-Keeps P parts req "InternalError" true e s h
        with (ok (p, v)) s h = made v (made_user parts req p) s h

  pub delete_db_user-Keeps :
      (s : UserSim W)
      → (user_kept req s.meta ≡ false → P (deletes_user req.spec.database_name req.spec.username))
      → All (OnAtlas P) s.calls
      → All (OnAtlas P) (delete_db_user parts req s).1.calls
  unfolding delete_db_user delete_user call_atlas
  delete_db_user-Keeps s p h = unless (user_kept req s.meta) p
    where
      deleted : (e : Option GoError) → KeepsUser P parts req (after_delete_user parts req e)
      deleted none s h = unmanage_user-Keeps P parts req s h
      deleted (some e) s h = elim (Bool-cases (errors_is e user_not_found)) [
        | inl found ↦ rw found (unmanage_user-Keeps P parts req s h)
        | inr found ↦
            rw found (terminate_user-Keeps P parts req "DatabaseUserNotDeletedInAtlas" true e s h)
      ]

      unless :
          (b : Bool)
          → (b ≡ false → P (deletes_user req.spec.database_name req.spec.username))
          → All (OnAtlas P) (delete_unless parts req b s).1.calls
      unless true p = unmanage_user-Keeps P parts req s h
      unless false p =
          deleted
            ((delete_user parts.parsing parts.users req.spec.database_name req.spec.username s).0) _
            (p refl, h)
