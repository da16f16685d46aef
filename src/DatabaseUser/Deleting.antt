-- ===== src/DatabaseUser/Deleting.antt =====
-- Which users a reconciliation of an AtlasDatabaseUser may delete in Atlas.
use mongodb_atlas_kubernetes.Base.{
  ◌≡◌, ◌⊎◌, inl, inr, refl, subst, sym, Bool-cases, String, Bool, true, false, Option, none, some,
  List, [], ◌∷◌, if◌then◌else◌, is_some, ap, is_empty_text,
}
use mongodb_atlas_kubernetes.Base.Errors.{GoError, errors_is, user_not_found, Answer, ok, err}
use mongodb_atlas_kubernetes.Base.Effect.{Effect, pure}
use mongodb_atlas_kubernetes.Resource.Meta.{Meta}
use mongodb_atlas_kubernetes.Resource.Scene.{call_atlas, terminating, report}
use mongodb_atlas_kubernetes.Resource.Leading.{HasCalls, KeepsMeta, EndsCalls}
use mongodb_atlas_kubernetes.Validate.Project.{Time, parse_iso8601}
use mongodb_atlas_kubernetes.DatabaseUser.Conversion.{User}
use mongodb_atlas_kubernetes.DatabaseUser.Service.{
  UserCall, UserSim, gets_user, deletes_user, creates_user, updates_user, get_user,
}
use mongodb_atlas_kubernetes.DatabaseUser.Controller.{
  UserRequest, UserParts, get_scopes, was_renamed,
}
use mongodb_atlas_kubernetes.DatabaseUser.Lifecycle.{
  scopes_exist, is_user_expired, dbu_life_cycle, by_presence, scope_next, after_scopes,
  after_expired_secrets, after_expiry, before_now, looked_at, after_get_user,
}
use mongodb_atlas_kubernetes.DatabaseUser.Frame.{
  KeepsUser, terminate_user-Keeps, unmanage_user-Keeps,
}
use mongodb_atlas_kubernetes.DatabaseUser.Keeping.{
  create_db_user-Keeps, update_db_user-Keeps, delete_db_user-Keeps, user_kept,
}

module _ (req : UserRequest) where
  -- The deletion of the user that the spec names, for a resource that is being deleted and whose
  -- policy does not keep the user.
  abbrev pub DeletesOwn : Meta → String → Type 0
  DeletesOwn r name =
      (is_some r.deletion_timestamp ≡ true) × (user_kept req r ≡ false) × (name ≡ req.spec.username)

  -- The deletion of the user under the name that it had, for one that was renamed.
  abbrev pub DeletesOld : Meta → String → Type 0
  DeletesOld r name =
      (is_some r.deletion_timestamp ≡ false) × (was_renamed req ≡ true) × (name ≡ req.status_name)

  abbrev pub MayCall : Meta → UserCall → Type 0
  MayCall r (gets_user db name) = Unit
  MayCall r (deletes_user db name) =
      (db ≡ req.spec.database_name) × (DeletesOwn r name ⊎ DeletesOld r name)
  MayCall r (creates_user c) = is_some r.deletion_timestamp ≡ false
  MayCall r (updates_user db name c) = is_some r.deletion_timestamp ≡ false

module _ {W : Type 0} (parts : UserParts W) (req : UserRequest) where
  module _ (r : Meta) where
    abbrev Ends : {B : Type 0} → Effect (UserSim W) B → Type 0
    Ends f = EndsCalls (MayCall req r) r f

    by_presence-Ends :
        (theirs : Option User) (deleted : Bool)
        → is_some r.deletion_timestamp ≡ deleted
        → Ends (by_presence parts req theirs deleted)
    by_presence-Ends none false e s (h, same) =
        create_db_user-Keeps (MayCall req r) parts req (λ c. e) (λ w. (refl, inr (e, w, refl))) s h
    by_presence-Ends (some theirs) false e s (h, same) =
        update_db_user-Keeps (MayCall req r) parts req (λ db name c. e) theirs s h
    by_presence-Ends (some theirs) true e s (h, same) =
        delete_db_user-Keeps (MayCall req r) parts req s
          (λ k. (refl, inl (e, subst (λ m. user_kept req m ≡ false) same k, refl))) h
    by_presence-Ends none true e s (h, same) = unmanage_user-Keeps (MayCall req r) parts req s h

    scopes_exist-KeepsMeta :
        (names : List String) → KeepsMeta (MayCall req r) r (scopes_exist parts req names)
    unfolding scopes_exist
    scopes_exist-KeepsMeta [] s h = h
    scopes_exist-KeepsMeta (n ∷ rest) s h =
        next ((parts.deployments.cluster_exists n s.world).0) (scopes_exist parts req rest)
          (scopes_exist-KeepsMeta rest) _ h
      where
        next :
            (a : Answer Bool) (more : Effect (UserSim W) (Answer Bool))
            → KeepsMeta (MayCall req r) r more
            → KeepsMeta (MayCall req r) r (scope_next parts req a more)
        next (err e) more k s h = h
        next (ok false) more k s h = h
        next (ok true) more k s h = k s h

    after_expiry-Ends :
        (theirs : Option User) (a : Answer Bool) → Ends (after_expiry parts req theirs a)
    unfolding terminating report
    after_expiry-Ends theirs (err e) s (h, same) =
        terminate_user-Keeps (MayCall req r) parts req "DatabaseUserInvalidSpec" false e s h
    after_expiry-Ends theirs (ok true) s (h, same) =
        expired ((parts.secrets.remove_stale req.spec.username s.world).0) _ h
      where
        expired :
            (e : Option GoError)
            → KeepsUser (MayCall req r) parts req (after_expired_secrets parts req e)
        expired none s h = unmanage_user-Keeps (MayCall req r) parts req _ h
        expired (some e) s h =
            terminate_user-Keeps (MayCall req r) parts req "DatabaseUserConnectionSecretsNotDeleted"
              true e s h
    after_expiry-Ends theirs (ok false) s h =
        scoped ((scopes_exist parts req (get_scopes req) s).0) _
          (scopes_exist-KeepsMeta (get_scopes req) s h)
      where
        scoped : (a : Answer Bool) → Ends (after_scopes parts req theirs a)
        scoped (err e) s (h, same) =
            terminate_user-Keeps (MayCall req r) parts req "DatabaseUserInvalidSpec" false e s h
        scoped (ok false) s (h, same) =
            terminate_user-Keeps (MayCall req r) parts req "DatabaseUserInvalidSpec" false _ s h
        scoped (ok true) s (h, same) =
            by_presence-Ends theirs (is_some s.meta.deletion_timestamp)
              (ap (λ m. is_some m.deletion_timestamp) (sym same)) s (h, same)

    is_user_expired-KeepsMeta : KeepsMeta (MayCall req r) r (is_user_expired parts req)
    unfolding is_user_expired
    is_user_expired-KeepsMeta s h = chosen (is_empty_text req.spec.delete_after_date)
      where
        dated : (a : Answer Time) → HasCalls (MayCall req r) r ((before_now parts req a s).1)
        dated (err e) = h
        dated (ok t) = h

        chosen :
            (b : Bool)
            → HasCalls
                (MayCall req r)
                r
                ((if b
                    then pure (ok false)
                    else before_now parts req
                        (parse_iso8601 parts.parsing req.spec.delete_after_date))
                  s).1
        chosen true = h
        chosen false = dated (parse_iso8601 parts.parsing req.spec.delete_after_date)

    looked_at-Ends : (theirs : Option User) → Ends (looked_at parts req theirs)
    looked_at-Ends theirs s h =
        after_expiry-Ends theirs ((is_user_expired parts req s).0) _ (is_user_expired-KeepsMeta s h)

    pub dbu_life_cycle-Ends : Ends (dbu_life_cycle parts req)
    unfolding dbu_life_cycle get_user call_atlas
    dbu_life_cycle-Ends s (h, same) =
        after ((get_user parts.parsing parts.users req.spec.database_name req.spec.username s).0) _
          ((tt, h), same)
      where
        after : (a : Answer User) → Ends (after_get_user parts req a)
        after (ok theirs) t h = looked_at-Ends (some theirs) t h
        after (err e) t h = elim (Bool-cases (errors_is e user_not_found)) [
          | inl found ↦ rw found (looked_at-Ends none t h)
          | inr found ↦
              rw found (terminate_user-Keeps (MayCall req r) parts req "InternalError" true e t h.0)
        ]
