-- ===== src/DatabaseUser/Frame.antt =====
-- Which users a reconciliation may delete in Atlas, step by step.
use mongodb_atlas_kubernetes.Base.{
  ℕ, zero, suc, String, Bool, true, false, Option, none, some, if◌then◌else◌,
}
use mongodb_atlas_kubernetes.Base.Errors.{GoError, Answer, ok, err}
use mongodb_atlas_kubernetes.Base.Effect.{Effect, pure}
use mongodb_atlas_kubernetes.Resource.Finalizer.{
  set_finalizer, unset_finalizer, finalizer_label, have_finalizer,
}
use mongodb_atlas_kubernetes.Resource.Scene.{call_atlas, add_option, terminating, report, manage}
use mongodb_atlas_kubernetes.Resource.Frame.{manage-Keeps}
use mongodb_atlas_kubernetes.Resource.Leading.{KeepsCalls, KeepsCalls-bind}
use mongodb_atlas_kubernetes.DatabaseUser.Conversion.{CloudUser, User, user_to_atlas}
use mongodb_atlas_kubernetes.DatabaseUser.Service.{
  UserCall, UserSim, deletes_user, creates_user, updates_user, delete_user, create_user,
  update_user, send_user, send_changes,
}
use mongodb_atlas_kubernetes.DatabaseUser.Controller.{
  UserRequest, UserParts, terminate_on, terminate_user, after_unset, unset_if, unset_if_clean,
  unmanage_user, set_if_missing, pending_or_failed, pending_if_claimed, pend_user, ready_or_failed,
  ready_if_claimed, ready_user, read_password, password_of, remove_old_user, is_done,
}

module _ {W : Type 0} (P : UserCall → Type 0) (parts : UserParts W) (req : UserRequest) where
  abbrev pub KeepsUser : {B : Type 0} → Effect (UserSim W) B → Type 0
  KeepsUser f = KeepsCalls P f

  pub terminate_user-Keeps :
      (reason : String) (retry : Bool) (e : GoError)
      → KeepsUser (terminate_user parts req reason retry e)
  unfolding terminate_user terminate_on terminating report
  terminate_user-Keeps reason retry e s h = h

  pub unmanage_user-Keeps : KeepsUser (unmanage_user parts req)
  unfolding unmanage_user
  unmanage_user-Keeps s h = clean ((parts.secrets.remove_stale req.spec.username s.world).0) _ h
    where
      unset : (e : Option GoError) → KeepsUser (after_unset parts req e)
      unset none s h = h
      unset (some e) s h = terminate_user-Keeps "AtlasFinalizerNotRemoved" true e s h

      unsetting : (b : Bool) → KeepsUser (unset_if parts req b)
      unsetting false s h = h
      unsetting true s h =
          KeepsCalls-bind P (manage parts.kube unset_finalizer) (after_unset parts req)
            (manage-Keeps P parts.kube unset_finalizer) unset s h

      clean : (e : Option GoError) → KeepsUser (unset_if_clean parts req e)
      clean (some e) s h = terminate_user-Keeps "DatabaseUserConnectionSecretsNotDeleted" true e s h
      clean none s h = unsetting (have_finalizer s.meta finalizer_label) s h

  set_if_missing-Keeps : (b : Bool) → KeepsUser (set_if_missing parts req b)
  set_if_missing-Keeps true s h = h
  set_if_missing-Keeps false s h = manage-Keeps P parts.kube set_finalizer s h

  pub pend_user-Keeps : (version msg : String) → KeepsUser (pend_user parts req version msg)
  unfolding pend_user report add_option
  pend_user-Keeps version msg s h =
      let missing = have_finalizer s.meta finalizer_label in
      claimed ((set_if_missing parts req missing s).0) _ (set_if_missing-Keeps missing s h)
    where
      pending : (e : Option GoError) → KeepsUser (pending_or_failed parts req version msg e)
      pending none s h = h
      pending (some e) s h = terminate_user-Keeps "InternalError" true e s h

      claimed : (e : Option GoError) → KeepsUser (pending_if_claimed parts req version msg e)
      claimed (some e) s h = terminate_user-Keeps "AtlasFinalizerNotSet" true e s h
      claimed none s h = pending ((parts.secrets.apply_last_config s.meta s.world).0) _ h

  pub ready_user-Keeps : (version : String) → KeepsUser (ready_user parts req version)
  unfolding ready_user report add_option
  ready_user-Keeps version s h =
      let missing = have_finalizer s.meta finalizer_label in
      claimed ((set_if_missing parts req missing s).0) _ (set_if_missing-Keeps missing s h)
    where
      finished : (e : Option GoError) → KeepsUser (ready_or_failed parts req version e)
      finished none s h = h
      finished (some e) s h = terminate_user-Keeps "InternalError" true e s h

      claimed : (e : Option GoError) → KeepsUser (ready_if_claimed parts req version e)
      claimed (some e) s h = terminate_user-Keeps "AtlasFinalizerNotSet" true e s h
      claimed none s h = finished ((parts.secrets.apply_last_config s.meta s.world).0) _ h

  pub read_password-Keeps : KeepsUser (read_password parts req)
  unfolding read_password
  read_password-Keeps = of req.password_secret
    where
      of : (o : Option String) → KeepsUser (password_of parts req o)
      of none s h = h
      of (some name) s h = h

  pub remove_old_user-Keeps :
      P (deletes_user req.spec.database_name req.status_name)
      → (n : ℕ) (last : Option GoError) → KeepsUser (remove_old_user parts req n last)
  unfolding remove_old_user delete_user call_atlas
  remove_old_user-Keeps p zero last s h = h
  remove_old_user-Keeps p (suc n) last s h =
      let o = delete_user parts.parsing parts.users req.spec.database_name req.status_name s in
      chosen o.0 (remove_old_user-Keeps p n o.0) (is_done parts req o.0) o.1 (p, h)
    where
      chosen :
          (e : Option GoError)
          → KeepsUser (remove_old_user parts req n e)
          → (b : Bool) → KeepsUser (if b then pure none else remove_old_user parts req n e)
      chosen e again true s h = h
      chosen e again false s h = again s h

  pub create_user-Keeps :
      ((c : CloudUser) → P (creates_user c))
      → (u : User) → KeepsUser (create_user parts.parsing parts.users u)
  unfolding create_user call_atlas
  create_user-Keeps p u = sent (user_to_atlas parts.parsing u)
    where
      sent : (a : Answer CloudUser) → KeepsUser (send_user parts.parsing parts.users a)
      sent (err e) s h = h
      sent (ok c) s h = (p c, h)

  pub update_user-Keeps :
      ((db name : String) (c : CloudUser) → P (updates_user db name c))
      → (u : User) → KeepsUser (update_user parts.parsing parts.users u)
  unfolding update_user call_atlas
  update_user-Keeps p u = sent (user_to_atlas parts.parsing u)
    where
      sent : (a : Answer CloudUser) → KeepsUser (send_changes parts.parsing parts.users u a)
      sent (err e) s h = h
      sent (ok c) s h = (p u.spec.database_name u.spec.username c, h)
