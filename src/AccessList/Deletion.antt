-- ===== src/AccessList/Deletion.antt =====
-- When the controller of the access list gives its finalizer up.
use mongodb_atlas_kubernetes.Base.{
  ◌≡◌, ◌∙◌, ◌⊎◌, inl, inr, refl, ap, ℕ, String, true, Option, none, some, List, [], ◌∷◌, is_some,
}
use mongodb_atlas_kubernetes.Base.Errors.{GoError, Answer, ok, err}
use mongodb_atlas_kubernetes.Base.Return.{Return, failed}
use mongodb_atlas_kubernetes.Workflow.Conditions.{ip_access_list_ready}
use mongodb_atlas_kubernetes.Workflow.Results.{reconcile_result, terminate}
use mongodb_atlas_kubernetes.Resource.Scene.{
  Call, atlas, KubeClient, call_atlas, add_option, terminating, report,
}
use mongodb_atlas_kubernetes.AccessList.Entries.{
  IpAccessEntries, Net, entry_id, new_ip_access_list_entries,
}
use mongodb_atlas_kubernetes.AccessList.Service.{IpAccessListService, ServiceCall, lists, deletes}
use mongodb_atlas_kubernetes.AccessList.Status.{remove_ip_access_list_entry_status}
use mongodb_atlas_kubernetes.AccessList.Controller.{
  Sim, Request, fail, unmanage, next_or_failed, delete_entries, all_deleted_or_failed, delete_all,
  remove, with_lists, with_wanted, handle_ip_access_list,
}

-- `calls` after an entry of the map was deleted at a time, from the front.
abbrev pub after_deletes : IpAccessEntries → List (Call ServiceCall) → List (Call ServiceCall)
after_deletes [] calls = calls
after_deletes ((k, e) ∷ m) calls = after_deletes m (atlas (deletes e) ∷ calls)

module _ {W : Type 0} (kube : KubeClient W) (service : IpAccessListService W) where
  -- The outcome of the loop from `s` is the error or none and the state.
  abbrev DeletedOr : IpAccessEntries → Sim W → Option GoError × Sim W → Type 0
  DeletedOr m s (none, s') = (s'.meta ≡ s.meta) × (s'.calls ≡ after_deletes m s.calls)
  DeletedOr m s (some f, s') = s'.meta ≡ s.meta

  delete_entries_outcome :
      (m : IpAccessEntries) (s : Sim W) → DeletedOr m s (delete_entries kube service m s)
  unfolding delete_entries call_atlas add_option
  delete_entries_outcome [] s = (refl, refl)
  delete_entries_outcome ((k, e) ∷ m) s =
      after ((service.delete e s.world).0) ((call_atlas (deletes e) (service.delete e) s).1) refl
        refl (delete_entries_outcome m)
    where
      after :
          (f : Option GoError) (t : Sim W)
          → t.meta ≡ s.meta
          → t.calls ≡ atlas (deletes e) ∷ s.calls
          → ((t : Sim W) → DeletedOr m t (delete_entries kube service m t))
          → DeletedOr
              ((k, e) ∷ m)
              s
              (next_or_failed kube service e (delete_entries kube service m) f t)
      after (some f) t em ec rest = em
      after none t em ec rest = moved (delete_entries kube service m u) (rest u)
        where
          u : Sim W
          u = (add_option (remove_ip_access_list_entry_status (entry_id e)) t).1

          moved : (o : Option GoError × Sim W) → DeletedOr m u o → DeletedOr ((k, e) ∷ m) s o
          moved (none, s') (gm, gc) = (gm ∙ em, gc ∙ ap (after_deletes m) ec)
          moved (some f, s') gm = gm ∙ em

  -- The entries that Atlas lists, every one of which was deleted before the finalizer is given up.
  abbrev pub Emptied : Sim W → Return × Sim W → Type 0
  Emptied s o =
      (m : IpAccessEntries) × ((service.list s.world).0 ≡ ok m)
      × (t : Sim W) × (t.meta ≡ s.meta)
      × (t.calls ≡ after_deletes m (atlas lists ∷ s.calls))
      × (o ≡ unmanage kube t)

  -- An error whose resource is as before, or all entries were deleted.
  abbrev pub KeptOrReleased : Sim W → Return × Sim W → Type 0
  KeptOrReleased s o = ((f : GoError) × (o.0 ≡ failed f) × (o.1.meta ≡ s.meta)) ⊎ Emptied s o

  fail_outcome :
      (condition reason : String) (e : GoError) (t : Sim W)
      → ((fail kube condition reason e t).0 ≡ failed e)
        × ((fail kube condition reason e t).1.meta ≡ t.meta)
  unfolding fail terminating report terminate reconcile_result
  fail_outcome condition reason e t = (refl, refl)

  all_deleted :
      (m : IpAccessEntries) (s t : Sim W)
      → (service.list s.world).0 ≡ ok m
      → t.meta ≡ s.meta
      → t.calls ≡ atlas lists ∷ s.calls
      → KeptOrReleased s (remove kube service m t)
  unfolding delete_all
  all_deleted [] s t q em ec = inr ([], q, t, em, ec, refl)
  all_deleted (x ∷ m) s t q em ec =
      after (delete_entries kube service (x ∷ m) t) (delete_entries_outcome (x ∷ m) t)
    where
      after :
          (o : Option GoError × Sim W)
          → DeletedOr (x ∷ m) t o
          → KeptOrReleased s (all_deleted_or_failed kube service o.0 o.1)
      after (none, u) (gm, gc) =
          inr (x ∷ m, q, u, gm ∙ em, gc ∙ ap (after_deletes (x ∷ m)) ec, refl)
      after (some e, u) gm =
          let r = fail_outcome ip_access_list_ready "IPAccessListFailedToDelete" e u in
          inl (e, r.0, r.1 ∙ gm ∙ em)

  -- handleIPAccessList, of a resource with a deletion timestamp.
  pub handle_outcome :
      (net : Net) (req : Request) (s : Sim W) (t : ℕ)
      → s.meta.deletion_timestamp ≡ some t
      → KeptOrReleased s (handle_ip_access_list kube service net req s)
  unfolding handle_ip_access_list call_atlas
  handle_outcome net req s t d =
      rw (ap is_some d) (wanted_or_error (new_ip_access_list_entries net req.entries))
    where
      listed :
          (wanted : IpAccessEntries) (a : Answer IpAccessEntries)
          → (service.list s.world).0 ≡ a
          → KeptOrReleased s
              (with_lists kube service req true wanted a ((call_atlas lists service.list s).1))
      listed wanted (ok m) q = all_deleted m s ((call_atlas lists service.list s).1) q refl refl
      listed wanted (err e) q =
          let r =
            fail_outcome ip_access_list_ready "InternalError" e
              ((call_atlas lists service.list s).1) in
          inl (e, r.0, r.1)

      wanted_or_error :
          (a : Answer IpAccessEntries) → KeptOrReleased s (with_wanted kube service req true a s)
      wanted_or_error (err e) =
          let r = fail_outcome ip_access_list_ready "InternalError" e s in inl (e, r.0, r.1)
      wanted_or_error (ok wanted) = listed wanted ((service.list s.world).0) refl
