-- ===== src/AccessList/Safety.antt =====
-- Which calls the controller of the access list makes, and when it gives its finalizer up.
use mongodb_atlas_kubernetes.Base.{
  ◌≡◌, ◌∙◌, refl, ap, String, Bool, true, false, Option, none, some, [], ◌∷◌, if◌then◌else◌, str_eq,
  is_some, lookup, All,
}
use mongodb_atlas_kubernetes.Base.Errors.{GoError, Answer, ok, err}
use mongodb_atlas_kubernetes.Base.Effect.{Effect}
use mongodb_atlas_kubernetes.Collection.{map_diff}
use mongodb_atlas_kubernetes.Workflow.Conditions.{ready_type, ip_access_list_ready}
use mongodb_atlas_kubernetes.Resource.Finalizer.{set_finalizer, unset_finalizer}
use mongodb_atlas_kubernetes.Resource.Scene.{
  KubeClient, call_atlas, add_option, terminating, report, manage,
}
use mongodb_atlas_kubernetes.Resource.Frame.{OnAtlas, manage-Keeps}
use mongodb_atlas_kubernetes.AccessList.RoundTrip.{IsKeyed}
use mongodb_atlas_kubernetes.AccessList.Entries.{
  IpAccessEntry, IpAccessEntries, Net, entry_id, new_ip_access_list_entries,
}
use mongodb_atlas_kubernetes.AccessList.Service.{
  IpAccessListService, ServiceCall, lists, adds, deletes, asks,
}
use mongodb_atlas_kubernetes.AccessList.Status.{
  add_ip_access_list_entry_status, remove_ip_access_list_entry_status,
}
use mongodb_atlas_kubernetes.AccessList.Controller.{
  Sim, Request, fail, pending_or_failed, pend, deleted_or_failed, unmanage, ready_or_failed, ready,
  created_or_failed, create, next_or_failed, delete_entries, all_deleted_or_failed, delete_all,
  partly_deleted_or_failed, delete_partial, noted, collect_states, finish, converge, with_lists,
  handle_ip_access_list,
}

diff-Unwanted :
    (m wanted : IpAccessEntries)
    → IsKeyed m
    → All (λ x. lookup (entry_id x.1) wanted ≡ none) (map_diff m wanted)
unfolding map_diff
diff-Unwanted [] wanted w = tt
diff-Unwanted ((k, e) ∷ m) wanted (own, fresh, w) =
    kept (lookup k wanted) refl (diff-Unwanted m wanted w)
  where
    kept :
        (o : Option IpAccessEntry)
        → lookup k wanted ≡ o
        → All (λ x. lookup (entry_id x.1) wanted ≡ none) (map_diff m wanted)
        → All
            (λ x. lookup (entry_id x.1) wanted ≡ none)
            (if is_some o then map_diff m wanted else (k, e) ∷ map_diff m wanted)
    kept (some d) q rest = rest
    kept none q rest = (ap (λ j. lookup j wanted) own ∙ q, rest)

-- A deleted entry is one that `wanted` does not have, and an added one is one that it has.
abbrev pub Unwanted : IpAccessEntries → ServiceCall → Type 0
Unwanted wanted (deletes e) = lookup (entry_id e) wanted ≡ none
Unwanted wanted lists = Unit
Unwanted wanted (adds entries) = Unit
Unwanted wanted (asks e) = Unit

module _ {W : Type 0} (P : ServiceCall → Type 0) (kube : KubeClient W) where
  abbrev KeepsP : {B : Type 0} → Effect (Sim W) B → Type 0
  KeepsP f = (s : Sim W) → All (OnAtlas P) s.calls → All (OnAtlas P) (f s).1.calls

  pub fail-Keeps : (condition reason : String) (e : GoError) → KeepsP (fail kube condition reason e)
  unfolding fail terminating report
  fail-Keeps condition reason e s h = h

  pend-Keeps : (msg : String) → KeepsP (pend kube msg)
  unfolding pend report
  pend-Keeps msg s h =
      after ((manage kube set_finalizer s).0) ((manage kube set_finalizer s).1)
        (manage-Keeps P kube set_finalizer s h)
    where
      after : (e : Option GoError) → KeepsP (pending_or_failed kube msg e)
      after none s h = h
      after (some e) s h = fail-Keeps ready_type "AtlasFinalizerNotSet" e s h

  unmanage-Keeps : KeepsP (unmanage kube)
  unfolding unmanage
  unmanage-Keeps s h =
      after ((manage kube unset_finalizer s).0) ((manage kube unset_finalizer s).1)
        (manage-Keeps P kube unset_finalizer s h)
    where
      after : (e : Option GoError) → KeepsP (deleted_or_failed kube e)
      after none s h = h
      after (some e) s h = fail-Keeps ready_type "AtlasFinalizerNotRemoved" e s h

  ready-Keeps : (req : Request) → KeepsP (ready kube req)
  unfolding ready report
  ready-Keeps req s h =
      after ((manage kube set_finalizer s).0) ((manage kube set_finalizer s).1)
        (manage-Keeps P kube set_finalizer s h)
    where
      after : (e : Option GoError) → KeepsP (ready_or_failed kube req e)
      after none s h = h
      after (some e) s h = fail-Keeps ready_type "AtlasFinalizerNotSet" e s h

  module _ (service : IpAccessListService W) where
    create-Keeps :
        (entries : IpAccessEntries) → P (adds entries) → KeepsP (create kube service entries)
    unfolding create call_atlas
    create-Keeps entries p s h =
        after ((service.add entries s.world).0)
          ((call_atlas (adds entries) (service.add entries) s).1) (p, h)
      where
        after : (e : Option GoError) → KeepsP (created_or_failed kube service e)
        after none s h = pend-Keeps "Atlas has started to add access list entries" s h
        after (some e) s h = fail-Keeps ip_access_list_ready "IPAccessListFailedToCreate" e s h

    delete_entries-Keeps :
        (m : IpAccessEntries)
        → All (λ x. P (deletes x.1)) m
        → KeepsP (delete_entries kube service m)
    unfolding delete_entries call_atlas add_option
    delete_entries-Keeps [] p s h = h
    delete_entries-Keeps ((k, e) ∷ m) (p, ps) s h =
        after (delete_entries-Keeps m ps) ((service.delete e s.world).0)
          ((call_atlas (deletes e) (service.delete e) s).1) (p, h)
      where
        after :
            KeepsP (delete_entries kube service m)
            → (f : Option GoError)
            → KeepsP (next_or_failed kube service e (delete_entries kube service m) f)
        after rest none s h =
            rest ((add_option (remove_ip_access_list_entry_status (entry_id e)) s).1) h
        after rest (some f) s h = h

    delete_all-Keeps :
        (m : IpAccessEntries) → All (λ x. P (deletes x.1)) m → KeepsP (delete_all kube service m)
    unfolding delete_all
    delete_all-Keeps m p s h =
        after ((delete_entries kube service m s).0) ((delete_entries kube service m s).1)
          (delete_entries-Keeps m p s h)
      where
        after : (f : Option GoError) → KeepsP (all_deleted_or_failed kube service f)
        after none s h = unmanage-Keeps s h
        after (some e) s h = fail-Keeps ip_access_list_ready "IPAccessListFailedToDelete" e s h

    delete_partial-Keeps :
        (m : IpAccessEntries)
        → All (λ x. P (deletes x.1)) m
        → KeepsP (delete_partial kube service m)
    unfolding delete_partial
    delete_partial-Keeps m p s h =
        after ((delete_entries kube service m s).0) ((delete_entries kube service m s).1)
          (delete_entries-Keeps m p s h)
      where
        after : (f : Option GoError) → KeepsP (partly_deleted_or_failed kube service f)
        after none s h = pend-Keeps "Atlas has started to delete access list entries" s h
        after (some e) s h = fail-Keeps ip_access_list_ready "IPAccessListFailedToDelete" e s h

    collect_states-Keeps :
        ((e : IpAccessEntry) → P (asks e))
        → (m : IpAccessEntries) (pending : Bool) → KeepsP (collect_states kube service m pending)
    unfolding collect_states call_atlas add_option
    collect_states-Keeps p [] pending s h = h
    collect_states-Keeps p ((k, e) ∷ m) pending s h =
        after (collect_states-Keeps p m) ((service.entry_state e s.world).0)
          ((call_atlas (asks e) (service.entry_state e) s).1) (p e, h)
      where
        after :
            ((b : Bool) → KeepsP (collect_states kube service m b))
            → (a : Answer String)
            → KeepsP (noted kube service e (collect_states kube service m) pending a)
        after rest (ok status) s h =
            rest (if str_eq status "ACTIVE" then pending else true)
              ((add_option (add_ip_access_list_entry_status (entry_id e) status) s).1) h
        after rest (err f) s h = h

    finish-Keeps : (req : Request) (a : Answer Bool) → KeepsP (finish kube service req a)
    finish-Keeps req (err e) s h =
        fail-Keeps ip_access_list_ready "IPAccessListFailedToGetState" e s h
    finish-Keeps req (ok true) s h = pend-Keeps "Atlas has started to add access list entries" s h
    finish-Keeps req (ok false) s h = ready-Keeps req s h

  -- A reconcile of a resource that is not being deleted.
  converge-Keeps :
      (service : IpAccessListService W) (wanted : IpAccessEntries)
      → P lists
      → ((m : IpAccessEntries) → P (adds m))
      → ((e : IpAccessEntry) → P (asks e))
      → (req : Request) (m to_delete : IpAccessEntries) → All (λ x. P (deletes x.1)) to_delete
      → KeepsP (converge kube service req wanted m to_delete)
  converge-Keeps service wanted pl pa pq req [] [] p s h =
      finish-Keeps service req ((collect_states kube service wanted false s).0)
        ((collect_states kube service wanted false s).1)
        (collect_states-Keeps service pq wanted false s h)
  converge-Keeps service wanted pl pa pq req [] (d ∷ ds) p s h =
      delete_partial-Keeps service (d ∷ ds) p s h
  converge-Keeps service wanted pl pa pq req (a ∷ more) ds p s h =
      create-Keeps service (a ∷ more) (pa (a ∷ more)) s h

-- If the resource has no deletion timestamp, its specification reads as `wanted`, and the entries
-- that the service lists stand under their own identifiers, then every entry that a reconciliation
-- deletes from Atlas has an identifier that `wanted` does not have. It is assumed of the calls
-- before it.
pub deletes_only-Unwanted :
    {W : Type 0} (kube : KubeClient W) (service : IpAccessListService W) (net : Net) (req : Request)
    (wanted : IpAccessEntries) (s : Sim W)
    → new_ip_access_list_entries net req.entries ≡ ok wanted
    → s.meta.deletion_timestamp ≡ none
    → ((w : W) (m : IpAccessEntries) → (service.list w).0 ≡ ok m → IsKeyed m)
    → All (OnAtlas (Unwanted wanted)) s.calls
    → All (OnAtlas (Unwanted wanted)) (handle_ip_access_list kube service net req s).1.calls
unfolding handle_ip_access_list call_atlas
deletes_only-Unwanted kube service net req wanted s w d keyed h =
    rw (ap is_some d, w) (listed ((service.list s.world).0) refl)
  where
    listed :
        (a : Answer IpAccessEntries)
        → (service.list s.world).0 ≡ a
        → All
            (OnAtlas (Unwanted wanted))
            (with_lists kube service req false wanted a
              ((call_atlas lists service.list s).1)).1.calls
    listed (err e) q =
        fail-Keeps (Unwanted wanted) kube ip_access_list_ready "InternalError" e
          ((call_atlas lists service.list s).1) (tt, h)
    listed (ok m) q =
        converge-Keeps (Unwanted wanted) kube service wanted tt (λ m. tt) (λ e. tt) req
          (map_diff wanted m) (map_diff m wanted) (diff-Unwanted m wanted (keyed s.world m q))
          ((call_atlas lists service.list s).1) (tt, h)
