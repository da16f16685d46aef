-- ===== src/AccessList/Controller.antt =====
-- internal/controller/atlasipaccesslist: transitions.go, and handleIPAccessList of state.go.
use mongodb_atlas_kubernetes.Base.{
  String, Bool, true, false, Option, none, some, List, [], ◌∷◌, if◌then◌else◌, str_eq, is_empty,
  is_some,
}
use mongodb_atlas_kubernetes.Base.Int.{ℤ}
use mongodb_atlas_kubernetes.Base.Errors.{GoError, Answer, ok, err}
use mongodb_atlas_kubernetes.Base.Return.{Return}
use mongodb_atlas_kubernetes.Base.Effect.{Effect, pure, gets, ◌>>=◌, ◌>>◌}
use mongodb_atlas_kubernetes.Collection.{map_diff}
use mongodb_atlas_kubernetes.Workflow.Conditions.{ready_type, ip_access_list_ready}
use mongodb_atlas_kubernetes.Workflow.Context.{
  set_condition_false, set_condition_from_result, set_condition_true,
}
use mongodb_atlas_kubernetes.Workflow.Results.{
  ok_result, requeue, in_progress, deleted_result, reconcile_result,
}
use mongodb_atlas_kubernetes.Resource.Finalizer.{set_finalizer, unset_finalizer}
use mongodb_atlas_kubernetes.Resource.Scene.{
  Scene, KubeClient, call_atlas, add_option, terminating, report, manage,
}
use mongodb_atlas_kubernetes.AccessList.Entries.{
  IpAccessEntry, IpAccessEntries, Net, SpecEntry, entry_id, new_ip_access_list_entries,
}
use mongodb_atlas_kubernetes.AccessList.Service.{
  IpAccessListService, ServiceCall, lists, adds, deletes, asks,
}
use mongodb_atlas_kubernetes.AccessList.Status.{
  StatusOption, add_ip_access_list_entry_status, remove_ip_access_list_entry_status,
}

abbrev pub Sim : Type 0 → Type 0
Sim W = Scene W StatusOption ServiceCall

-- AtlasIPAccessList.Spec, as far as it is read, and the reconciler's sync period.
pub record Request : Type 0 where
  pub entries : List SpecEntry
  pub has_external_project : Bool
  pub independent_sync_period : ℤ

module _ {W : Type 0} (kube : KubeClient W) where
  unfoldable pub fail : String → String → GoError → Effect (Sim W) Return
  unfolding terminating report set_condition_false set_condition_from_result reconcile_result
  fail condition reason e = do
    result ← terminating reason e
    report kube (set_condition_false ready_type)
    report kube (set_condition_from_result condition result)
    pure (reconcile_result result)

  abbrev pub pending_or_failed : String → Option GoError → Effect (Sim W) Return
  pending_or_failed msg (some e) = fail ready_type "AtlasFinalizerNotSet" e
  pending_or_failed msg none = do
    let result = in_progress "IPAccessListPending" msg
    report kube (set_condition_false ready_type)
    report kube (set_condition_from_result ip_access_list_ready result)
    pure (reconcile_result result)

  unfoldable pub pend : String → Effect (Sim W) Return
  unfolding manage fail report set_condition_false set_condition_from_result in_progress
  pend msg = do e ← manage kube set_finalizer; pending_or_failed msg e

  abbrev pub deleted_or_failed : Option GoError → Effect (Sim W) Return
  deleted_or_failed (some e) = fail ready_type "AtlasFinalizerNotRemoved" e
  deleted_or_failed none = pure (reconcile_result deleted_result)

  unfoldable pub unmanage : Effect (Sim W) Return
  unfolding manage fail reconcile_result deleted_result
  unmanage = do e ← manage kube unset_finalizer; deleted_or_failed e

  abbrev pub ready_or_failed : Request → Option GoError → Effect (Sim W) Return
  ready_or_failed req (some e) = fail ready_type "AtlasFinalizerNotSet" e
  ready_or_failed req none = do
    report kube (set_condition_true ready_type)
    report kube (set_condition_true ip_access_list_ready)
    pure (
        reconcile_result
          (if req.has_external_project then requeue req.independent_sync_period else ok_result))

  unfoldable pub ready : Request → Effect (Sim W) Return
  unfolding manage fail report set_condition_true reconcile_result requeue ok_result
  ready req = do e ← manage kube set_finalizer; ready_or_failed req e

  module _ (service : IpAccessListService W) where
    abbrev pub created_or_failed : Option GoError → Effect (Sim W) Return
    created_or_failed (some e) = fail ip_access_list_ready "IPAccessListFailedToCreate" e
    created_or_failed none = pend "Atlas has started to add access list entries"

    unfoldable pub create : IpAccessEntries → Effect (Sim W) Return
    unfolding call_atlas fail pend
    create entries = do e ← call_atlas (adds entries) (service.add entries); created_or_failed e

    abbrev pub next_or_failed :
        IpAccessEntry
        → Effect (Sim W) (Option GoError)
        → Option GoError
        → Effect (Sim W) (Option GoError)
    next_or_failed e rest (some failure) = pure (some failure)
    next_or_failed e rest none = do
      add_option (remove_ip_access_list_entry_status (entry_id e))
      rest

    -- the loop of `delete`, which stops at the first error
    unfoldable pub delete_entries : IpAccessEntries → Effect (Sim W) (Option GoError)
    unfolding call_atlas add_option entry_id
    delete_entries [] = pure none
    delete_entries ((k, e) ∷ m) = do
      failure ← call_atlas (deletes e) (service.delete e)
      next_or_failed e (delete_entries m) failure

    abbrev pub all_deleted_or_failed : Option GoError → Effect (Sim W) Return
    all_deleted_or_failed (some e) = fail ip_access_list_ready "IPAccessListFailedToDelete" e
    all_deleted_or_failed none = unmanage

    unfoldable pub delete_all : IpAccessEntries → Effect (Sim W) Return
    unfolding delete_entries fail unmanage
    delete_all entries = do e ← delete_entries entries; all_deleted_or_failed e

    abbrev pub partly_deleted_or_failed : Option GoError → Effect (Sim W) Return
    partly_deleted_or_failed (some e) = fail ip_access_list_ready "IPAccessListFailedToDelete" e
    partly_deleted_or_failed none = pend "Atlas has started to delete access list entries"

    unfoldable pub delete_partial : IpAccessEntries → Effect (Sim W) Return
    unfolding delete_entries fail pend
    delete_partial entries = do e ← delete_entries entries; partly_deleted_or_failed e

    abbrev pub noted :
        IpAccessEntry
        → (Bool → Effect (Sim W) (Answer Bool))
        → Bool
        → Answer String
        → Effect (Sim W) (Answer Bool)
    noted e rest pending (err failure) = pure (err failure)
    noted e rest pending (ok status) = do
      add_option (add_ip_access_list_entry_status (entry_id e) status)
      rest (if str_eq status "ACTIVE" then pending else true)

    -- the loop over the statuses: whether an entry is pending, or the error that ends it
    unfoldable pub collect_states : IpAccessEntries → Bool → Effect (Sim W) (Answer Bool)
    unfolding call_atlas add_option entry_id
    collect_states [] pending = pure (ok pending)
    collect_states ((k, e) ∷ m) pending = do
      status ← call_atlas (asks e) (service.entry_state e)
      noted e (collect_states m) pending status

    abbrev pub finish : Request → Answer Bool → Effect (Sim W) Return
    finish req (err e) = fail ip_access_list_ready "IPAccessListFailedToGetState" e
    finish req (ok true) = pend "Atlas has started to add access list entries"
    finish req (ok false) = ready req

    abbrev pub check_states : Request → IpAccessEntries → Effect (Sim W) Return
    check_states req wanted = do outcome ← collect_states wanted false; finish req outcome

    -- The branches on what is to be added and deleted.
    abbrev pub converge :
        Request → IpAccessEntries → IpAccessEntries → IpAccessEntries → Effect (Sim W) Return
    converge req wanted [] [] = check_states req wanted
    converge req wanted [] (d ∷ to_delete) = delete_partial (d ∷ to_delete)
    converge req wanted (a ∷ to_add) to_delete = create (a ∷ to_add)

    abbrev pub remove : IpAccessEntries → Effect (Sim W) Return
    remove in_atlas = if is_empty in_atlas then unmanage else delete_all in_atlas

    abbrev pub with_lists :
        Request → Bool → IpAccessEntries → Answer IpAccessEntries → Effect (Sim W) Return
    with_lists req deleting wanted (err e) = fail ip_access_list_ready "InternalError" e
    with_lists req true wanted (ok in_atlas) = remove in_atlas
    with_lists req false wanted (ok in_atlas) =
        converge req wanted (map_diff wanted in_atlas) (map_diff in_atlas wanted)

    abbrev pub with_wanted : Request → Bool → Answer IpAccessEntries → Effect (Sim W) Return
    with_wanted req deleting (err e) = fail ip_access_list_ready "InternalError" e
    with_wanted req deleting (ok wanted) = do
      in_atlas ← call_atlas lists service.list
      with_lists req deleting wanted in_atlas

    unfoldable pub handle_ip_access_list : Net → Request → Effect (Sim W) Return
    unfolding call_atlas create delete_all delete_partial collect_states unmanage pend ready fail
    handle_ip_access_list net req = do
      deleting ← gets (λ s. is_some s.meta.deletion_timestamp)
      with_wanted req deleting (new_ip_access_list_entries net req.entries)
