-- ===== src/State/Traces.antt =====
-- What one reconciliation calls, in which order, and what it returns.
use mongodb_atlas_kubernetes.Base.{
  ◌≡◌, String, Bool, true, false, Option, none, some, List, [], ◌∷◌, inl, inr, arith, ◌⊎◌,
}
use mongodb_atlas_kubernetes.Base.Return.{done, failed}
use mongodb_atlas_kubernetes.Base.Errors.{GoError, object_not_found, wrap, errors_is, ok, err}
use mongodb_atlas_kubernetes.State.Kube.{Condition, Object, Machinery, IsLawful}
use mongodb_atlas_kubernetes.State.Results.{Result}
use mongodb_atlas_kubernetes.State.Finalizers.{has_all, remove_all, add_all}
use mongodb_atlas_kubernetes.State.Reapply.{Parsers}
use mongodb_atlas_kubernetes.State.Dispatch.{
  StateHandler, Handle, Handled, reconcile_state, current_state, handler_for, default_next,
  finish_state,
}
use mongodb_atlas_kubernetes.State.Recorded.{get_state-conditions}
use mongodb_atlas_kubernetes.State.Sim.{
  calls-unset, Client, Sim, applied_conditions, handled, fetched, patched_finalizers,
}
use mongodb_atlas_kubernetes.State.Reconciler.{
  reconcile, ready_conditions, state_conditions, is_skipped, finalizer_name, is_deleted,
}
use mongodb_atlas_kubernetes.State.{get_state, IsCanonical}

-- The result with the default for a next state that the handler left empty.
abbrev pub defaulted : Result → Result
defaulted r = record r { next_state = default_next r.next_state }

module _ {W : Type 0} (p : Parsers) (client : Client W) where
  finish_state-requeue :
      (b : Bool) (r : Result) (e : Option GoError) (s : Sim W)
      → (finish_state p client b (r, e) s).0.1 ≡ none
      → (finish_state p client b (r, e) s).0.0.requeue_after ≡ r.requeue_after
  finish_state-requeue b r e s h = ground arith

module _ {W : Type 0} (m : Machinery) (p : Parsers) (client : Client W)
    (handlers : StateHandler W) where
  -- If the state of the object has a handler and the reconciliation of that state has no error, the
  -- wait that it asks for is the handler's own, whether or not reapplying is supported.
  pub reconcile_state-requeue :
      (b : Bool) (s : Sim W) (h : Handle W)
      → handler_for handlers (current_state m s.object) ≡ some h
      → (reconcile_state m p client handlers b s).0.1 ≡ none
      → (reconcile_state m p client handlers b s).0.0.requeue_after
        ≡ (h s.object s.world).result.requeue_after
  unfolding reconcile_state
  reconcile_state-requeue b s h e f =
      rw (e, reconcile_state) (finish_state-requeue p client b _ _ _ (rw (e, reconcile_state) at f))

  -- The conditions that a reconciliation writes after a handler.
  abbrev pub written : Handled W → List Condition
  written done =
      let r = defaulted done.result in
      let (t, w) = client.now done.world in
      ready_conditions m done.object r done.error (state_conditions m done.object r done.error t)
        (client.now w).0

  module _ (laws : IsLawful m) where
    -- One reconciliation, without support for reapplying, of an object that is found, is not
    -- skipped, has the finalizer and whose state has a handler that moves to a state of the package
    -- other than Deleted: it fetches the object, runs that handler and applies conditions, in this
    -- order and with no other call, and the state that reads from these conditions is the handler's
    -- next state. The API machinery keeps its laws.
    pub calls-reconcile :
        (ns name : String) (s : Sim W) (obj : Object) (w : W) (h : Handle W)
        → client.fetch ns name s.world ≡ (ok obj, w)
        → is_skipped obj ≡ false
        → has_all m (finalizer_name ∷ []) obj.finalizers ≡ true
        → handler_for handlers (current_state m obj) ≡ some h
        → is_deleted (default_next (h obj w).result.next_state) ≡ false
        → IsCanonical (default_next (h obj w).result.next_state)
        → (cs : List Condition) × ((reconcile m p client handlers false ns name s).1.calls
            ≡ applied_conditions cs ∷ handled (current_state m obj) ∷ fetched ns name ∷ s.calls)
          × (get_state m cs ≡ default_next (h obj w).result.next_state)
    unfolding reconcile reconcile_state
    calls-reconcile ns name s obj w h e1 e2 e3 e4 e5 c = (
      written (h obj w),
      rw (e1, e2, e3, e4, e5, reconcile, reconcile_state),
      get_state-conditions m laws (h obj w).object (defaulted (h obj w).result) (h obj w).error _ _
          c,
    )

  -- One reconciliation, without support for reapplying, of an object that is found, is not skipped,
  -- has the finalizer and whose state has a handler that moves to Deleted: it fetches the object,
  -- runs that handler and takes the finalizer off, in this order and with no other call.
  pub calls-reconcile_deleted :
      (ns name : String) (s : Sim W) (obj : Object) (w : W) (h : Handle W)
      → client.fetch ns name s.world ≡ (ok obj, w)
      → is_skipped obj ≡ false
      → has_all m (finalizer_name ∷ []) obj.finalizers ≡ true
      → handler_for handlers (current_state m obj) ≡ some h
      → is_deleted (default_next (h obj w).result.next_state) ≡ true
      → (reconcile m p client handlers false ns name s).1.calls
        ≡ patched_finalizers (m.remove_finalizer (h obj w).object.finalizers finalizer_name)
          ∷ handled (current_state m obj)
          ∷ fetched ns name
          ∷ s.calls
  unfolding reconcile reconcile_state remove_all
  calls-reconcile_deleted ns name s obj w h e1 e2 e3 e4 e5 =
      rw (e1, e2, e3, e4, e5, reconcile, reconcile_state)
        (calls-unset client m (finalizer_name ∷ []) (record {
          world = (client.now (h obj w).world).1;
          object = (h obj w).object;
          calls = handled (current_state m obj) ∷ fetched ns name ∷ s.calls;
        }))

  -- If an object is found, is not skipped and lacks the finalizer, and the patch that adds it
  -- fails, the reconciliation returns that error and makes no call but the fetch and the patch.
  pub reconcile_without_finalizer :
      (b : Bool) (ns name : String) (s : Sim W) (obj : Object) (w w' : W) (e : GoError)
      → client.fetch ns name s.world ≡ (ok obj, w)
      → is_skipped obj ≡ false
      → has_all m (finalizer_name ∷ []) obj.finalizers ≡ false
      → let fs = m.add_finalizer obj.finalizers finalizer_name in
        client.patch_finalizers (record obj { finalizers = fs }) w ≡ (err e, w')
        → ((reconcile m p client handlers b ns name s).0
            ≡ failed (wrap "failed to manage finalizers" e))
          × ((reconcile m p client handlers b ns name s).1.calls
              ≡ patched_finalizers fs ∷ fetched ns name ∷ s.calls)
  unfolding reconcile add_all
  reconcile_without_finalizer b ns name s obj w w' e e1 e2 e3 e4 =
      (rw (e1, e2, e3, reconcile, e4), rw (e1, e2, e3, reconcile, e4))

  -- If an object is not found, or is found and skipped while its state is not Deleted, the
  -- reconciliation fetches it, makes no other call, leaves the world as it is and returns without a
  -- wait or an error.
  pub reconcile_nothing :
      (b : Bool) (ns name : String) (s : Sim W) (w : W)
      → ((e : GoError) × (client.fetch ns name s.world ≡ (err e, w))
          × (errors_is e object_not_found ≡ true))
        ⊎ ((obj : Object) × (client.fetch ns name s.world ≡ (ok obj, w))
            × (is_skipped obj ≡ true)
            × (is_deleted (get_state m obj.conditions) ≡ false))
      → ((reconcile m p client handlers b ns name s).0 ≡ done)
        × ((reconcile m p client handlers b ns name s).1.calls ≡ fetched ns name ∷ s.calls)
        × ((reconcile m p client handlers b ns name s).1.world ≡ w)
  unfolding reconcile
  reconcile_nothing b ns name s w (inl (e, e1, e2)) =
      (rw (e1, e2, reconcile), rw (e1, reconcile), rw (e1, reconcile))
  reconcile_nothing b ns name s w (inr (obj, e1, e2, e3)) =
      (rw (e1, e2, e3, reconcile), rw (e1, e2, e3, reconcile), rw (e1, e2, e3, reconcile))
