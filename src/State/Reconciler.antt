-- ===== src/State/Reconciler.antt =====
-- Reconcile of pkg/controller/state/reconciler.go: one reconciliation of one object.
use mongodb_atlas_kubernetes.Base.{
  ℕ, String, Bool, true, false, not, Option, none, some, List, [], ◌∷◌, ◌++◌, if◌then◌else◌, lookup,
  is_some, str_eq,
}
use mongodb_atlas_kubernetes.Base.Return.{Return, done, failed}
use mongodb_atlas_kubernetes.Base.Errors.{GoError, object_not_found, wrap, errors_is, error_text}
use mongodb_atlas_kubernetes.Base.Effect.{Effect, pure, gets, ◌>>=◌}
use mongodb_atlas_kubernetes.State.Kube.{Condition, Object, Machinery, status_false}
use mongodb_atlas_kubernetes.State.Results.{Result}
use mongodb_atlas_kubernetes.State.Reapply.{Parsers}
use mongodb_atlas_kubernetes.State.Ready.{new_ready_condition, reason_error}
use mongodb_atlas_kubernetes.State.Generation.{observed_generation}
use mongodb_atlas_kubernetes.State.Dispatch.{StateHandler, reconcile_state}
use mongodb_atlas_kubernetes.State.Sim.{
  Client, Sim, get_object, read_clock, unset, ensure, send_conditions,
}
use mongodb_atlas_kubernetes.State.{
  ResourceState, deleted, state_condition, ready_condition, get_state, ensure_state,
}

abbrev pub finalizer_name : String
finalizer_name = "mongodb.com/finalizer"

-- customresource.ReconciliationShouldBeSkipped
unfoldable pub is_skipped : Object → Bool
is_skipped obj = elim (lookup "mongodb.com/atlas-reconciliation-policy" obj.annotations) [
  | none ↦ false
  | some v ↦ str_eq v "skip"
]

abbrev pub is_deleted : ResourceState → Bool
is_deleted deleted = true
is_deleted _ = false

abbrev pub found : Option Condition → List Condition
found none = []
found (some c) = c ∷ []

-- the error of the handler overrides what the state says
abbrev pub with_error : Option GoError → Condition → Condition
with_error none c = c
with_error (some e) c = record c {
  status = status_false;
  reason = reason_error;
  message = error_text e;
}

abbrev pub or_failed : String → Return → Option GoError → Return
or_failed msg r none = r
or_failed msg r (some e) = failed (wrap msg e)

abbrev pub returned : Result → Option GoError → Return
returned result e = record { requeue_after = result.requeue_after; error = e }

module _ (m : Machinery) where
  -- the loop over "State" and "Ready"
  unfoldable pub kept_conditions : List Condition → List Condition
  kept_conditions cs =
      found (m.find_status_condition cs state_condition)
      ++ found (m.find_status_condition cs ready_condition)

  -- the conditions with the new state, and then with the new readiness
  unfoldable pub state_conditions : Object → Result → Option GoError → ℕ → List Condition
  unfolding kept_conditions observed_generation ensure_state
  state_conditions obj result e now =
      ensure_state m (kept_conditions obj.conditions)
        (observed_generation m obj obj.conditions result.next_state) result.next_state
        result.state_msg (not (is_some e)) now

  -- the "Ready" condition of an outcome
  unfoldable pub outcome_condition : Object → Result → Option GoError → ℕ → Condition
  unfolding observed_generation new_ready_condition
  outcome_condition obj result e now =
      with_error e (record (new_ready_condition result.next_state now) {
        observed_generation = observed_generation m obj obj.conditions result.next_state;
      })

  unfoldable pub ready_conditions :
      Object → Result → Option GoError → List Condition → ℕ → List Condition
  unfolding outcome_condition
  ready_conditions obj result e cs now =
      m.set_status_condition cs (outcome_condition obj result e now)

module _ {W : Type 0} (m : Machinery) (client : Client W) where
  -- The terminal state gives the finalizer up; any other state is written to the conditions.
  abbrev pub conclude_at :
      Bool → Object → Result → Option GoError → List Condition → Effect (Sim W) Return
  conclude_at true obj result e cs = do
    failure ← unset client m (finalizer_name ∷ [])
    pure (or_failed "failed to unset finalizer" (returned result e) failure)
  conclude_at false obj result e cs = do
    now ← read_clock client
    failure ← send_conditions client (ready_conditions m obj result e cs now)
    pure (or_failed "failed to patch status" (returned result e) failure)

  abbrev pub conclude : Result → Option GoError → Effect (Sim W) Return
  conclude result e = do
    obj ← gets (λ s. s.object)
    now ← read_clock client
    conclude_at (is_deleted result.next_state) obj result e (state_conditions m obj result e now)

  unfoldable pub finish : Result × Option GoError → Effect (Sim W) Return
  unfolding state_conditions ready_conditions unset send_conditions read_clock
  finish (result, e) = conclude result e

  unfoldable pub skip : ResourceState → Effect (Sim W) Return
  unfolding unset
  skip s =
      if is_deleted s
      then (do
        failure ← unset client m (finalizer_name ∷ [])
        pure (or_failed "failed to unset finalizer" done failure))
      else pure done

module _ {W : Type 0} (m : Machinery) (p : Parsers) (client : Client W)
    (handlers : StateHandler W) where
  abbrev pub after_ensure : Bool → Option GoError → Effect (Sim W) Return
  after_ensure support_reapply (some e) = pure (failed (wrap "failed to manage finalizers" e))
  after_ensure support_reapply none = do
    outcome ← reconcile_state m p client handlers support_reapply
    finish m client outcome

  unfoldable pub manage : Bool → Effect (Sim W) Return
  unfolding ensure finish
  manage support_reapply = do
    e ← ensure client m (finalizer_name ∷ [])
    after_ensure support_reapply e

  abbrev pub after_fetch : Bool → Option GoError → Effect (Sim W) Return
  after_fetch support_reapply (some e) =
      pure (if errors_is e object_not_found then done else failed (wrap "unable to get object" e))
  after_fetch support_reapply none = do
    obj ← gets (λ s. s.object)
    if is_skipped obj then skip m client (get_state m obj.conditions) else manage support_reapply

  unfoldable pub reconcile : Bool → String → String → Effect (Sim W) Return
  unfolding get_object is_skipped manage skip
  reconcile support_reapply namespace name = do
    e ← get_object client namespace name
    after_fetch support_reapply e
