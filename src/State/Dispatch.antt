-- ===== src/State/Dispatch.antt =====
-- ReconcileState of pkg/controller/state/reconciler.go: which handler a state gets, and what is
-- done about reapplying.
use text.Mathlib.Text.{starts_with}
use mongodb_atlas_kubernetes.Base.{
  String, Bool, true, false, not, Option, none, some, List, [], ◌∷◌, if◌then◌else◌, concat,
  is_empty_text, is_some, ◌&&◌, ◌||◌,
}
use mongodb_atlas_kubernetes.Base.Int.{ℤ, is_zero}
use mongodb_atlas_kubernetes.Base.Errors.{GoError, plain, wrap, Answer, ok, err}
use mongodb_atlas_kubernetes.Base.Effect.{Effect, pure, ◌>>=◌}
use mongodb_atlas_kubernetes.State.Kube.{Object, Machinery}
use mongodb_atlas_kubernetes.State.Results.{Result, empty_result}
use mongodb_atlas_kubernetes.State.Reapply.{Parsers, patch_reapply_timestamp}
use mongodb_atlas_kubernetes.State.Sim.{Client, Sim, handled, log}
use mongodb_atlas_kubernetes.State.{
  ResourceState, initial, import_requested, imported, creating, created, updating, updated,
  deletion_requested, deleting, deleted, other, get_state, state_text,
}

-- What a handler leaves: its result and error, the object (a pointer in Go) and the world.
pub record Handled (W : Type 0) : Type 0 where
  pub result : Result
  pub error : Option GoError
  pub object : Object
  pub world : W

abbrev pub Handle : Type 0 → Type 0
Handle W = Object → W → Handled W

pub record StateHandler (W : Type 0) : Type 0 where
  pub handle_initial : Handle W
  pub handle_import_requested : Handle W
  pub handle_imported : Handle W
  pub handle_creating : Handle W
  pub handle_created : Handle W
  pub handle_updating : Handle W
  pub handle_updated : Handle W
  pub handle_deletion_requested : Handle W
  pub handle_deleting : Handle W

-- the loop over the annotations
unfoldable pub has_external : List (String × String) → Bool
has_external [] = false
has_external ((k, v) ∷ rest) = starts_with k "mongodb.com/external-" || has_external rest

abbrev pub is_initial : ResourceState → Bool
is_initial initial = true
is_initial _ = false

abbrev pub is_deleting : ResourceState → Bool
is_deleting deleting = true
is_deleting _ = false

abbrev pub with_import : ResourceState → Object → ResourceState
with_import s obj = if is_initial s && has_external obj.annotations then import_requested else s

abbrev pub with_deletion : ResourceState → Object → ResourceState
with_deletion s obj =
    if is_some obj.deletion_timestamp && not (is_deleting s) then deletion_requested else s

-- The state that the `switch` is entered with.
unfoldable pub current_state : Machinery → Object → ResourceState
unfolding get_state has_external
current_state m obj = with_deletion (with_import (get_state m obj.conditions) obj) obj

abbrev pub is_reapply_state : ResourceState → Bool
is_reapply_state imported = true
is_reapply_state created = true
is_reapply_state updated = true
is_reapply_state _ = false

-- `if result.NextState == "" { result.NextState = state.StateInitial }`
abbrev pub default_next : ResourceState → ResourceState
default_next (other t) = if is_empty_text t then initial else other t
default_next s = s

module _ {W : Type 0} (handlers : StateHandler W) where
  -- the `switch`; none is its `default`
  unfoldable pub handler_for : ResourceState → Option (Handle W)
  handler_for initial = some handlers.handle_initial
  handler_for import_requested = some handlers.handle_import_requested
  handler_for imported = some handlers.handle_imported
  handler_for creating = some handlers.handle_creating
  handler_for created = some handlers.handle_created
  handler_for updating = some handlers.handle_updating
  handler_for updated = some handlers.handle_updated
  handler_for deletion_requested = some handlers.handle_deletion_requested
  handler_for deleting = some handlers.handle_deleting
  handler_for deleted = none
  handler_for (other t) = none

-- Runs a handler on the object.
abbrev pub call_handler :
    {W : Type 0} → ResourceState → Handle W → Effect (Sim W) (Result × Option GoError)
call_handler s h sim =
    let done = h sim.object sim.world in
    (
      (done.result, done.error),
      log (handled s) (record sim { object = done.object; world = done.world }),
    )

abbrev pub wrapped : Answer ℤ → Option GoError
wrapped (ok requeue_after) = none
wrapped (err e) = some (wrap "failed to patch reapply timestamp" e)

abbrev pub reapplied :
    {W : Type 0}
    → Result
    → Option GoError
    → Option GoError
    → Effect (Sim W) (Result × Option GoError)
reapplied result e none = pure (result, e)
reapplied result e (some failure) =
    pure (empty_result, some (wrap "failed to reconcile reapply" failure))

module _ {W : Type 0} (p : Parsers) (client : Client W) where
  -- The source assigns the duration that the patch answers to its own copy of `result`.
  unfoldable pub reconcile_reapply : Result → Option GoError → Effect (Sim W) (Option GoError)
  unfolding patch_reapply_timestamp
  reconcile_reapply result e =
      if is_reapply_state result.next_state && is_zero result.requeue_after && not (is_some e)
      then (do requeue_after ← patch_reapply_timestamp p client; pure (wrapped requeue_after))
      else pure none

  -- What follows the `switch`.
  abbrev pub finish_state :
      Bool → Result × Option GoError → Effect (Sim W) (Result × Option GoError)
  finish_state support_reapply (result, e) =
      let r = record result { next_state = default_next result.next_state } in
      if support_reapply
      then (do failure ← reconcile_reapply r e; reapplied r e failure)
      else pure (r, e)

  abbrev pub dispatch :
      Bool → ResourceState → Option (Handle W) → Effect (Sim W) (Result × Option GoError)
  dispatch support_reapply s none =
      pure (empty_result, some (plain (concat "unsupported state " (state_text s))))
  dispatch support_reapply s (some h) = do
    outcome ← call_handler s h
    finish_state support_reapply outcome

module _ {W : Type 0} (m : Machinery) (p : Parsers) (client : Client W)
    (handlers : StateHandler W) where
  unfoldable pub reconcile_state : Bool → Effect (Sim W) (Result × Option GoError)
  unfolding current_state handler_for reconcile_reapply
  reconcile_state support_reapply sim =
      let s = current_state m sim.object in
      dispatch p client support_reapply s (handler_for handlers s) sim
