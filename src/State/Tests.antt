-- ===== src/State/Tests.antt =====
-- Runs of the state reconciler on a cluster that stores one object, and the theorems at them.
use mongodb_atlas_kubernetes.Base.{
  ◌≡◌, refl, ◌⊎◌, inl, String, Bool, true, false, Option, none, some, List, [], ◌∷◌,
}
use mongodb_atlas_kubernetes.Base.Int.{pos, ◌+ℤ◌, ◌-ℤ◌, scale}
use mongodb_atlas_kubernetes.Base.Return.{done, failed}
use mongodb_atlas_kubernetes.Base.Errors.{Answer, ok, err, plain, sentinel, object_not_found, wrap}
use mongodb_atlas_kubernetes.State.Kube.{Condition, Object, status_true}
use mongodb_atlas_kubernetes.State.Concrete.{machinery, machinery-IsLawful, find, add, remove}
use mongodb_atlas_kubernetes.State.Finalizers.{has_all}
use mongodb_atlas_kubernetes.State.Results.{Result}
use mongodb_atlas_kubernetes.State.Reapply.{Parsers}
use mongodb_atlas_kubernetes.State.Sim.{
  Client, Sim, fetched, handled, patched_finalizers, applied_conditions,
}
use mongodb_atlas_kubernetes.State.Dispatch.{
  StateHandler, Handle, reconcile_state, current_state, handler_for,
}
use mongodb_atlas_kubernetes.State.Reconciler.{
  reconcile, finalizer_name, ready_conditions, state_conditions, is_skipped,
}
use mongodb_atlas_kubernetes.State.Recorded.{current_state-deletion, get_state-conditions}
use mongodb_atlas_kubernetes.State.Traces.{
  calls-reconcile, calls-reconcile_deleted, reconcile_without_finalizer, reconcile_nothing,
  reconcile_state-requeue,
}
use mongodb_atlas_kubernetes.State.{
  ResourceState, initial, imported, creating, created, updated, deletion_requested, deleting,
  deleted, get_state, of_text, state_condition,
}

abbrev World : Type 0
World = Option Object

abbrev answer : World → Answer Object
answer none = err (sentinel object_not_found)
answer (some o) = ok o

-- A cluster that keeps what it is sent; `refuses` makes every patch fail.
abbrev cluster : Bool → Client World
cluster refuses = record {
  fetch = λ namespace name w. (answer w, w);
  patch_finalizers =
      λ o w. elim refuses [ true ↦ (err (plain "conflict"), w) | false ↦ (ok o, some o) ];
  patch_timestamp =
      λ ms o w. elim refuses [ true ↦ (err (plain "conflict"), w) | false ↦ (ok o, some o) ];
  apply_conditions = λ cs o w. (none, some (record o { conditions = cs }));
  now = λ w. (600000000000, w);
}

abbrev parsers : Parsers
parsers = record { parse_duration = λ t. ok (pos 120000000000); parse_int = λ t. ok (pos 1000) }

abbrev moves_to : ResourceState → Handle World
moves_to s o w = record {
  result = record { requeue_after = pos 0; next_state = s; state_msg = "moved." };
  error = none;
  object = o;
  world = w;
}

abbrev handlers : StateHandler World
handlers = record {
  handle_initial = moves_to creating;
  handle_import_requested = moves_to imported;
  handle_imported = moves_to updated;
  handle_creating = moves_to created;
  handle_created = moves_to created;
  handle_updating = moves_to updated;
  handle_updated = moves_to updated;
  handle_deletion_requested = moves_to deleting;
  handle_deleting = moves_to deleted;
}

abbrev fresh : Object
fresh = record {
  name = "cluster0";
  namespace = "prod";
  generation = 3;
  annotations = [];
  finalizers = finalizer_name ∷ [];
  deletion_timestamp = none;
  conditions = [];
}

abbrev bare : Object
bare = record fresh { finalizers = [] }

abbrev in_state : String → Object → Object
in_state reason o = record o {
  conditions =
      record {
        kind = state_condition;
        status = status_true;
        observed_generation = 2;
        last_transition_time = 5;
        reason = reason;
        message = "";
      }
      ∷ [];
}

abbrev leaving : Object
leaving = record (in_state "Deleting" fresh) { deletion_timestamp = some 9 }

abbrev reapplying : Object
reapplying = record (in_state "Created" fresh) {
  annotations =
      ("mongodb.com/reapply-period", "2m")
      ∷ ("mongodb.internal.com/reapply-timestamp", "1000")
      ∷ [];
}

abbrev start : World → Sim World
start w = record { world = w; object = bare; calls = [] }

calls-reconcile_example :
    (cs : List Condition) × ((reconcile machinery parsers
        (cluster false)
        handlers
        false
        "prod"
        "cluster0"
        (start (some fresh))).1.calls
      ≡ applied_conditions cs ∷ handled initial ∷ fetched "prod" "cluster0" ∷ [])
    × (get_state machinery cs ≡ creating)
unfolding current_state has_all is_skipped handler_for of_text find
calls-reconcile_example =
    calls-reconcile machinery parsers (cluster false) handlers machinery-IsLawful "prod" "cluster0"
      (start (some fresh)) fresh (some fresh) (moves_to creating) refl refl refl refl refl refl

calls-reconcile_deleted_example :
    (reconcile machinery parsers
      (cluster false)
      handlers
      false
      "prod"
      "cluster0"
      (start (some leaving))).1.calls
    ≡ patched_finalizers [] ∷ handled deleting ∷ fetched "prod" "cluster0" ∷ []
unfolding current_state has_all is_skipped handler_for of_text find remove
calls-reconcile_deleted_example =
    calls-reconcile_deleted machinery parsers (cluster false) handlers "prod" "cluster0"
      (start (some leaving)) leaving (some leaving) (moves_to deleted) refl refl refl refl refl

reconcile_without_finalizer_example :
    ((reconcile machinery parsers
        (cluster true)
        handlers
        true
        "prod"
        "cluster0"
        (start (some bare))).0
      ≡ failed (wrap "failed to manage finalizers" (plain "conflict")))
    × ((reconcile machinery parsers
          (cluster true)
          handlers
          true
          "prod"
          "cluster0"
          (start (some bare))).1.calls
        ≡ patched_finalizers (finalizer_name ∷ []) ∷ fetched "prod" "cluster0" ∷ [])
unfolding has_all is_skipped add
reconcile_without_finalizer_example =
    reconcile_without_finalizer machinery parsers (cluster true) handlers true "prod" "cluster0"
      (start (some bare)) bare (some bare) (some bare) (plain "conflict") refl refl refl refl

reconcile_nothing_example :
    ((reconcile machinery parsers (cluster false) handlers true "prod" "gone" (start none)).0
      ≡ done)
    × ((reconcile machinery parsers
          (cluster false)
          handlers
          true
          "prod"
          "gone"
          (start none)).1.calls
        ≡ fetched "prod" "gone" ∷ [])
    × ((reconcile machinery parsers
          (cluster false)
          handlers
          true
          "prod"
          "gone"
          (start none)).1.world
        ≡ none)
reconcile_nothing_example =
    reconcile_nothing machinery parsers (cluster false) handlers true "prod" "gone" (start none)
      none (inl (sentinel object_not_found, refl, refl))

-- The period of two minutes has just begun, and yet no wait is asked for.
abbrev reapply_run : Sim World
reapply_run = record { world = some reapplying; object = reapplying; calls = [] }

reconcile_state-requeue_example :
    (reconcile_state machinery parsers (cluster false) handlers true reapply_run).0.0.requeue_after
    ≡ pos 0
unfolding current_state handler_for of_text find reconcile_state ◌-ℤ◌ ◌+ℤ◌ scale
reconcile_state-requeue_example =
    reconcile_state-requeue machinery parsers (cluster false) handlers true reapply_run
      (moves_to created) refl refl

current_state-deletion_example :
    (current_state machinery leaving ≡ deletion_requested)
    ⊎ ((current_state machinery leaving ≡ deleting)
        × (get_state machinery leaving.conditions ≡ deleting))
current_state-deletion_example = current_state-deletion machinery leaving 9 refl

abbrev moved : Result
moved = record { requeue_after = pos 0; next_state = updated; state_msg = "" }

get_state-conditions_example :
    get_state machinery (
      ready_conditions machinery fresh moved
        (some (plain "late"))
        (state_conditions machinery fresh moved (some (plain "late")) 7)
        8)
    ≡ updated
unfolding of_text
get_state-conditions_example =
    get_state-conditions machinery machinery-IsLawful fresh moved (some (plain "late")) 7 8 refl
