-- ===== src/State/RunTests.antt =====
-- A cluster that stores one object, and handlers that annotate it and whose deletion takes a while.
use Prim.Native.Nat.{pred}
use mongodb_atlas_kubernetes.Base.{
  ℕ, zero, suc, ◌≡◌, ◌⊎◌, inl, inr, refl, subst, String, true, Option, none, some, [], ◌∷◌,
}
use mongodb_atlas_kubernetes.Base.Int.{pos}
use mongodb_atlas_kubernetes.Base.Errors.{GoError, plain, ok}
use mongodb_atlas_kubernetes.State.Kube.{Object}
use mongodb_atlas_kubernetes.State.Concrete.{machinery, machinery-IsLawful, find, set, remove}
use mongodb_atlas_kubernetes.State.Finalizers.{has_all}
use mongodb_atlas_kubernetes.State.Reapply.{
  Parsers, timestamp_annotation, period_annotation, patch_reapply_timestamp,
}
use mongodb_atlas_kubernetes.State.Dispatch.{
  StateHandler, Handle, default_next, handler_for, has_external, reconcile_state, reconcile_reapply,
}
use mongodb_atlas_kubernetes.State.Sim.{Client, Sim}
use mongodb_atlas_kubernetes.State.Runs.{IsStore, IsKept}
use mongodb_atlas_kubernetes.State.Life.{Life, Reach, alive, gone, is_handled}
use mongodb_atlas_kubernetes.State.Lives.{Follows, life, run, run-refines}
use mongodb_atlas_kubernetes.State.Reconciler.{finalizer_name, is_skipped, reconcile, finish}
use mongodb_atlas_kubernetes.State.{
  ResourceState, initial, import_requested, imported, creating, created, updating, updated,
  deletion_requested, deleting, deleted, other, get_state, IsCanonical, of_text,
}

-- The object, and how many handlings there are until the deletion can begin.
abbrev World : Type 0
World = Object × ℕ

abbrev stored : World → Object
stored (o, n) = o

abbrev with_note : String → Object → Object
with_note key o = record o { annotations = (key, "1") ∷ o.annotations }

abbrev tracker : String
tracker = "mongodb.internal.com/state-tracker"

abbrev keeper : Client World
keeper = record {
  fetch = λ namespace name w. (ok (stored w), w);
  patch_finalizers = λ o (kept, n). (ok o, (record kept { finalizers = o.finalizers }, n));
  patch_timestamp = λ ms o (kept, n). (ok o, (with_note timestamp_annotation kept, n));
  apply_conditions = λ cs o (kept, n). (none, (record kept { conditions = cs }, n));
  now = λ w. (600000000000, w);
}

abbrev parsers : Parsers
parsers = record { parse_duration = λ t. ok (pos 120000000000); parse_int = λ t. ok (pos 1000) }

-- A handler that leaves a note of the state of the resource.
abbrev goes : ResourceState → Option GoError → Handle World
goes s e o (kept, n) = record {
  result = record { requeue_after = pos 0; next_state = s; state_msg = "" };
  error = e;
  object = with_note tracker o;
  world = (with_note tracker kept, pred n);
}

-- The first deletion fails.
abbrev request_deletion : Handle World
request_deletion o (kept, zero) = goes deleting none o (kept, 0)
request_deletion o (kept, suc n) = goes deletion_requested (some (plain "busy")) o (kept, suc n)

abbrev notes : StateHandler World
notes = record {
  handle_initial = goes created none;
  handle_import_requested = goes imported none;
  handle_imported = goes updated none;
  handle_creating = goes created none;
  handle_created = goes created none;
  handle_updating = goes updated none;
  handle_updated = goes updated none;
  handle_deletion_requested = request_deletion;
  handle_deleting = goes deleted none;
}

-- The moves of these handlers.
abbrev Plan : ResourceState → ResourceState → Type 0
Plan initial s = s ≡ created
Plan import_requested s = s ≡ imported
Plan imported s = s ≡ updated
Plan creating s = s ≡ created
Plan created s = s ≡ created
Plan updating s = s ≡ updated
Plan updated s = s ≡ updated
Plan deletion_requested s = (s ≡ deletion_requested) ⊎ (s ≡ deleting)
Plan deleting s = s ≡ deleted
Plan deleted s = ⊥
Plan (other t) s = ⊥

-- A note is not what the reconciler reads.
with_note-IsKept :
    (key : String) (o : Object)
    → has_external ((key, "1") ∷ o.annotations) ≡ has_external o.annotations
    → is_skipped (with_note key o) ≡ is_skipped o
    → IsKept machinery (with_note key o) o
with_note-IsKept key o e k = record {
  same_finalizer = refl;
  same_skip = k;
  same_conditions = refl;
  same_external = e;
  same_deletion = refl;
}

tracker-IsKept : (o : Object) → IsKept machinery (with_note tracker o) o
unfolding has_external is_skipped
tracker-IsKept o = with_note-IsKept tracker o refl refl

timestamp-IsKept : (o : Object) → IsKept machinery (with_note timestamp_annotation o) o
unfolding has_external is_skipped
timestamp-IsKept o = with_note-IsKept timestamp_annotation o refl refl

keeper-IsStore : IsStore machinery keeper stored
keeper-IsStore = record {
  fetch_stored = λ ns name w e. refl;
  apply_stored = λ cs o w. refl;
  patch_stored = λ o w. refl;
  timestamp_stored = λ ms o (kept, n). timestamp-IsKept kept;
  now_stored = λ w. refl;
}

the_handler : (h k : Handle World) → some h ≡ some k → h ≡ k
the_handler h k e = λ i. or_first (e i)
  where
    or_first : Option (Handle World) → Handle World
    or_first none = h
    or_first (some f) = f

-- What the machine asks of a handler in a state.
abbrev IsPlanned : ResourceState → Handle World → Type 0
IsPlanned s h =
    (o : Object) (w : World)
    → let n = default_next (h o w).result.next_state in
      IsKept machinery (stored (h o w).world) (stored w)
      × Plan s n
      × IsCanonical n
      × ((n ≡ deleted) ⊎ (is_handled n ≡ true))

request-IsPlanned : IsPlanned deletion_requested request_deletion
unfolding of_text
request-IsPlanned o (kept, zero) = (tracker-IsKept kept, inr refl, refl, inr refl)
request-IsPlanned o (kept, suc n) = (tracker-IsKept kept, inl refl, refl, inr refl)

planned : (s : ResourceState) (h : Handle World) → handler_for notes s ≡ some h → IsPlanned s h
unfolding handler_for of_text
planned initial h e =
    subst (IsPlanned initial) (the_handler (goes created none) h e)
      (λ o w. (tracker-IsKept w.0, refl, refl, inr refl))
planned import_requested h e =
    subst (IsPlanned import_requested) (the_handler (goes imported none) h e)
      (λ o w. (tracker-IsKept w.0, refl, refl, inr refl))
planned imported h e =
    subst (IsPlanned imported) (the_handler (goes updated none) h e)
      (λ o w. (tracker-IsKept w.0, refl, refl, inr refl))
planned creating h e =
    subst (IsPlanned creating) (the_handler (goes created none) h e)
      (λ o w. (tracker-IsKept w.0, refl, refl, inr refl))
planned created h e =
    subst (IsPlanned created) (the_handler (goes created none) h e)
      (λ o w. (tracker-IsKept w.0, refl, refl, inr refl))
planned updating h e =
    subst (IsPlanned updating) (the_handler (goes updated none) h e)
      (λ o w. (tracker-IsKept w.0, refl, refl, inr refl))
planned updated h e =
    subst (IsPlanned updated) (the_handler (goes updated none) h e)
      (λ o w. (tracker-IsKept w.0, refl, refl, inr refl))
planned deletion_requested h e =
    subst (IsPlanned deletion_requested) (the_handler request_deletion h e) request-IsPlanned
planned deleting h e =
    subst (IsPlanned deleting) (the_handler (goes deleted none) h e)
      (λ o w. (tracker-IsKept w.0, refl, refl, inl refl))
planned deleted h e = cc
planned (other t) h e = cc

abbrev follows :
    (p : Parsers)
    → Follows machinery machinery-IsLawful p keeper notes stored keeper-IsStore true "prod"
        "cluster0" Plan
follows p = record {
  keeps = λ s h o w e. (planned s h e o w).0;
  allowed =
      λ s h o w e. let (kept, plan, canonical, fate) = planned s h e o w in (plan, canonical, fate);
}

abbrev leaving : Object
leaving = record {
  name = "cluster0";
  namespace = "prod";
  generation = 3;
  annotations = [];
  finalizers = finalizer_name ∷ [];
  deletion_timestamp = some 9;
  conditions = [];
}

abbrev start : Sim World
start = record { world = (leaving, 1); object = leaving; calls = [] }

abbrev runs : Parsers → ℕ → Sim World → Sim World
runs p n s =
    run machinery machinery-IsLawful p keeper notes stored keeper-IsStore true "prod" "cluster0"
      Plan n s

abbrev life_of : Sim World → Life
life_of s =
    life machinery machinery-IsLawful parsers keeper notes stored keeper-IsStore true "prod"
      "cluster0" Plan s.world

run-refines_example : Reach Plan leaving (alive initial) (life_of (runs parsers 3 start))
unfolding has_all is_skipped get_state find
run-refines_example =
    run-refines machinery machinery-IsLawful parsers keeper notes stored keeper-IsStore true "prod"
      "cluster0" Plan (follows parsers) 3 start (refl, refl, inl refl)

-- The deletion fails once, and then it takes two reconciliations.
deletion_test :
    (life_of (runs parsers 1 start) ≡ alive deletion_requested)
    × (life_of (runs parsers 2 start) ≡ alive deleting)
    × (life_of (runs parsers 3 start) ≡ gone)
unfolding reconcile has_all is_skipped get_state find reconcile_state of_text finish set remove
deletion_test = (refl, refl, refl)

-- A reapply period below a minute loses the state of an object that was created.
period_test :
    let obj = record leaving {
      deletion_timestamp = none;
      annotations = (period_annotation, "10s") ∷ [];
    } in
    let short = record parsers { parse_duration = λ t. ok (pos 10000000000) } in
    life_of (runs short 2 (record start { world = (obj, 0); object = obj })) ≡ alive (other "")
unfolding reconcile has_all is_skipped get_state find reconcile_state of_text finish
    reconcile_reapply patch_reapply_timestamp set
period_test = refl
