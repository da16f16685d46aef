-- ===== src/State/Runs.antt =====
-- One reconciliation of an object that a cluster stores, with or without support for reapplying.
use Prim.Native.Nat.{◌/◌}
use mongodb_atlas_kubernetes.Base.{
  ℕ, ◌≡◌, ◌⊎◌, inl, inr, refl, ap, ◌∙◌, String, Bool, true, false, Option, none, some, List, [],
  ◌∷◌, arith, not, ◌&&◌, Bool-cases, is_some,
}
use mongodb_atlas_kubernetes.Base.Int.{ℤ, is_zero, pos, ◌+ℤ◌, ◌-ℤ◌, ltb_ℤ}
use mongodb_atlas_kubernetes.Base.Errors.{GoError, Answer, ok, err}
use mongodb_atlas_kubernetes.State.Kube.{Condition, Object, Machinery, IsLawful}
use mongodb_atlas_kubernetes.State.Finalizers.{has_all, remove_all, settle}
use mongodb_atlas_kubernetes.State.Results.{Result}
use mongodb_atlas_kubernetes.State.Reapply.{
  Parsers, patch_reapply_timestamp, renew_by_period, renew, send_now, reapply_period,
  reapply_timestamp,
}
use mongodb_atlas_kubernetes.State.Dispatch.{
  StateHandler, reconcile_state, reconcile_reapply, finish_state, default_next, has_external,
  is_reapply_state, reapplied,
}
use mongodb_atlas_kubernetes.State.Recorded.{get_state-conditions}
use mongodb_atlas_kubernetes.State.Sim.{
  Client, Sim, world-unset, fetched, after_patch, log, patched_timestamp, send_timestamp,
  read_clock,
}
use mongodb_atlas_kubernetes.State.Reconciler.{
  reconcile, is_skipped, finalizer_name, is_deleted, finish, state_conditions, ready_conditions,
}
use mongodb_atlas_kubernetes.State.{ResourceState, other, get_state, IsCanonical}

module _ (m : Machinery) where
  -- What the machine reads of an object, other than its name, is the same.
  pub record IsKept (a b : Object) : Type 0 where
    pub same_finalizer :
        has_all m (finalizer_name ∷ []) a.finalizers ≡ has_all m (finalizer_name ∷ []) b.finalizers
    pub same_skip : is_skipped a ≡ is_skipped b
    pub same_conditions : a.conditions ≡ b.conditions
    pub same_external : has_external a.annotations ≡ has_external b.annotations
    pub same_deletion : a.deletion_timestamp ≡ b.deletion_timestamp

  pub IsKept-self : (a : Object) → IsKept a a
  IsKept-self a = record {
    same_finalizer = refl;
    same_skip = refl;
    same_conditions = refl;
    same_external = refl;
    same_deletion = refl;
  }

  IsKept-equal : (a b : Object) → a ≡ b → IsKept a b
  IsKept-equal a b e = record {
    same_finalizer =
        ap {A = Object} {B = Bool} (λ x. has_all m (finalizer_name ∷ []) x.finalizers) e;
    same_skip = ap {A = Object} {B = Bool} is_skipped e;
    same_conditions = ap {A = Object} {B = List Condition} (λ x. x.conditions) e;
    same_external = ap {A = Object} {B = Bool} (λ x. has_external x.annotations) e;
    same_deletion = ap {A = Object} {B = Option ℕ} (λ x. x.deletion_timestamp) e;
  }

  pub IsKept-then : (a b c : Object) → IsKept a b → IsKept b c → IsKept a c
  IsKept-then a b c h k = record {
    same_finalizer = h.same_finalizer ∙ k.same_finalizer;
    same_skip = h.same_skip ∙ k.same_skip;
    same_conditions = h.same_conditions ∙ k.same_conditions;
    same_external = h.same_external ∙ k.same_external;
    same_deletion = h.same_deletion ∙ k.same_deletion;
  }

module _ {W : Type 0} (m : Machinery) (client : Client W) (stored : W → Object) where
  abbrev pub has_finalizer : W → Bool
  has_finalizer w = has_all m (finalizer_name ∷ []) (stored w).finalizers

  -- A cluster that stores the object, as long as it has the finalizer, and takes what it is sent.
  pub record IsStore : Type 0 where
    pub fetch_stored :
        (namespace name : String) (w : W)
        → has_finalizer w ≡ true
        → client.fetch namespace name w ≡ (ok (stored w), w)
    pub apply_stored :
        (cs : List Condition) (o : Object) (w : W)
        → stored (client.apply_conditions cs o w).1 ≡ record (stored w) { conditions = cs }
    pub patch_stored :
        (o : Object) (w : W)
        → stored (client.patch_finalizers o w).1 ≡ record (stored w) { finalizers = o.finalizers }
    -- taken or not, a patch of the one annotation
    pub timestamp_stored :
        (ms : ℕ) (o : Object) (w : W)
        → IsKept m (stored (client.patch_timestamp ms o w).1) (stored w)
    pub now_stored : (w : W) → stored (client.now w).1 ≡ stored w

module _ {W : Type 0} (m : Machinery) (laws : IsLawful m) (p : Parsers) (client : Client W)
    (stored : W → Object) (store : IsStore m client stored) where
  -- What is written of an outcome reads back as its state.
  pub finish-stored :
      (r : Result) (e : Option GoError) (t : Sim W)
      → is_deleted r.next_state ≡ false
      → IsCanonical r.next_state
      → (cs : List Condition) × (get_state m cs ≡ r.next_state)
        × (stored (finish m client (r, e) t).1.world ≡ record (stored t.world) { conditions = cs })
  unfolding finish
  finish-stored r e t d c =
      let (now, w) = client.now t.world in
      let cs =
        ready_conditions m t.object r e (state_conditions m t.object r e now) (client.now w).0 in
      (
        cs,
        get_state-conditions m laws t.object r e now (client.now w).0 c,
        rw d (
            store.apply_stored _ _ _
            ∙ ap {A = Object} {B = Object} (λ o. record o { conditions = cs })
                (store.now_stored w ∙ store.now_stored t.world)),
      )

  lacks_finalizer :
      (fs : List String)
      → has_all m (finalizer_name ∷ []) (m.remove_finalizer fs finalizer_name) ≡ false
  unfolding has_all
  lacks_finalizer fs = ground (arith, laws.contains-remove_self fs finalizer_name)

  -- An outcome in the state Deleted costs the object its finalizer.
  pub finish-gone :
      (r : Result) (e : Option GoError) (t : Sim W)
      → is_deleted r.next_state ≡ true
      → has_finalizer m client stored (finish m client (r, e) t).1.world ≡ false
  unfolding finish remove_all
  finish-gone r e t d = rw d (
      ap {A = Object} {B = Bool} (λ x. has_all m (finalizer_name ∷ []) x.finalizers)
        (ap stored (world-unset client m (finalizer_name ∷ []) _) ∙ store.patch_stored _ _)
      ∙ lacks_finalizer t.object.finalizers)

  abbrev KeptBy : Sim W → Sim W → Type 0
  KeptBy t s = IsKept m (stored t.world) (stored s.world)

  world-settle :
      (t : Sim W) (o : Object) (a : Answer Object) (w : W)
      → (after_patch t (settle o (a, w))).1.world ≡ w
  world-settle t o (ok o') w = refl
  world-settle t o (err e) w = refl

  send_now-Kept : (period : ℤ) (now : ℕ) (t : Sim W) → KeptBy (send_now client period now t).1 t
  unfolding send_timestamp
  send_now-Kept period now t =
      let (a, w) = client.patch_timestamp (now / 1000000) t.object t.world in
      rw (world-settle (log (patched_timestamp (now / 1000000)) t) t.object a w)
        (store.timestamp_stored (now / 1000000) t.object t.world)

  clock-Kept : (t : Sim W) → KeptBy (read_clock client t).1 t
  unfolding read_clock
  clock-Kept t = IsKept-equal m _ _ (store.now_stored t.world)

  renew-Kept :
      (period : ℤ) (a : Answer (Option ℤ)) (t : Sim W) → KeptBy (renew client period a t).1 t
  renew-Kept period (err e) t = IsKept-self m (stored t.world)
  renew-Kept period (ok none) t =
      let (now, u) = read_clock client t in
      IsKept-then m _ _ _ (send_now-Kept period now u) (clock-Kept t)
  renew-Kept period (ok (some timestamp)) t =
      let (now, u) = read_clock client t in
      elim (Bool-cases (ltb_ℤ (pos 0) (timestamp +ℤ period -ℤ pos now))) [
        | inl e ↦ rw e (clock-Kept t)
        | inr e ↦ rw e (IsKept-then m _ _ _ (send_now-Kept period now u) (clock-Kept t))
      ]

  renew_by-Kept :
      (period timestamp : Answer (Option ℤ)) (t : Sim W)
      → KeptBy (renew_by_period client period timestamp t).1 t
  renew_by-Kept (err e) timestamp t = IsKept-self m (stored t.world)
  renew_by-Kept (ok none) timestamp t = IsKept-self m (stored t.world)
  renew_by-Kept (ok (some period)) timestamp t = renew-Kept period timestamp t

  -- What follows a handler keeps the object, and keeps the next state or, when a reapply fails,
  -- loses it.
  abbrev pub Followed : ResourceState → Sim W → (Result × Option GoError) × Sim W → Type 0
  Followed n t o =
      IsKept m (stored o.1.world) (stored t.world)
      × ((o.0.0.next_state ≡ n) ⊎ ((o.0.0.next_state ≡ other "") × (is_reapply_state n ≡ true)))

  and_left : (a b : Bool) → a && b ≡ true → a ≡ true
  and_left true b h = refl
  and_left false b h = h

  reapply_outcome :
      (r : Result) (e : Option GoError) (t : Sim W)
      → KeptBy (reconcile_reapply p client r e t).1 t
        × (((reconcile_reapply p client r e t).0 ≡ none) ⊎ (is_reapply_state r.next_state ≡ true))
  unfolding reconcile_reapply patch_reapply_timestamp
  reapply_outcome r e t =
      elim (Bool-cases
        (is_reapply_state r.next_state && is_zero r.requeue_after && not (is_some e))) [
          | inl h ↦ rw h (
            renew_by-Kept (reapply_period p t.object) (reapply_timestamp p t.object) t,
            inr (and_left _ (is_zero r.requeue_after) (and_left _ (not (is_some e)) h)),
          )
          | inr h ↦ rw h (IsKept-self m (stored t.world), inl refl)
        ]

  pub finish_state-Followed :
      (support : Bool) (r : Result) (e : Option GoError) (t : Sim W)
      → Followed (default_next r.next_state) t (finish_state p client support (r, e) t)
  finish_state-Followed false r e t = (IsKept-self m (stored t.world), inl refl)
  finish_state-Followed true r e t =
      let d = record r { next_state = default_next r.next_state } in
      let o = reconcile_reapply p client d e t in
      let (kept, why) = reapply_outcome d e t in after o.0 o.1 kept why
    where
      after :
          (f : Option GoError) (u : Sim W)
          → KeptBy u t
          → (f ≡ none) ⊎ (is_reapply_state (default_next r.next_state) ≡ true)
          → Followed
              (default_next r.next_state)
              t
              (reapplied (record r { next_state = default_next r.next_state }) e f u)
      after none u kept why = (kept, inl refl)
      after (some failure) u kept (inl h) = cc
      after (some failure) u kept (inr h) = (kept, inr (refl, h))

module _ {W : Type 0} (m : Machinery) (p : Parsers) (client : Client W) (handlers : StateHandler W)
    (stored : W → Object) (store : IsStore m client stored) (support : Bool)
    (ns name : String) where
  -- The state in which ReconcileState starts.
  abbrev pub entered : Sim W → Sim W
  entered s = record s { object = stored s.world; calls = fetched ns name ∷ s.calls }

  pub reconcile-entered :
      (s : Sim W)
      → has_finalizer m client stored s.world ≡ true
      → is_skipped (stored s.world) ≡ false
      → let o = reconcile_state m p client handlers support (entered s) in
        (reconcile m p client handlers support ns name s).1 ≡ (finish m client o.0 o.1).1
  unfolding reconcile
  reconcile-entered s f k = rw (store.fetch_stored ns name s.world f, k, f) refl
