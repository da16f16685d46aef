-- ===== src/State/Life.antt =====
-- The state machine that the handlers of a resource are to follow.
use mongodb_atlas_kubernetes.Base.{
  ◌≡◌, ◌⊎◌, inl, inr, refl, subst, Bool, true, false, some, arith, Bool-cases, is_some,
}
use mongodb_atlas_kubernetes.State.Kube.{Object}
use mongodb_atlas_kubernetes.State.Dispatch.{
  StateHandler, Handle, handler_for, with_import, with_deletion, has_external, is_reapply_state,
}
use mongodb_atlas_kubernetes.State.Reconciler.{is_deleted}
use mongodb_atlas_kubernetes.State.{
  ResourceState, initial, import_requested, imported, creating, created, updating, updated,
  deletion_requested, deleting, deleted, other,
}

-- What becomes of a resource: it is there in a recorded state, or its finalizer is gone.
pub data Life : Type 0 where
  alive : ResourceState → Life
  gone : Life

-- The state that a reconciliation works in, by the recorded one and the object's annotations and
-- deletion timestamp.
abbrev pub effective : Object → ResourceState → ResourceState
effective o s = with_deletion (with_import s o) o

-- A move of the machine, by the moves that the handlers may make.
pub data Moves (allows : ResourceState → ResourceState → Type 0) (o : Object)
    : Life → Life → Type 0 where
  moved :
      (s s' : ResourceState)
      → allows (effective o s) s'
      → is_deleted s' ≡ false
      → Moves allows o (alive s) (alive s')
  ended : (s : ResourceState) → allows (effective o s) deleted → Moves allows o (alive s) gone
  -- A reapply that fails after the move loses the state.
  lost :
      (s s' : ResourceState)
      → allows (effective o s) s'
      → is_reapply_state s' ≡ true
      → Moves allows o (alive s) (alive (other ""))

-- Any number of moves.
pub data Reach (allows : ResourceState → ResourceState → Type 0) (o : Object)
    : Life → Life → Type 0 where
  here : (l : Life) → Reach allows o l l
  then_move : (l l' l'' : Life) → Moves allows o l l' → Reach allows o l' l'' → Reach allows o l l''

-- The states that have a handler.
abbrev pub is_handled : ResourceState → Bool
is_handled deleted = false
is_handled (other t) = false
is_handled _ = true

module _ {W : Type 0} (handlers : StateHandler W) where
  pub handler_of :
      (s : ResourceState) → is_handled s ≡ true → (h : Handle W) × (handler_for handlers s ≡ some h)
  unfolding handler_for
  handler_of initial e = (handlers.handle_initial, refl)
  handler_of import_requested e = (handlers.handle_import_requested, refl)
  handler_of imported e = (handlers.handle_imported, refl)
  handler_of creating e = (handlers.handle_creating, refl)
  handler_of created e = (handlers.handle_created, refl)
  handler_of updating e = (handlers.handle_updating, refl)
  handler_of updated e = (handlers.handle_updated, refl)
  handler_of deletion_requested e = (handlers.handle_deletion_requested, refl)
  handler_of deleting e = (handlers.handle_deleting, refl)
  handler_of deleted e = cc
  handler_of (other t) e = cc

-- The states that are recorded: those with a handler, and the one that is lost.
abbrev pub IsKnown : ResourceState → Type 0
IsKnown s = (is_handled s ≡ true) ⊎ (s ≡ other "")

effective-handled :
    (o : Object) (s : ResourceState) → is_handled s ≡ true → is_handled (effective o s) ≡ true
effective-handled o s e = ground (arith, e)

pub effective-IsKnown :
    (o : Object) (s : ResourceState)
    → IsKnown s
    → (is_handled (effective o s) ≡ true) ⊎ ((s ≡ other "") × (effective o s ≡ other ""))
effective-IsKnown o s (inl h) = inl (effective-handled o s h)
effective-IsKnown o s (inr h) = rw h (elim (Bool-cases (is_some o.deletion_timestamp)) [
  | inl e ↦ rw e (inl refl)
  | inr e ↦ rw e (inr (refl, refl))
])

-- Objects that differ in nothing that the choice of the state reads but the conditions.
abbrev pub SameFate : Object → Object → Type 0
SameFate a b =
    (has_external a.annotations ≡ has_external b.annotations)
    × (a.deletion_timestamp ≡ b.deletion_timestamp)

effective_same : (a b : Object) (s : ResourceState) → SameFate a b → effective a s ≡ effective b s
effective_same a b s (e, d) = rw (e, d) refl

pub Moves-same :
    (allows : ResourceState → ResourceState → Type 0) (a b : Object) (l l' : Life)
    → SameFate a b
    → Moves allows a l l'
    → Moves allows b l l'
Moves-same allows a b _ _ f (moved s s' h d) =
    moved s s' (subst (λ x. allows x s') (effective_same a b s f) h) d
Moves-same allows a b _ _ f (ended s h) =
    ended s (subst (λ x. allows x deleted) (effective_same a b s f) h)
Moves-same allows a b _ _ f (lost s s' h r) =
    lost s s' (subst (λ x. allows x s') (effective_same a b s f) h) r

pub Reach-same :
    (allows : ResourceState → ResourceState → Type 0) (a b : Object) (l l' : Life)
    → SameFate a b
    → Reach allows a l l'
    → Reach allows b l l'
Reach-same allows a b _ _ f (here l) = here l
Reach-same allows a b _ _ f (then_move l l' l'' h rest) =
    then_move l l' l'' (Moves-same allows a b l l' f h) (Reach-same allows a b l' l'' f rest)
