-- ===== src/State/Lives.antt =====
-- That reconciliations, one after the other, follow the state machine of the handlers.
use mongodb_atlas_kubernetes.Base.{
  ℕ, zero, suc, ◌≡◌, ◌⊎◌, inl, inr, refl, ap, sym, ◌∙◌, subst, String, Bool, true, false, Option,
  some, [], ◌∷◌, arith, concat, if◌then◌else◌,
}
use mongodb_atlas_kubernetes.Base.Errors.{GoError, plain}
use mongodb_atlas_kubernetes.State.Kube.{Object, Machinery, IsLawful}
use mongodb_atlas_kubernetes.State.Finalizers.{has_all}
use mongodb_atlas_kubernetes.State.Results.{Result, empty_result}
use mongodb_atlas_kubernetes.State.Reapply.{Parsers}
use mongodb_atlas_kubernetes.State.Dispatch.{
  StateHandler, Handle, current_state, handler_for, default_next, reconcile_state, finish_state,
  dispatch, is_reapply_state, has_external,
}
use mongodb_atlas_kubernetes.State.Sim.{Client, Sim, log, handled}
use mongodb_atlas_kubernetes.State.Runs.{
  IsKept, IsKept-self, IsKept-then, has_finalizer, IsStore, finish-stored, finish-gone, Followed,
  finish_state-Followed, entered, reconcile-entered,
}
use mongodb_atlas_kubernetes.State.Reconciler.{
  reconcile, is_skipped, finalizer_name, is_deleted, finish,
}
use mongodb_atlas_kubernetes.State.{ResourceState, deleted, other, get_state, IsCanonical, of_text}
use mongodb_atlas_kubernetes.State.Life.{
  Life, alive, gone, Moves, moved, ended, lost, Reach, here, then_move, is_handled, handler_of,
  IsKnown, effective-IsKnown, SameFate, Reach-same,
}

module _ {W : Type 0} (m : Machinery) (laws : IsLawful m) (p : Parsers) (client : Client W)
    (handlers : StateHandler W) (stored : W → Object) (store : IsStore m client stored)
    (support : Bool) (ns name : String) (allows : ResourceState → ResourceState → Type 0) where
  -- The handlers keep of the stored object what the machine reads, and may change the rest; and they
  -- make only the moves that are allowed, to states with a handler or to Deleted.
  pub record Follows : Type 0 where
    pub keeps :
        (s : ResourceState) (h : Handle W) (o : Object) (w : W)
        → handler_for handlers s ≡ some h
        → IsKept m (stored (h o w).world) (stored w)
    pub allowed :
        (s : ResourceState) (h : Handle W) (o : Object) (w : W)
        → handler_for handlers s ≡ some h
        → let n = default_next (h o w).result.next_state in
          allows s n × IsCanonical n × ((n ≡ deleted) ⊎ (is_handled n ≡ true))

  abbrev pub recorded : W → ResourceState
  recorded w = get_state m (stored w).conditions

  -- What a reconciliation is for the machine.
  abbrev pub Lives : Sim W → Type 0
  Lives s =
      (has_finalizer m client stored s.world ≡ true)
      × (is_skipped (stored s.world) ≡ false)
      × IsKnown (recorded s.world)

  abbrev pub next_sim : Sim W → Sim W
  next_sim s = (reconcile m p client handlers support ns name s).1

  abbrev pub Outcome : Sim W → Sim W → Type 0
  Outcome s t =
      ((Moves allows (stored s.world) (alive (recorded s.world)) (alive (recorded t.world))
          ⊎ (recorded t.world ≡ recorded s.world))
        × Lives t
        × SameFate (stored t.world) (stored s.world))
      ⊎ (Moves allows (stored s.world) (alive (recorded s.world)) gone
          × (has_finalizer m client stored t.world ≡ false))

  handled_not_deleted : (s : ResourceState) → is_handled s ≡ true → is_deleted s ≡ false
  handled_not_deleted s e = ground (arith, e)

  -- The outcome of a state other than Deleted is written to the object that `u` has kept.
  written :
      (s u : Sim W) (r : Result) (e : Option GoError)
      → Lives s
      → IsKept m (stored u.world) (stored s.world)
      → is_deleted r.next_state ≡ false
      → IsCanonical r.next_state
      → IsKnown r.next_state
      → let t = (finish m client (r, e) u).1 in
        (recorded t.world ≡ r.next_state) × Lives t × SameFate (stored t.world) (stored s.world)
  unfolding is_skipped
  written s u r e (f, k, known) kept d c n =
      let (cs, read, now) = finish-stored m laws p client stored store r e u d c in
      let t = (finish m client (r, e) u).1 in
      let reads = ap {A = Object} {B = ResourceState} (λ x. get_state m x.conditions) now ∙ read in
      (
        reads,
        (
          ap {A = Object} {B = Bool} (λ x. has_all m (finalizer_name ∷ []) x.finalizers) now
              ∙ kept.same_finalizer
              ∙ f,
          ap {A = Object} {B = Bool} is_skipped now ∙ kept.same_skip ∙ k,
          subst IsKnown (sym reads) n,
        ),
        (
          ap {A = Object} {B = Bool} (λ x. has_external x.annotations) now ∙ kept.same_external,
          ap {A = Object} {B = Option ℕ} (λ x. x.deletion_timestamp) now ∙ kept.same_deletion,
        ),
      )

  module _ (follows : Follows) where
    handled_once :
        (s : Sim W) (h : Handle W)
        → Lives s
        → handler_for handlers (current_state m (stored s.world)) ≡ some h
        → Outcome s (next_sim s)
    unfolding reconcile_state current_state of_text
    handled_once s h (f, k, known) c =
        subst (Outcome s) (sym reached) (concluded (followed.1) (follows.allowed st h o s.world c))
      where
        o : Object
        o = stored s.world

        st : ResourceState
        st = current_state m o

        next : ResourceState
        next = default_next (h o s.world).result.next_state

        worked : Sim W
        worked =
            let done = h o s.world in
            log (handled st) (record (entered m p client handlers stored store support ns name s) {
              object = done.object;
              world = done.world;
            })

        x : (Result × Option GoError) × Sim W
        x = let done = h o s.world in finish_state p client support (done.result, done.error) worked

        reached : next_sim s ≡ (finish m client x.0 x.1).1
        reached =
            reconcile-entered m p client handlers stored store support ns name s f k
            ∙ ap
                (λ g.
                  let y =
                    dispatch p client support st g
                      (entered m p client handlers stored store support ns name s) in
                  (finish m client y.0 y.1).1)
                c

        followed : Followed m laws p client stored store next worked x
        followed =
            let done = h o s.world in
            finish_state-Followed m laws p client stored store support done.result done.error worked

        kept : IsKept m (stored x.1.world) (stored s.world)
        kept =
            IsKept-then m (stored x.1.world) (stored (h o s.world).world) (stored s.world)
              followed.0 (follows.keeps st h o s.world c)

        writes :
            is_deleted x.0.0.next_state ≡ false
            → IsCanonical x.0.0.next_state
            → IsKnown x.0.0.next_state
            → let t = (finish m client x.0 x.1).1 in
              (recorded t.world ≡ x.0.0.next_state)
              × Lives t
              × SameFate (stored t.world) (stored s.world)
        writes = written s x.1 x.0.0 x.0.1 (f, k, known) kept

        concluded :
            (x.0.0.next_state ≡ next)
              ⊎ ((x.0.0.next_state ≡ other "") × (is_reapply_state next ≡ true))
            → allows st next × IsCanonical next × ((next ≡ deleted) ⊎ (is_handled next ≡ true))
            → Outcome s ((finish m client x.0 x.1).1)
        concluded (inl e) (allow, canonical, inl n) = inr (
          ended (recorded s.world) (subst (allows st) n allow),
          finish-gone m laws p client stored store x.0.0 x.0.1 x.1 (ap is_deleted (e ∙ n)),
        )
        concluded (inl e) (allow, canonical, inr n) =
            let not_deleted = handled_not_deleted next n in
            let (reads, lives, same) =
              writes (ap is_deleted e ∙ not_deleted) (subst IsCanonical (sym e) canonical)
                (subst IsKnown (sym e) (inl n)) in
            inl (
              inl (
                  subst (λ y. Moves allows o (alive (recorded s.world)) (alive y)) (sym (reads ∙ e))
                    (moved (recorded s.world) next allow not_deleted)),
              lives,
              same,
            )
        concluded (inr (e, again)) (allow, canonical, fate) =
            let (reads, lives, same) =
              writes (ap is_deleted e) (subst IsCanonical (sym e) refl) (inr e) in
            inl (
              inl (
                  subst (λ y. Moves allows o (alive (recorded s.world)) (alive y)) (sym (reads ∙ e))
                    (lost (recorded s.world) next allow again)),
              lives,
              same,
            )

    stuck_once :
        (s : Sim W)
        → Lives s
        → recorded s.world ≡ other ""
        → current_state m (stored s.world) ≡ other ""
        → Outcome s (next_sim s)
    unfolding reconcile_state of_text handler_for
    stuck_once s (f, k, known) r c =
        let e = entered m p client handlers stored store support ns name s in
        let failure = some (plain (concat "unsupported state " "")) in
        let (reads, lives, same) =
          written s e empty_result failure (f, k, known) (IsKept-self m (stored s.world)) refl refl
            (inr refl) in
        subst (Outcome s)
          (sym (
            reconcile-entered m p client handlers stored store support ns name s f k
            ∙ ap
                (λ g.
                  let y = dispatch p client support g (handler_for handlers g) e in
                  (finish m client y.0 y.1).1)
                c))
          (inl (inr (reads ∙ sym r), lives, same))

    pub moves_once : (s : Sim W) → Lives s → Outcome s (next_sim s)
    unfolding current_state
    moves_once s (f, k, known) =
        let o = stored s.world in
        elim (effective-IsKnown o (recorded s.world) known) [
          | inl e ↦
              let (h, c) = handler_of handlers (current_state m o) e in
              handled_once s h (f, k, known) c
          | inr (r, c) ↦ stuck_once s (f, k, known) r c
        ]

  -- Reconciliations until the finalizer is gone, n at most.
  abbrev pub run : ℕ → Sim W → Sim W
  run zero s = s
  run (suc n) s =
      let rest = run n (next_sim s) in if has_finalizer m client stored s.world then rest else s

  abbrev pub life : W → Life
  life w = if has_finalizer m client stored w then alive (recorded w) else gone

  life_alive : (w : W) → has_finalizer m client stored w ≡ true → life w ≡ alive (recorded w)
  life_alive w e = rw e refl

  life_gone : (w : W) → has_finalizer m client stored w ≡ false → life w ≡ gone
  life_gone w e = rw e refl

  pub run_gone : (n : ℕ) (s : Sim W) → has_finalizer m client stored s.world ≡ false → run n s ≡ s
  run_gone zero s e = refl
  run_gone (suc n) s e = rw e refl

  pub run_alive :
      (n : ℕ) (s : Sim W)
      → has_finalizer m client stored s.world ≡ true
      → run (suc n) s ≡ run n (next_sim s)
  run_alive n s e = rw e refl

  -- With or without support for reapplying: if the handlers keep of the stored object its
  -- finalizers, its conditions, its deletion timestamp and the annotations that the reconciler
  -- reads, and make only the moves that are allowed, each to Deleted or to a state that has a
  -- handler, then any number of reconciliations of an object that the cluster stores, with the
  -- finalizer, not skipped and recorded in a state that has a handler or in the empty state, refines
  -- the state machine: what becomes of the object is reached by allowed moves and by the failure of
  -- a reapply after one, which leaves the empty state. The API machinery keeps its laws, and the
  -- cluster takes what it is sent.
  pub run-refines :
      (follows : Follows) (n : ℕ) (s : Sim W)
      → Lives s
      → Reach allows (stored s.world) (life s.world) (life (run n s).world)
  run-refines follows zero s l = here (life s.world)
  run-refines follows (suc n) s l =
      let o = stored s.world in
      let t = next_sim s in
      let rest = run-refines follows n t in
      subst (λ x. Reach allows o x (life (run (suc n) s).world)) (sym (life_alive s.world l.0))
        (subst (λ x. Reach allows o (alive (recorded s.world)) (life x.world))
          (sym (run_alive n s l.0))
          (elim (moves_once follows s l) [
            | inl (move, lives, same) ↦ further move (
                Reach-same allows (stored t.world) o _ _ same (
                  subst (λ x. Reach allows (stored t.world) x (life (run n t).world))
                    (life_alive t.world lives.0) (rest lives)))
            | inr (mv, e) ↦
                subst (λ x. Reach allows o (alive (recorded s.world)) (life x.world))
                  (sym (run_gone n t e))
                  (subst (Reach allows o (alive (recorded s.world))) (sym (life_gone t.world e))
                    (then_move (alive (recorded s.world)) gone gone mv (here gone)))
          ]))
    where
      further :
          Moves allows
              (stored s.world)
              (alive (recorded s.world))
              (alive (recorded (next_sim s).world))
            ⊎ (recorded (next_sim s).world ≡ recorded s.world)
          → Reach allows
              (stored s.world)
              (alive (recorded (next_sim s).world))
              (life (run n (next_sim s)).world)
          → Reach allows
              (stored s.world)
              (alive (recorded s.world))
              (life (run n (next_sim s)).world)
      further (inl mv) rest = then_move _ _ _ mv rest
      further (inr e) rest =
          subst (λ x. Reach allows (stored s.world) (alive x) (life (run n (next_sim s)).world)) e
            rest
