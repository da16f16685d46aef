-- ===== src/State/Recorded.antt =====
-- Theorems about one reconciliation.
use mongodb_atlas_kubernetes.Base.{
  ℕ, ◌≡◌, ◌≢◌, subst, String, Bool, not, Option, none, some, List, sym, eq_iff, ◌∙◌, arith, ◌⊎◌,
  if◌then◌else◌, is_some,
}
use mongodb_atlas_kubernetes.Base.Errors.{GoError}
use mongodb_atlas_kubernetes.State.Kube.{
  Condition, Object, Machinery, status_true, status_false, IsLawful,
}
use mongodb_atlas_kubernetes.State.Results.{Result}
use mongodb_atlas_kubernetes.State.Ready.{new_ready_condition}
use mongodb_atlas_kubernetes.State.Generation.{observed_generation}
use mongodb_atlas_kubernetes.State.Dispatch.{current_state}
use mongodb_atlas_kubernetes.State.Reconciler.{
  outcome_condition, ready_conditions, state_conditions, kept_conditions,
}
use mongodb_atlas_kubernetes.State.{
  ResourceState, deleting, deletion_requested, get_state, IsCanonical, state_text, of_text,
  ensure_state, state_condition, ready_condition,
}

state_ne_ready : state_condition ≢ ready_condition
state_ne_ready = ground (arith, eq_iff state_condition ready_condition)

module _ (m : Machinery) where
  -- The state that a reconciliation works in, of an object with a deletion timestamp, is
  -- DeletionRequested, or it is Deleting and the recorded state is Deleting.
  pub current_state-deletion :
      (obj : Object) (t : ℕ)
      → obj.deletion_timestamp ≡ some t
      → (current_state m obj ≡ deletion_requested)
        ⊎ ((current_state m obj ≡ deleting) × (get_state m obj.conditions ≡ deleting))
  unfolding current_state
  current_state-deletion obj t h = ground arith

  kind-new_ready_condition :
      (s : ResourceState) (now : ℕ) → (new_ready_condition s now).kind ≡ ready_condition
  unfolding new_ready_condition
  kind-new_ready_condition s now = ground arith

  kind-outcome_condition :
      (obj : Object) (result : Result) (e : Option GoError) (now : ℕ)
      → (outcome_condition m obj result e now).kind ≡ ready_condition
  unfolding outcome_condition
  kind-outcome_condition obj result none now = kind-new_ready_condition result.next_state now
  kind-outcome_condition obj result (some e) now = kind-new_ready_condition result.next_state now

  module _ (laws : IsLawful m) where
    -- Of a condition list that was set, the condition reads back.
    find-set_eq :
        (cs : List Condition) (c : Condition) (kind : String)
        → c.kind ≡ kind
        → (d : Condition) × (m.find_status_condition (m.set_status_condition cs c) kind ≡ some d)
          × (d.reason ≡ c.reason)
          × (d.status ≡ c.status)
          × (d.message ≡ c.message)
          × (d.observed_generation ≡ c.observed_generation)
    find-set_eq cs c kind h =
        let (d, e, same) = laws.find-set_self cs c in
        (
          d,
          subst (λ k. m.find_status_condition (m.set_status_condition cs c) k ≡ some d) h e,
          same.same_reason,
          same.same_status,
          same.same_message,
          same.same_generation,
        )

    get-ensure_state :
        (cs : List Condition) (g : ℕ) (s : ResourceState) (msg : String) (b : Bool) (now : ℕ)
        → get_state m (ensure_state m cs g s msg b now) ≡ of_text (state_text s)
    unfolding get_state ensure_state
    get-ensure_state cs g s msg b now = ground (
      arith,
      find-set_eq cs
          (record {
            kind = state_condition;
            status = if b then status_true else status_false;
            observed_generation = g;
            last_transition_time = now;
            reason = state_text s;
            message = msg;
          })
          state_condition,
    )

    get_state-set_ready :
        (cs : List Condition) (c : Condition)
        → c.kind ≡ ready_condition
        → get_state m (m.set_status_condition cs c) ≡ get_state m cs
    unfolding get_state
    get_state-set_ready cs c h =
        rw (laws.find-set_ne cs c state_condition (λ e. state_ne_ready (sym e ∙ h)), get_state)

    -- If the next state is one of the package, the conditions that a reconciliation writes, with or
    -- without an error, read back as that state. The API machinery keeps its laws.
    pub get_state-conditions :
        (obj : Object) (result : Result) (e : Option GoError) (now later : ℕ)
        → IsCanonical result.next_state
        → get_state m (ready_conditions m obj result e (state_conditions m obj result e now) later)
          ≡ result.next_state
    unfolding ready_conditions state_conditions
    get_state-conditions obj result e now later h =
        get_state-set_ready (state_conditions m obj result e now)
          (outcome_condition m obj result e later) (kind-outcome_condition obj result e later)
        ∙ get-ensure_state (kept_conditions m obj.conditions)
            (observed_generation m obj obj.conditions result.next_state) result.next_state
            result.state_msg (not (is_some e)) now
        ∙ h
