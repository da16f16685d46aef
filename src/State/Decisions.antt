-- ===== src/State/Decisions.antt =====
-- What the small decisions of pkg/controller/state and pkg/result come to.
use mongodb_atlas_kubernetes.Base.{
  ℕ, ◌≡◌, ◌↔◌, ◌⊎◌, refl, String, true, Option, none, some, List, lookup, inl, inr, arith,
  Option-cases, Bool-cases,
}
use mongodb_atlas_kubernetes.Base.Int.{ℤ, pos, ◌+ℤ◌, ◌≤ℤ◌, +ℤ_parts, -ℤ_parts}
use mongodb_atlas_kubernetes.Base.Errors.{Answer, ok, err}
use mongodb_atlas_kubernetes.State.Kube.{Condition, Object, Machinery, status_true}
use mongodb_atlas_kubernetes.State.Results.{next_state, punctuate}
use mongodb_atlas_kubernetes.State.Ready.{new_ready_condition}
use mongodb_atlas_kubernetes.State.Generation.{observed_generation, keeps_generation}
use mongodb_atlas_kubernetes.State.Reapply.{
  Parsers, reapply_period, reapply_timestamp, should_reapply, minimum_period, is_due,
  due_by_timestamp, checked_period, period_annotation,
}
use mongodb_atlas_kubernetes.State.{
  ResourceState, initial, import_requested, imported, creating, created, updating, updated,
  deletion_requested, deleting, deleted, get_state, state_condition,
}

-- The steps of an operation that Atlas is still carrying out, or has just finished.
pub data Continues : ResourceState → ResourceState → Type 0 where
  polls_update : Continues updating updating
  ends_update : Continues updating updated
  polls_creation : Continues creating creating
  ends_creation : Continues creating created
  starts_deletion : Continues deletion_requested deleting
  polls_deletion : Continues deleting deleting
  ends_deletion : Continues deleting deleted

ruleset continuations = (
  polls_update, ends_update, polls_creation, ends_creation, starts_deletion, polls_deletion,
  ends_deletion,
)

Continues-of_keeps : (s t : ResourceState) → keeps_generation s t ≡ true → Continues s t
unfolding keeps_generation
Continues-of_keeps updating t h = grind (arith, continuations)
Continues-of_keeps creating t h = grind (arith, continuations)
Continues-of_keeps deletion_requested t h = grind (arith, continuations)
Continues-of_keeps deleting t h = grind (arith, continuations)
Continues-of_keeps s t h = cc

keeps_of_Continues : {s t : ResourceState} → Continues s t → keeps_generation s t ≡ true
unfolding keeps_generation
keeps_of_Continues polls_update = refl
keeps_of_Continues ends_update = refl
keeps_of_Continues polls_creation = refl
keeps_of_Continues ends_creation = refl
keeps_of_Continues starts_deletion = refl
keeps_of_Continues polls_deletion = refl
keeps_of_Continues ends_deletion = refl

module _ (m : Machinery) (obj : Object) (prev : List Condition) (next : ResourceState) where
  -- Either there is a "State" condition and the step from the recorded state to the next one
  -- continues an operation, and the observed generation is the one of that condition; or there is
  -- no such condition or no such step, and it is the generation of the object.
  pub observed_generation_cases :
      ((c : Condition) × (m.find_status_condition prev state_condition ≡ some c)
        × Continues (get_state m prev) next
        × (observed_generation m obj prev next ≡ c.observed_generation))
      ⊎ (((m.find_status_condition prev state_condition ≡ none)
            ⊎ (¬ Continues (get_state m prev) next))
          × (observed_generation m obj prev next ≡ obj.generation))
  unfolding observed_generation
  observed_generation_cases = elim (Option-cases (m.find_status_condition prev state_condition)) [
    | inl e ↦ inr (inl e, rw (e, observed_generation))
    | inr (c, e) ↦ elim (Bool-cases (keeps_generation (get_state m prev) next)) [
      | inl k ↦ inl (c, e, Continues-of_keeps _ _ k, rw (e, observed_generation) (rw k))
      | inr k ↦ inr (inr (λ r. cc (k, keeps_of_Continues r)), rw (e, observed_generation) (rw k))
    ]
  ]

abbrev pub IsSettled : ResourceState → Type 0
IsSettled s = (s ≡ imported) ⊎ ((s ≡ created) ⊎ (s ≡ updated))

-- The "Ready" condition of a state is true exactly when the state is Imported, Created or Updated.
pub ready_iff_IsSettled :
    (s : ResourceState) (now : ℕ) → ((new_ready_condition s now).status ≡ status_true) ↔ IsSettled s
unfolding new_ready_condition
ready_iff_IsSettled s now = ((λ h. ground arith), (λ h. ground arith))

module _ (p : Parsers) (obj : Object) (now : ℕ) where
  checked_bound :
      (a : Answer ℤ) (period : ℤ) → checked_period a ≡ ok (some period) → minimum_period ≤ℤ period
  checked_bound (ok q) period h = ground arith
  checked_bound (err e) period h = cc

  period_bound : (period : ℤ) → reapply_period p obj ≡ ok (some period) → minimum_period ≤ℤ period
  unfolding reapply_period
  period_bound period h = elim (Option-cases (lookup period_annotation obj.annotations)) [
    | inl e ↦ cc (rw (e, reapply_period) at h)
    | inr (t, e) ↦ checked_bound (p.parse_duration t) period (rw (e, reapply_period) at h)
  ]

  is_due_le : (t q : ℤ) → is_due t q now ≡ true → t +ℤ q ≤ℤ pos now
  is_due_le t q h = ground (arith, +ℤ_parts t q, -ℤ_parts (t +ℤ q) (pos now))

  -- only if
  due_parts :
      (a b : Answer (Option ℤ))
      → due_by_timestamp a b now ≡ ok true
      → (t : ℤ) × (q : ℤ) × (a ≡ ok (some t)) × (b ≡ ok (some q)) × (is_due t q now ≡ true)
  due_parts (ok (some t)) (ok (some q)) h = (t, q, refl, refl, ground arith)
  due_parts (ok (some t)) (ok none) h = cc
  due_parts (ok (some t)) (err e) h = cc
  due_parts (ok none) b h = cc
  due_parts (err e) b h = cc

  -- If an object is to be reapplied now, it has a timestamp and a period that parse, the period is
  -- at least 60 seconds, and the time of both together is not after now.
  pub should_reapply_only :
      should_reapply p obj now ≡ ok true
      → (t : ℤ) × (q : ℤ) × (reapply_timestamp p obj ≡ ok (some t))
        × (reapply_period p obj ≡ ok (some q))
        × (minimum_period ≤ℤ q)
        × (t +ℤ q ≤ℤ pos now)
  unfolding should_reapply
  should_reapply_only h =
      let (t, q, ht, hq, due) = due_parts (reapply_timestamp p obj) (reapply_period p obj) h in
      (t, q, ht, hq, period_bound q hq, is_due_le t q due)

-- If the result of a state has no error, it keeps that state, ends the message with a full stop,
-- and asks for no wait exactly when the state is Imported, Created, Updated, Initial,
-- ImportRequested or Deleted.
pub next_state_polls :
    (s : ResourceState) (msg : String)
    → ((next_state s msg).1 ≡ none)
    → ((next_state s msg).0.next_state ≡ s)
      × ((next_state s msg).0.state_msg ≡ punctuate msg)
      × (((next_state s msg).0.requeue_after ≡ pos 0)
          ↔ (IsSettled s ⊎ ((s ≡ initial) ⊎ ((s ≡ import_requested) ⊎ (s ≡ deleted)))))
unfolding next_state
next_state_polls s msg h = (ground arith, ground arith, ((λ k. ground arith), (λ k. ground arith)))
