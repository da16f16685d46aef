-- ===== src/Workflow/Storing.antt =====
-- What the condition list, the results and the context come to.
use mongodb_atlas_kubernetes.Base.{
  ℕ, ◌≡◌, refl, String, true, false, Option, none, some, List, [], ◌∷◌, ◌++◌, if◌then◌else◌, str_eq,
  eq_iff, arith, Bool-cases, inl, inr, ◌||◌,
}
use mongodb_atlas_kubernetes.Base.Errors.{GoError, error_text}
use mongodb_atlas_kubernetes.Base.Return.{done, failed}
use mongodb_atlas_kubernetes.Workflow.Conditions.{
  Condition, status_false, same, ensure_condition_exists, remove_condition_if_exists,
  replace_or_append, get_condition, has_condition_type, init_condition,
}
use mongodb_atlas_kubernetes.Workflow.ErrorQueue.{ErrorQueue}
use mongodb_atlas_kubernetes.Workflow.Results.{terminate, without_retry, reconcile_result}
use mongodb_atlas_kubernetes.Workflow.Context.{Context, set_condition_from_result, condition}

-- A condition stored over the one of its kind, or over none.
abbrev pub stored : Condition → Option Condition → ℕ → Condition
stored new none now = record new { last_transition_time = now }
stored new (some old) now =
    if same old.status new.status
    then record new { last_transition_time = old.last_transition_time }
    else record new { last_transition_time = now }

-- A condition that is stored reads back, with the time of the stored one of its kind if the status
-- is the same and with the time of the clock otherwise; the condition of any other kind reads as
-- before.
pub get_condition-ensure :
    (new : Condition) (cs : List Condition) (now : ℕ) (kind : String)
    → get_condition kind (ensure_condition_exists new cs now) ≡ (
        if str_eq new.kind kind
        then some (stored new (get_condition new.kind cs) now)
        else get_condition kind cs)
unfolding get_condition ensure_condition_exists
get_condition-ensure new [] now kind = refl
get_condition-ensure new (c ∷ cs) now kind = ground (
  arith,
  eq_iff c.kind new.kind,
  eq_iff c.kind kind,
  eq_iff new.kind kind,
  get_condition-ensure new cs now kind,
)

-- After the conditions of a kind are removed, none of that kind reads back, and the condition of
-- any other kind reads as before.
pub get_condition-remove :
    (kind : String) (cs : List Condition) (k : String)
    → get_condition k (remove_condition_if_exists kind cs)
      ≡ (if str_eq kind k then none else get_condition k cs)
unfolding get_condition remove_condition_if_exists
get_condition-remove kind [] k = ground arith
get_condition-remove kind (c ∷ cs) k =
    ground
      (arith, eq_iff c.kind kind, eq_iff c.kind k, eq_iff kind k, get_condition-remove kind cs k)

-- No two conditions of one kind.
abbrev pub IsUnique : List Condition → Type 0
IsUnique [] = Unit {0}
IsUnique (c ∷ cs) = (has_condition_type c.kind cs ≡ false) × IsUnique cs

has-replace :
    (new : Condition) (cs : List Condition) (kind : String)
    → has_condition_type kind (replace_or_append new cs)
      ≡ (str_eq new.kind kind || has_condition_type kind cs)
unfolding has_condition_type replace_or_append
has-replace new [] kind = refl
has-replace new (c ∷ cs) kind = ground (
  arith,
  eq_iff c.kind new.kind,
  eq_iff c.kind kind,
  eq_iff new.kind kind,
  has-replace new cs kind,
)

replace-IsUnique :
    (new : Condition) (cs : List Condition) → IsUnique cs → IsUnique (replace_or_append new cs)
unfolding has_condition_type replace_or_append
replace-IsUnique new [] u = (refl, tt)
replace-IsUnique new (c ∷ cs) u = elim (Bool-cases (str_eq c.kind new.kind)) [
  | inl e ↦ ground (arith, eq_iff c.kind new.kind)
  | inr e ↦
      rw (e, replace_or_append)
        (
          ground (arith, has-replace new cs c.kind, eq_iff c.kind new.kind, eq_iff new.kind c.kind),
          replace-IsUnique new cs u.1,
        )
]

has-remove :
    (kind : String) (cs : List Condition) (k : String)
    → has_condition_type k cs ≡ false
    → has_condition_type k (remove_condition_if_exists kind cs) ≡ false
unfolding has_condition_type remove_condition_if_exists
has-remove kind [] k h = refl
has-remove kind (c ∷ cs) k h = ground (arith, has-remove kind cs k)

remove-IsUnique :
    (kind : String) (cs : List Condition)
    → IsUnique cs
    → IsUnique (remove_condition_if_exists kind cs)
unfolding has_condition_type remove_condition_if_exists
remove-IsUnique kind [] u = tt
remove-IsUnique kind (c ∷ cs) u = elim (Bool-cases (str_eq c.kind kind)) [
  | inl e ↦ rw (e, remove_condition_if_exists) (remove-IsUnique kind cs u.1)
  | inr e ↦
      rw (e, remove_condition_if_exists)
        (has-remove kind cs c.kind u.0, remove-IsUnique kind cs u.1)
]

-- If no two conditions of a list are of one kind, this is so after a condition is stored, after a
-- kind is removed and after a default condition is set.
pub conditions-IsUnique :
    (new : Condition) (kind : String) (cs : List Condition) (now : ℕ)
    → IsUnique cs
    → IsUnique (ensure_condition_exists new cs now)
      × IsUnique (remove_condition_if_exists kind cs)
      × IsUnique (init_condition new cs now)
unfolding ensure_condition_exists init_condition
conditions-IsUnique new kind cs now u = (
  replace-IsUnique (record new { last_transition_time = now }) cs u,
  remove-IsUnique kind cs u,
  elim (Bool-cases (has_condition_type new.kind cs)) [
    | inl e ↦ rw (e, init_condition) u
    | inr e ↦
        rw (e, init_condition) (replace-IsUnique (record new { last_transition_time = now }) cs u)
  ],
)

-- A termination whose result is set as a condition: the condition of that kind is false, with the
-- reason and the text of the error; a warning is due; a dry run's queue gets the error at its end
-- if it is active; the reconciliation fails with the error, and without its retry it is done.
pub terminate_outcome :
    {O : Type 0} (kind reason : String) (e : GoError) (q : ErrorQueue) (now : ℕ) (c : Context O)
    → let (r, q') = terminate reason e q in
      let c' = set_condition_from_result kind r now c in
      (get_condition kind c'.status.conditions
        ≡ some (
            stored
              (condition kind status_false reason (error_text e))
              (get_condition kind c.status.conditions)
              now))
      × (c'.last_condition_warn ≡ true)
      × (q'.errs ≡ (if q.active then q.errs ++ e ∷ [] else q.errs))
      × (reconcile_result r ≡ failed e)
      × (reconcile_result (without_retry r) ≡ done)
unfolding terminate set_condition_from_result reconcile_result without_retry
terminate_outcome kind reason e q now c = (
  ground (
    arith,
    get_condition-ensure (condition kind status_false reason (error_text e)) c.status.conditions now
        kind,
    eq_iff kind kind,
  ),
  refl,
  ground arith,
  refl,
  refl,
)
