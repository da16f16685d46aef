-- ===== src/State/Concrete.antt =====
-- An implementation of the apimachinery functions that has the documented laws.
use mongodb_atlas_kubernetes.Base.{
  ◌≡◌, ◌≢◌, refl, String, Bool, true, false, Option, none, some, List, [], ◌∷◌, ◌++◌, if◌then◌else◌,
  str_eq, eq_iff, elem, arith, ◌||◌, Bool-cases, inl, inr,
}
use mongodb_atlas_kubernetes.State.Kube.{
  Condition, ConditionStatus, status_true, status_false, status_unknown, Machinery, SameCondition,
  IsLawful,
}

unfoldable pub find : List Condition → String → Option Condition
find [] kind = none
find (c ∷ cs) kind = if str_eq c.kind kind then some c else find cs kind

abbrev same_status : ConditionStatus → ConditionStatus → Bool
same_status status_true status_true = true
same_status status_false status_false = true
same_status status_unknown status_unknown = true
same_status _ _ = false

-- The time of the last transition stays while the status is the same.
unfoldable pub merge : Condition → Condition → Condition
merge old new =
    if same_status old.status new.status
    then record new { last_transition_time = old.last_transition_time }
    else new

unfoldable pub set : List Condition → Condition → List Condition
unfolding merge
set [] new = new ∷ []
set (c ∷ cs) new = if str_eq c.kind new.kind then merge c new ∷ cs else c ∷ set cs new

unfoldable pub add : List String → String → List String
add fs f = if elem f fs then fs else fs ++ f ∷ []

unfoldable pub remove : List String → String → List String
remove [] f = []
remove (g ∷ fs) f = if str_eq g f then remove fs f else g ∷ remove fs f

abbrev pub contains : List String → String → Bool
contains fs f = elem f fs

abbrev pub machinery : Machinery
machinery = record {
  find_status_condition = find;
  set_status_condition = set;
  contains_finalizer = contains;
  add_finalizer = add;
  remove_finalizer = remove;
}

merge_same : (old new : Condition) → SameCondition (merge old new) new
unfolding merge
merge_same old new = ground arith

kind-merge : (old new : Condition) → (merge old new).kind ≡ new.kind
unfolding merge
kind-merge old new = ground arith

find-set_self :
    (cs : List Condition) (c : Condition)
    → (d : Condition) × (find (set cs c) c.kind ≡ some d) × SameCondition d c
unfolding find set
find-set_self [] c = (c, ground (arith, eq_iff c.kind c.kind), ground arith)
find-set_self (x ∷ cs) c = elim (Bool-cases (str_eq x.kind c.kind)) [
  | inl e ↦ (merge x c, ground (arith, eq_iff c.kind c.kind, kind-merge x c), merge_same x c)
  | inr e ↦ let (d, h, same) = find-set_self cs c in (d, ground arith, same)
]

find-set_ne :
    (cs : List Condition) (c : Condition) (kind : String)
    → c.kind ≢ kind
    → find (set cs c) kind ≡ find cs kind
unfolding find set
find-set_ne [] c kind h = ground (arith, eq_iff c.kind kind)
find-set_ne (x ∷ cs) c kind h = ground (
  arith,
  eq_iff c.kind kind,
  eq_iff x.kind c.kind,
  eq_iff x.kind kind,
  kind-merge x c,
  find-set_ne cs c kind h,
)

elem-append : (fs gs : List String) (f : String) → elem f (fs ++ gs) ≡ (elem f fs || elem f gs)
elem-append [] gs f = refl
elem-append (x ∷ fs) gs f = ground (arith, elem-append fs gs f)

contains-add_self : (fs : List String) (f : String) → elem f (add fs f) ≡ true
unfolding add
contains-add_self fs f = ground (arith, elem-append fs (f ∷ []) f, eq_iff f f)

contains-add_mono : (fs : List String) (f g : String) → elem g fs ≡ true → elem g (add fs f) ≡ true
unfolding add
contains-add_mono fs f g h = ground (arith, elem-append fs (f ∷ []) g)

contains-remove_self : (fs : List String) (f : String) → elem f (remove fs f) ≢ true
unfolding remove
contains-remove_self [] f = λ h. cc
contains-remove_self (x ∷ fs) f = λ h. ground (arith, contains-remove_self fs f)

contains-remove_ne : (fs : List String) (f g : String) → f ≢ g → elem g (remove fs f) ≡ elem g fs
unfolding remove
contains-remove_ne [] f g h = refl
contains-remove_ne (x ∷ fs) f g h =
    ground (arith, contains-remove_ne fs f g h, eq_iff x f, eq_iff x g, eq_iff f g)

pub machinery-IsLawful : IsLawful machinery
machinery-IsLawful = record {
  find-set_self = find-set_self;
  find-set_ne = find-set_ne;
  contains-add_self = contains-add_self;
  contains-add_mono = contains-add_mono;
  contains-remove_self = contains-remove_self;
  contains-remove_ne = contains-remove_ne;
}
