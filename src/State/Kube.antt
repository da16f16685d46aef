-- ===== src/State/Kube.antt =====
-- The Kubernetes types that pkg/state and pkg/controller/state read, and the apimachinery and
-- controller-runtime functions on them, as a parameter with the documented laws.
use mongodb_atlas_kubernetes.Base.{ℕ, ◌≡◌, ◌≢◌, String, Bool, true, Option, some, List}

pub data ConditionStatus : Type 0 where
  status_true status_false status_unknown : ConditionStatus

-- metav1.Condition; `kind` is its field Type.
pub record Condition : Type 0 where
  pub kind : String
  pub status : ConditionStatus
  pub observed_generation : ℕ
  pub last_transition_time : ℕ
  pub reason : String
  pub message : String

-- The parts of a client.Object with conditions that are read.
pub record Object : Type 0 where
  pub name : String
  pub namespace : String
  pub generation : ℕ
  pub annotations : List (String × String)
  pub finalizers : List String
  pub deletion_timestamp : Option ℕ
  pub conditions : List Condition

-- meta.FindStatusCondition, meta.SetStatusCondition, and controllerutil's functions on finalizers.
pub record Machinery : Type 0 where
  pub find_status_condition : List Condition → String → Option Condition
  pub set_status_condition : List Condition → Condition → List Condition
  pub contains_finalizer : List String → String → Bool
  pub add_finalizer : List String → String → List String
  pub remove_finalizer : List String → String → List String

-- All but the time, which is kept while the status is the same.
pub record SameCondition (c d : Condition) : Type 0 where
  pub same_kind : c.kind ≡ d.kind
  pub same_status : c.status ≡ d.status
  pub same_generation : c.observed_generation ≡ d.observed_generation
  pub same_reason : c.reason ≡ d.reason
  pub same_message : c.message ≡ d.message

-- What the documentation of these functions promises.
pub record IsLawful (m : Machinery) : Type 0 where
  pub find-set_self :
      (cs : List Condition) (c : Condition)
      → (d : Condition) × (m.find_status_condition (m.set_status_condition cs c) c.kind ≡ some d)
        × SameCondition d c
  pub find-set_ne :
      (cs : List Condition) (c : Condition) (kind : String)
      → c.kind ≢ kind
      → m.find_status_condition (m.set_status_condition cs c) kind ≡ m.find_status_condition cs kind
  pub contains-add_self :
      (fs : List String) (f : String) → m.contains_finalizer (m.add_finalizer fs f) f ≡ true
  pub contains-add_mono :
      (fs : List String) (f g : String)
      → m.contains_finalizer fs g ≡ true
      → m.contains_finalizer (m.add_finalizer fs f) g ≡ true
  pub contains-remove_self :
      (fs : List String) (f : String) → m.contains_finalizer (m.remove_finalizer fs f) f ≢ true
  pub contains-remove_ne :
      (fs : List String) (f g : String)
      → f ≢ g
      → m.contains_finalizer (m.remove_finalizer fs f) g ≡ m.contains_finalizer fs g
