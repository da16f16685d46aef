-- ===== src/Resource/Policy.antt =====
-- The annotations and labels that customresource.go reads. The semver package is a parameter.
use mongodb_atlas_kubernetes.Base.{
  String, Bool, true, false, not, Option, none, some, if◌then◌else◌, str_eq, lookup, insert, concat,
  is_empty_text,
}
use mongodb_atlas_kubernetes.Base.Int.{ℤ, pos, ltb_ℤ}
use mongodb_atlas_kubernetes.Base.Errors.{plain, Answer, ok, err}
use mongodb_atlas_kubernetes.Resource.Meta.{Meta}

abbrev pub resource_policy_annotation : String
resource_policy_annotation = "mongodb.com/atlas-resource-policy"

abbrev pub reconciliation_policy_annotation : String
reconciliation_policy_annotation = "mongodb.com/atlas-reconciliation-policy"

abbrev pub resource_version : String
resource_version = "mongodb.com/atlas-resource-version"

abbrev pub resource_version_override : String
resource_version_override = "mongodb.com/atlas-resource-version-policy"

unfoldable pub is_resource_policy_keep_or_default : Meta → Bool → Bool
is_resource_policy_keep_or_default r protection_flag =
    elim (lookup resource_policy_annotation r.annotations) [
      | some policy ↦ str_eq policy "keep"
      | none ↦ protection_flag
    ]

unfoldable pub is_resource_policy_keep : Meta → Bool
is_resource_policy_keep r = elim (lookup resource_policy_annotation r.annotations) [
  | some v ↦ str_eq v "keep"
  | none ↦ false
]

unfoldable pub reconciliation_should_be_skipped : Meta → Bool
reconciliation_should_be_skipped r = elim (lookup reconciliation_policy_annotation r.annotations) [
  | some v ↦ str_eq v "skip"
  | none ↦ false
]

unfoldable pub set_annotation : String → String → Meta → Meta
set_annotation key value r = record r { annotations = insert key value r.annotations }

-- semver.NewVersion and Version.Compare
pub record Semver (V : Type 0) : Type 0 where
  pub new_version : String → Answer V
  pub compare_version : V → V → ℤ

abbrev pub is_allowed : Option String → Bool
is_allowed none = false
is_allowed (some v) = str_eq v "allow"

module _ {V : Type 0} (semver : Semver V) (operator_version : String) where
  abbrev pub against : V → Answer V → Meta → Bool
  against rv (err e) r = true
  against rv (ok ov) r =
      if not (ltb_ℤ (pos 0) (semver.compare_version rv ov))
      then true
      else is_allowed (lookup resource_version_override r.annotations)

  abbrev pub of_label : String → Answer V → Meta → Answer Bool
  of_label text (err e) r =
      err
        (plain (concat text (concat " is not a valid semver version for label " resource_version)))
  of_label text (ok rv) r = ok (against rv (semver.new_version operator_version) r)

  unfoldable pub resource_version_is_valid : Meta → Answer Bool
  resource_version_is_valid r = elim (lookup resource_version r.labels) [
    | none ↦ ok true
    | some text ↦ of_label text (semver.new_version text) r
  ]

-- A key of an object: namespace and name.
abbrev pub ObjectKey : Type 0
ObjectKey = String × String

-- Credentials() of the resource, and ConnectionSecretObjectKey() of the project when there is one.
abbrev pub project_secret : Option (Option ObjectKey) → Answer (Option ObjectKey)
project_secret none = err (plain "project cannot be nil")
project_secret (some key) = ok key

unfoldable pub compute_secret :
    Option (Option ObjectKey) → Option (Meta × Option String) → Answer (Option ObjectKey)
compute_secret project none = err (plain "resource cannot be nil")
compute_secret project (some (r, none)) = project_secret project
compute_secret project (some (r, some name)) =
    if not (is_empty_text name) then ok (some (r.namespace, name)) else project_secret project
