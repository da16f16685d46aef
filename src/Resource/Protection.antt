-- ===== src/Resource/Protection.antt =====
-- protection.go: ownership, and the configuration that was applied last. JSON is a parameter.
use mongodb_atlas_kubernetes.Base.{
  String, Bool, true, false, not, Option, none, some, if◌then◌else◌, lookup, insert, is_some,
}
use mongodb_atlas_kubernetes.Base.Errors.{GoError, plain, wrap, Answer, ok, err}
use mongodb_atlas_kubernetes.Resource.Meta.{Meta}

abbrev pub last_applied_annotation : String
last_applied_annotation = "mongodb.com/last-applied-configuration"

abbrev pub negated : Answer Bool → Answer Bool
negated (err e) = err e
negated (ok b) = ok (not b)

abbrev pub unless_managed : Answer Bool → Answer Bool → Answer Bool
unless_managed (err e) exists = err e
unless_managed (ok true) exists = ok true
unless_managed (ok false) exists = negated exists

-- The checkers are pure here: the second is not asked when the first decides.
unfoldable pub is_owner : Meta → Bool → (Meta → Answer Bool) → (Meta → Answer Bool) → Answer Bool
is_owner r protection_flag operator_checker atlas_checker =
    if not protection_flag then ok true else unless_managed (operator_checker r) (atlas_checker r)

unfoldable pub is_resource_managed_by_operator : Meta → Answer Bool
is_resource_managed_by_operator r = ok (is_some (lookup last_applied_annotation r.annotations))

-- encoding/json on the specification
pub record Json (S : Type 0) : Type 0 where
  pub marshal : S → Answer String
  pub unmarshal : String → Answer S

module _ {S : Type 0} (json : Json S) where
  abbrev pub parsed : Answer S → Answer (Option S)
  parsed (ok spec) = ok (some spec)
  parsed (err e) = err (wrap "error parsing JSON annotation value" e)

  unfoldable pub parse_last_config_applied : Meta → Answer (Option S)
  parse_last_config_applied r = elim (lookup last_applied_annotation r.annotations) [
    | none ↦ ok none
    | some text ↦ parsed (json.unmarshal text)
  ]

  module _ {W : Type 0} (patch : Meta → W → Option GoError × W) where
    abbrev pub wrapped : Option GoError × W → Option GoError × W
    wrapped (none, w) = (none, w)
    wrapped (some e, w) = (some (wrap "failed to patch resource" e), w)

    abbrev pub patch_text : Answer String → Meta → W → Option GoError × W
    patch_text (err e) r w = (some (wrap "failed to marshal" e), w)
    patch_text (ok text) r w =
        wrapped
          (patch (record r { annotations = insert last_applied_annotation text r.annotations }) w)

    -- The copy goes to the cluster; the resource in memory is left as it is.
    unfoldable pub patch_last_config_applied : Option S → Meta → W → Option GoError × W
    patch_last_config_applied none r w = (some (plain "spec is nil"), w)
    patch_last_config_applied (some spec) r w = patch_text (json.marshal spec) r w
