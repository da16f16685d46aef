-- ===== src/Resource/Tests.antt =====
-- Runs of the finalizer, the version check and the applied configuration.
use mongodb_atlas_kubernetes.Base.{
  ℕ, ◌≡◌, refl, String, true, false, Option, none, some, [], ◌∷◌, str_eq, if◌then◌else◌, ltb,
}
use mongodb_atlas_kubernetes.Base.Int.{pos, negsuc}
use mongodb_atlas_kubernetes.Base.Errors.{GoError, plain, ok, err}
use mongodb_atlas_kubernetes.Resource.Meta.{Meta}
use mongodb_atlas_kubernetes.Resource.Finalizer.{MetaPatch, finalizer_label, have_finalizer}
use mongodb_atlas_kubernetes.Resource.Policy.{Semver, resource_version_is_valid, resource_version}
use mongodb_atlas_kubernetes.Resource.Protection.{Json}

abbrev bare : Meta
bare = record {
  name = "cluster";
  namespace = "default";
  annotations = [];
  labels = (resource_version, "3") ∷ [];
  finalizers = none;
  deletion_timestamp = none;
}

abbrev held : Meta
held = record bare { finalizers = some (finalizer_label ∷ []) }

-- A cluster that takes every patch and counts them.
abbrev patch_all : MetaPatch ℕ
patch_all fs r w = (ok (record r { finalizers = fs }), w)

-- Versions of one digit.
abbrev digits : Semver ℕ
digits = record {
  new_version = (λ text.
      if str_eq text "2" then ok 2 else if str_eq text "3" then ok 3 else err (plain text));
  compare_version = (λ a b. if ltb b a then pos 1 else if ltb a b then negsuc 0 else pos 0);
}

abbrev identity_json : Json String
identity_json = record { marshal = ok; unmarshal = ok }

abbrev no_patch : Meta → ℕ → Option GoError × ℕ
no_patch r w = (none, w)

held_label : have_finalizer held finalizer_label ≡ true
unfolding have_finalizer
held_label = refl

-- Version 3 is refused by operator 2 and accepted by operator 3.
version_test :
    (resource_version_is_valid digits "2" bare ≡ ok false)
    × (resource_version_is_valid digits "3" bare ≡ ok true)
unfolding resource_version_is_valid
version_test = (refl, refl)
