-- ===== src/Resource/Decisions.antt =====
-- What finalizers, versions, ownership and the applied configuration come to.
use mongodb_atlas_kubernetes.Base.{
  ◌≡◌, ◌≢◌, ◌↔◌, refl, String, Bool, true, false, Option, none, some, List, [], ◌∷◌, ◌++◌,
  if◌then◌else◌, str_eq, eq_iff, arith, Option-cases, inl, inr, ◌||◌, elem, lookup, insert,
  lookup-insert_self, ap,
}
use mongodb_atlas_kubernetes.Base.Int.{pos, ltb_ℤ}
use mongodb_atlas_kubernetes.Base.Errors.{GoError, Answer, ok, err}
use mongodb_atlas_kubernetes.Resource.Meta.{Meta, names, same_texts, deep_equal}
use mongodb_atlas_kubernetes.Resource.Finalizer.{
  MetaPatch, finalizer_label, have_finalizer, set_finalizer, unset_finalizer, without,
  manage_finalizer, settle,
}
use mongodb_atlas_kubernetes.Resource.Policy.{
  Semver, resource_version_is_valid, resource_version, resource_version_override, is_allowed,
  against, of_label,
}
use mongodb_atlas_kubernetes.Resource.Protection.{
  Json, parse_last_config_applied, patch_last_config_applied, is_resource_managed_by_operator,
  last_applied_annotation, wrapped,
}

same_texts_refl : (xs : List String) → same_texts xs xs ≡ true
same_texts_refl [] = refl
same_texts_refl (x ∷ xs) = ground (arith, eq_iff x x, same_texts_refl xs)

deep_equal_refl : (xs : Option (List String)) → deep_equal xs xs ≡ true
deep_equal_refl none = refl
deep_equal_refl (some xs) = same_texts_refl xs

elem-append : (xs ys : List String) (f : String) → elem f (xs ++ ys) ≡ (elem f xs || elem f ys)
elem-append [] ys f = refl
elem-append (x ∷ xs) ys f = ground (arith, elem-append xs ys f)

elem-without :
    (f : String) (fs : List String) (g : String)
    → elem g (without f fs) ≡ (if str_eq f g then false else elem g fs)
unfolding without
elem-without f [] g = ground arith
elem-without f (x ∷ fs) g = ground (arith, elem-without f fs g, eq_iff x f, eq_iff x g, eq_iff f g)

without_absent : (f : String) (fs : List String) → elem f fs ≡ false → without f fs ≡ fs
unfolding without
without_absent f [] h = refl
without_absent f (x ∷ fs) h = ground (arith, without_absent f fs)

-- A resource has a finalizer after another is set when it is that one or was there, and after
-- another is unset when it is not that one and was there.
pub finalizer_operators :
    (r : Meta) (f g : String)
    → (have_finalizer (set_finalizer r f) g ≡ (str_eq f g || have_finalizer r g))
      × (have_finalizer (unset_finalizer r f) g
          ≡ (if str_eq f g then false else have_finalizer r g))
unfolding have_finalizer set_finalizer unset_finalizer
finalizer_operators r f g = (
  ground (arith, elem-append (names r.finalizers) (f ∷ []) g, eq_iff f g),
  elem-without f (names r.finalizers) g,
)

-- If the finalizers are not nil, setting the operator's finalizer where it is, or unsetting it
-- where it is not, sends no patch and leaves the resource and the world as they are.
pub manage_finalizer_idle :
    {W : Type 0} (patch : MetaPatch W) (r : Meta) (w : W) (fs : List String) (b : Bool)
    → r.finalizers ≡ some fs
    → have_finalizer r finalizer_label ≡ b
    → manage_finalizer patch (if b then set_finalizer else unset_finalizer) r w ≡ (none, r, w)
unfolding manage_finalizer set_finalizer unset_finalizer have_finalizer
manage_finalizer_idle patch r w fs true e h = rw (h, deep_equal_refl r.finalizers) refl
manage_finalizer_idle patch r w fs false e h =
    ground (arith, without_absent finalizer_label fs, same_texts_refl fs)

-- If the finalizers are nil, unsetting the operator's finalizer sends a patch with no finalizers.
pub manage_finalizer_nil :
    {W : Type 0} (patch : MetaPatch W) (r : Meta) (w : W)
    → r.finalizers ≡ none
    → manage_finalizer patch unset_finalizer r w ≡ settle r (patch (some []) r w)
unfolding manage_finalizer unset_finalizer without
manage_finalizer_nil patch r w e = ground arith

module _ {V : Type 0} (semver : Semver V) (operator_version : String) (r : Meta) where
  -- The version of a resource is refused.
  abbrev pub IsTooNew : Type 0
  IsTooNew =
      (text : String) × (rv ov : V) × (lookup resource_version r.labels ≡ some text)
      × (semver.new_version text ≡ ok rv)
      × (semver.new_version operator_version ≡ ok ov)
      × (ltb_ℤ (pos 0) (semver.compare_version rv ov) ≡ true)
      × (lookup resource_version_override r.annotations ≢ some "allow")

  not-allowed : (o : Option String) → is_allowed o ≡ false → o ≢ some "allow"
  not-allowed none h e = cc
  not-allowed (some v) h e = ground (arith, eq_iff v "allow")

  allowed_ne : (o : Option String) → o ≢ some "allow" → is_allowed o ≡ false
  allowed_ne none h = refl
  allowed_ne (some v) h = ground (arith, eq_iff v "allow", h)

  refused_against :
      (rv : V) (a : Answer V)
      → against semver operator_version rv a r ≡ false
      → (ov : V) × (a ≡ ok ov)
        × (ltb_ℤ (pos 0) (semver.compare_version rv ov) ≡ true)
        × (lookup resource_version_override r.annotations ≢ some "allow")
  refused_against rv (err e) h = cc
  refused_against rv (ok ov) h = (
    ov,
    refl,
    ground arith,
    not-allowed (lookup resource_version_override r.annotations) (ground arith),
  )

  refused_label :
      (text : String) (a : Answer V)
      → of_label semver operator_version text a r ≡ ok false
      → (rv ov : V) × (a ≡ ok rv)
        × (semver.new_version operator_version ≡ ok ov)
        × (ltb_ℤ (pos 0) (semver.compare_version rv ov) ≡ true)
        × (lookup resource_version_override r.annotations ≢ some "allow")
  refused_label text (err e) h = cc
  refused_label text (ok rv) h =
      let (ov, e, lt, no_override) =
        refused_against rv (semver.new_version operator_version) (ground arith) in
      (rv, ov, refl, e, lt, no_override)

  refused_only : resource_version_is_valid semver operator_version r ≡ ok false → IsTooNew
  unfolding resource_version_is_valid
  refused_only h = elim (Option-cases (lookup resource_version r.labels)) [
    | inl e ↦ cc (rw (e, resource_version_is_valid) at h)
    | inr (text, e) ↦
        let (rv, ov, e1, e2, lt, no_override) =
          refused_label text (semver.new_version text) (rw (e, resource_version_is_valid) at h) in
        (text, rv, ov, e, e1, e2, lt, no_override)
  ]

  refused_if : IsTooNew → resource_version_is_valid semver operator_version r ≡ ok false
  unfolding resource_version_is_valid
  refused_if (text, rv, ov, e, e1, e2, lt, no_override) =
      rw (e, resource_version_is_valid, e1, e2, lt)
        (ap ok (allowed_ne (lookup resource_version_override r.annotations) no_override))

  -- The version of a resource is refused exactly when it has a version label, the label and the
  -- operator's version parse, the label's version is the greater one, and no annotation allows it.
  pub resource_version_refused_iff :
      (resource_version_is_valid semver operator_version r ≡ ok false) ↔ IsTooNew
  resource_version_refused_iff = (refused_only, refused_if)

-- If a specification is written as a text that reads back as it, the patch of the applied
-- configuration is the one of the resource with that text in its annotation, of which the
-- specification reads back, and which counts as managed by the operator.
pub last_config_applied_roundtrip :
    {S W : Type 0} (json : Json S) (patch : Meta → W → Option GoError × W) (spec : S)
    (text : String) (r : Meta) (w : W)
    → json.marshal spec ≡ ok text
    → json.unmarshal text ≡ ok spec
    → let r' = record r { annotations = insert last_applied_annotation text r.annotations } in
      (patch_last_config_applied json patch (some spec) r w ≡ wrapped json patch (patch r' w))
      × (parse_last_config_applied json r' ≡ ok (some spec))
      × (is_resource_managed_by_operator r' ≡ ok true)
unfolding patch_last_config_applied parse_last_config_applied is_resource_managed_by_operator
last_config_applied_roundtrip json patch spec text r w e1 e2 =
    let found = lookup-insert_self last_applied_annotation text r.annotations in
    (rw e1, rw (found, parse_last_config_applied, e2), rw (found, is_resource_managed_by_operator))
