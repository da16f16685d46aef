-- ===== src/State/Finalizers.antt =====
-- pkg/finalizer/finalizer.go. The object is changed in memory before the patch is sent; a patch
-- that succeeds replaces it by the server's answer.
use mongodb_atlas_kubernetes.Base.{
  ◌≡◌, refl, String, Bool, true, Option, none, some, List, [], ◌∷◌, if◌then◌else◌, ◌&&◌, arith,
}
use mongodb_atlas_kubernetes.Base.Errors.{GoError, Answer, ok, err}
use mongodb_atlas_kubernetes.State.Kube.{Object, Machinery, IsLawful}

-- Client.Patch with the JSON patch that replaces /metadata/finalizers.
abbrev pub FinalizerPatch : Type 0 → Type 0
FinalizerPatch W = Object → W → Answer Object × W

-- An error or none, the object in memory, and the world.
abbrev pub Patched : Type 0 → Type 0
Patched W = Option GoError × Object × W

abbrev pub settle : {W : Type 0} → Object → Answer Object × W → Patched W
settle o (ok o', w) = (none, o', w)
settle o (err e, w) = (some e, o, w)

module _ (m : Machinery) where
  unfoldable pub remove_all : List String → List String → List String
  remove_all [] fs = fs
  remove_all (f ∷ rest) fs = remove_all rest (m.remove_finalizer fs f)

  unfoldable pub add_all : List String → List String → List String
  add_all [] fs = fs
  add_all (f ∷ rest) fs = add_all rest (m.add_finalizer fs f)

  -- the loop that clears `hasAllFinalizers`
  unfoldable pub has_all : List String → List String → Bool
  has_all [] fs = true
  has_all (f ∷ rest) fs = m.contains_finalizer fs f && has_all rest fs

  module _ {W : Type 0} (patch : FinalizerPatch W) where
    unfoldable pub unset_finalizers : List String → Object → W → Patched W
    unfolding remove_all
    unset_finalizers names o w =
        let o' = record o { finalizers = remove_all names o.finalizers } in settle o' (patch o' w)

    unfoldable pub ensure_finalizers : List String → Object → W → Patched W
    unfolding add_all has_all
    ensure_finalizers names o w =
        let o' = record o { finalizers = add_all names o.finalizers } in
        if has_all names o.finalizers then (none, o, w) else settle o' (patch o' w)

module _ (m : Machinery) (laws : IsLawful m) where
  contains-add_all :
      (names fs : List String) (f : String)
      → m.contains_finalizer fs f ≡ true
      → m.contains_finalizer (add_all m names fs) f ≡ true
  unfolding add_all
  contains-add_all [] fs f h = h
  contains-add_all (g ∷ rest) fs f h =
      contains-add_all rest (m.add_finalizer fs g) f (laws.contains-add_mono fs g f h)

  has_all-add_all_of :
      (names done fs : List String)
      → has_all m done fs ≡ true
      → has_all m done (add_all m names fs) ≡ true
  unfolding has_all
  has_all-add_all_of names [] fs h = refl
  has_all-add_all_of names (f ∷ done) fs h =
      ground (arith, contains-add_all names fs f, has_all-add_all_of names done fs)

  -- After names are added to a list of finalizers, the list has every one of them. The API
  -- machinery keeps its laws.
  pub has_all-add_all : (names fs : List String) → has_all m names (add_all m names fs) ≡ true
  unfolding has_all add_all
  has_all-add_all [] fs = refl
  has_all-add_all (f ∷ rest) fs = ground (
    arith,
    contains-add_all rest (m.add_finalizer fs f) f (laws.contains-add_self fs f),
    has_all-add_all rest (m.add_finalizer fs f),
  )
