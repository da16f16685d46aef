-- ===== src/Resource/Finalizer.antt =====
-- finalizer.go of customresource.
use mongodb_atlas_kubernetes.Base.{
  String, Bool, not, Option, none, some, List, [], ◌∷◌, ◌++◌, if◌then◌else◌, str_eq, elem,
}
use mongodb_atlas_kubernetes.Base.Errors.{GoError, Answer, ok, err}
use mongodb_atlas_kubernetes.Resource.Meta.{Meta, names, deep_equal}

abbrev pub finalizer_label : String
finalizer_label = "mongodbatlas/finalizer"

unfoldable pub have_finalizer : Meta → String → Bool
have_finalizer r f = elem f (names r.finalizers)

unfoldable pub set_finalizer : Meta → String → Meta
unfolding have_finalizer
set_finalizer r f =
    if not (have_finalizer r f)
    then record r { finalizers = some (names r.finalizers ++ f ∷ []) }
    else r

unfoldable pub without : String → List String → List String
without f [] = []
without f (g ∷ fs) = if str_eq g f then without f fs else g ∷ without f fs

-- The new slice is made, so it is never nil.
unfoldable pub unset_finalizer : Meta → String → Meta
unfolding without
unset_finalizer r f = record r { finalizers = some (without f (names r.finalizers)) }

-- Client.Patch with the JSON patch of /metadata/finalizers to the given names.
abbrev pub MetaPatch : Type 0 → Type 0
MetaPatch W = Option (List String) → Meta → W → Answer Meta × W

-- An error or none; whether a patch was sent; the resource in memory, and the world.
abbrev pub settle : {W : Type 0} → Meta → Answer Meta × W → Option GoError × Meta × W
settle r (ok r', w) = (none, r', w)
settle r (err e, w) = (some e, r, w)

-- The operator works on a copy; nothing is sent when that leaves the finalizers as they are.
unfoldable pub manage_finalizer :
    {W : Type 0} → MetaPatch W → (Meta → String → Meta) → Meta → W → Option GoError × Meta × W
manage_finalizer patch op r w =
    let copy = op r finalizer_label in
    if deep_equal r.finalizers copy.finalizers
    then (none, r, w)
    else settle r (patch copy.finalizers r w)
