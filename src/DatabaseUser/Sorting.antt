-- ===== src/DatabaseUser/Sorting.antt =====
-- NormalizeSlice of internal/cmp/normalize.go, with the stable sort of `slices`, by a text.
use Prim.Native.String.{String, compare}
use mongodb_atlas_kubernetes.Base.{Option, none, some, List, [], ◌∷◌, if◌then◌else◌}
use text.Mathlib.Text.{is_lt}

module _ {A : Type 0} (key : A → String) where
  -- An element goes before those after it whose key is not smaller.
  unfoldable pub insert_sorted : A → List A → List A
  insert_sorted x [] = x ∷ []
  insert_sorted x (y ∷ ys) =
      let rest = insert_sorted x ys in
      if is_lt (compare (key y) (key x)) then y ∷ rest else x ∷ y ∷ ys

  -- `slices.SortStableFunc` with `strings.Compare` of the keys
  unfoldable pub sort_stable : List A → List A
  unfolding insert_sorted
  sort_stable [] = []
  sort_stable (x ∷ xs) = insert_sorted x (sort_stable xs)

  -- The caller's slice afterwards, which is sorted in place, and the slice that is returned.
  unfoldable pub normalize_slice : Option (List A) → Option (List A) × Option (List A)
  unfolding sort_stable
  normalize_slice none = (none, none)
  normalize_slice (some []) = (some [], none)
  normalize_slice (some (x ∷ xs)) = let sorted = sort_stable (x ∷ xs) in (some sorted, some sorted)
