-- ===== src/DatabaseUser/Sorted.antt =====
-- Sorting twice is sorting once.
use Prim.Native.String.{String, compare}
use text.Mathlib.Text.{is_lt}
use mongodb_atlas_kubernetes.Base.{◌≡◌, ◌∙◌, refl, ap, false, Bool-cases, inl, inr, List, [], ◌∷◌}
use mongodb_atlas_kubernetes.DatabaseUser.Sorting.{insert_sorted, sort_stable}
use mongodb_atlas_kubernetes.DatabaseUser.TextOrder.{lt_asym}

module _ {A : Type 0} (key : A → String) where
  -- No element is below the one before it.
  abbrev pub IsSorted : List A → Type 0
  IsSorted [] = Unit {0}
  IsSorted (x ∷ []) = Unit {0}
  IsSorted (x ∷ y ∷ ys) = (is_lt (compare (key y) (key x)) ≡ false) × IsSorted (y ∷ ys)

  abbrev Fits : A → List A → Type 0
  Fits y zs = IsSorted (y ∷ zs)

  insert_sorted-Fits :
      (x y : A) (zs : List A)
      → is_lt (compare (key x) (key y)) ≡ false
      → Fits y zs
      → Fits y (insert_sorted key x zs)
  unfolding insert_sorted
  insert_sorted-Fits x y [] k h = (k, tt)
  insert_sorted-Fits x y (z ∷ zs) k (h, more) =
      elim (Bool-cases (is_lt (compare (key z) (key x)))) [
        | inl e ↦ rw e (h, insert_sorted-Fits x z zs (lt_asym (key z) (key x) e) more)
        | inr e ↦ rw e (k, (e, more))
      ]

  insert_sorted-IsSorted : (x : A) (zs : List A) → IsSorted zs → IsSorted (insert_sorted key x zs)
  unfolding insert_sorted
  insert_sorted-IsSorted x [] h = tt
  insert_sorted-IsSorted x (z ∷ zs) h = elim (Bool-cases (is_lt (compare (key z) (key x)))) [
    | inl e ↦ rw e (insert_sorted-Fits x z zs (lt_asym (key z) (key x) e) h)
    | inr e ↦ rw e (e, h)
  ]

  sort_stable-IsSorted : (xs : List A) → IsSorted (sort_stable key xs)
  unfolding sort_stable
  sort_stable-IsSorted [] = tt
  sort_stable-IsSorted (x ∷ xs) =
      insert_sorted-IsSorted x (sort_stable key xs) (sort_stable-IsSorted xs)

  -- What is sorted stays as it is.
  sort_stable_id : (xs : List A) → IsSorted xs → sort_stable key xs ≡ xs
  unfolding sort_stable insert_sorted
  sort_stable_id [] h = refl
  sort_stable_id (x ∷ []) h = refl
  sort_stable_id (x ∷ y ∷ ys) (h, more) =
      ap (insert_sorted key x) (sort_stable_id (y ∷ ys) more) ∙ rw h refl

  pub sort_stable_twice : (xs : List A) → sort_stable key (sort_stable key xs) ≡ sort_stable key xs
  sort_stable_twice xs = sort_stable_id (sort_stable key xs) (sort_stable-IsSorted xs)
