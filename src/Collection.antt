-- ===== src/Collection.antt =====
-- internal/collection/collection.go and internal/compare/comparation.go. A Go map is an association
-- list whose order stands for the one of its iterations.
pub mod Compare
pub mod Paging
mod Tests
use mongodb_atlas_kubernetes.Base.{
  ◌≡◌, refl, ◌↔◌, String, Bool, true, false, Option, none, some, List, [], ◌∷◌, if◌then◌else◌,
  str_eq, eq_iff, lookup, is_some, arith, Option-cases, Bool-cases, inl, inr,
}

module _ {V : Type 0} where
  unfoldable pub keys : List (String × V) → List String
  keys [] = []
  keys ((k, v) ∷ m) = k ∷ keys m

  -- the pairs of `a` whose key `b` does not have
  unfoldable pub map_diff : List (String × V) → List (String × V) → List (String × V)
  map_diff [] b = []
  map_diff ((k, v) ∷ a) b =
      let rest = map_diff a b in if is_some (lookup k b) then rest else (k, v) ∷ rest

  -- The difference of two maps has the value of the first at every key that the second lacks, and
  -- none at every key that it has.
  pub lookup-map_diff :
      (k : String) (a b : List (String × V))
      → lookup k (map_diff a b) ≡ (if is_some (lookup k b) then none else lookup k a)
  unfolding map_diff
  lookup-map_diff k [] b = ground arith
  lookup-map_diff k ((j, v) ∷ a) b = ground (arith, eq_iff j k, lookup-map_diff k a b)

unfoldable pub copy_with_skip : List String → String → List String
copy_with_skip [] skip = []
copy_with_skip (x ∷ xs) skip =
    let rest = copy_with_skip xs skip in if str_eq x skip then rest else x ∷ rest
