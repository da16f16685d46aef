-- ===== src/Collection/Compare.antt =====
-- internal/compare/comparation.go at texts.
use mongodb_atlas_kubernetes.Base.{
  String, Bool, true, false, Option, none, some, List, [], ◌∷◌, if◌then◌else◌, str_eq, nat_eq,
  length, elem, not, ◌&&◌, ◌≡◌, ◌↔◌, refl, All, arith,
}

-- the loop over `b`, with the keys of the map made of `a`
unfoldable pub all_in : List String → List String → Bool
all_in a [] = true
all_in a (x ∷ b) = elem x a && all_in a b

unfoldable pub is_equal_without_order : List String → List String → Bool
unfolding all_in
is_equal_without_order a b = if not (nat_eq (length a) (length b)) then false else all_in a b

unfoldable pub ptr_values_equal : Option String → Option String → Bool
ptr_values_equal none none = true
ptr_values_equal none (some y) = false
ptr_values_equal (some x) none = false
ptr_values_equal (some x) (some y) = str_eq x y

all_in_only : (a b : List String) → all_in a b ≡ true → All (λ x. elem x a ≡ true) b
unfolding all_in
all_in_only a [] h = tt
all_in_only a (x ∷ b) h = (ground arith, all_in_only a b (ground arith))

all_in_if : (a b : List String) → All (λ x. elem x a ≡ true) b → all_in a b ≡ true
unfolding all_in
all_in_if a [] h = refl
all_in_if a (x ∷ b) (h, more) = ground (arith, all_in_if a b more)

-- The comparison without order finds two lists equal exactly when they have the same length and
-- every element of the second is one of the first.
pub is_equal_without_order_iff :
    (a b : List String)
    → (is_equal_without_order a b ≡ true) ↔ ((length a ≡ length b) × All (λ x. elem x a ≡ true) b)
unfolding is_equal_without_order
is_equal_without_order_iff a b = (
  (λ h. (ground (arith), all_in_only a b (ground arith))),
  (λ h. ground (arith, all_in_if a b h.1)),
)
