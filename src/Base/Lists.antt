-- ===== src/Base/Lists.antt =====
-- Lists measured by native numbers, predicates over lists, and association lists for Go's maps.
use Prim.Native.Nat.{ℕ, suc, ◌+◌}
use Prim.Native.String.{String}
use mathlib.Core.Path.{◌≡◌}
use mathlib.Core.Bool.{Bool, true, false, ◌||◌}
use mathlib.Core.Option.{Option, none, some}
use mathlib.Core.List.{List, [], ◌∷◌, ◌++◌}
use native.Mathlib.Omega.{arith}
use text.Mathlib.Text.{◌==◌ as str_eq}
use text.Mathlib.TextEquality.{eq_iff}
use text.Mathlib.TextPositions.{eq_refl}
use mongodb_atlas_kubernetes.Base.Tests.{if◌then◌else◌}

module _ {ℓ} {A : Type ℓ} where
  abbrev pub length : List A → ℕ
  length [] = 0
  length (x ∷ xs) = suc (length xs)

  abbrev pub is_empty : List A → Bool
  is_empty [] = true
  is_empty (x ∷ xs) = false

  pub length-append : (xs ys : List A) → length (xs ++ ys) ≡ length xs + length ys
  length-append [] ys = omega arith
  length-append (x ∷ xs) ys = omega (arith, length-append xs ys)

module _ {ℓ κ} {A : Type ℓ} (P : A → Type κ) where
  abbrev pub All : List A → Type κ
  All [] = Unit
  All (x ∷ xs) = P x × All xs

  pub All-append : (xs ys : List A) → All xs → All ys → All (xs ++ ys)
  All-append [] ys hx hy = hy
  All-append (x ∷ xs) ys hx hy = (hx.0, All-append xs ys hx.1 hy)

-- Membership of a text in a list of texts.
abbrev pub elem : String → List String → Bool
elem s [] = false
elem s (x ∷ xs) = str_eq x s || elem s xs

-- A Go map with text keys: at most one pair of a key counts, the first.
module _ {ℓ} {A : Type ℓ} where
  abbrev pub insert : String → A → List (String × A) → List (String × A)
  insert key x [] = (key, x) ∷ []
  insert key x ((old, y) ∷ rest) =
      if str_eq old key then (key, x) ∷ rest else (old, y) ∷ insert key x rest

  abbrev pub lookup : String → List (String × A) → Option A
  lookup key [] = none
  lookup key ((old, y) ∷ rest) = if str_eq old key then some y else lookup key rest

  -- The pair that was put in is found.
  pub lookup-insert_self :
      (key : String) (x : A) (entries : List (String × A))
      → lookup key (insert key x entries) ≡ some x
  lookup-insert_self key x [] = ground (arith, eq_refl key)
  lookup-insert_self key x ((old, y) ∷ rest) =
      ground (arith, eq_refl key, eq_iff old key, lookup-insert_self key x rest)
