-- ===== src/Collection/Tests.antt =====
-- Runs of the collections.
use mongodb_atlas_kubernetes.Base.{
  ℕ, zero, suc, ◌≤◌, ◌≡◌, refl, String, true, Option, none, some, List, [], ◌∷◌, is_some, arith, ap,
}
use mongodb_atlas_kubernetes.Base.Errors.{Answer, ok, err}
use mongodb_atlas_kubernetes.Collection.Compare.{is_equal_without_order}
use mongodb_atlas_kubernetes.Collection.Paging.{
  Page, ListFunc, list_all, list_all_ends, list_all_complete, IsBounded, Serves,
}

abbrev left : List (String × ℕ)
left = ("a", 1) ∷ ("b", 2) ∷ []

abbrev right : List (String × ℕ)
right = ("b", 7) ∷ []

abbrev x_y : List String
x_y = "x" ∷ "y" ∷ []

abbrev y_x : List String
y_x = "y" ∷ "x" ∷ []

-- A list that repeats one of two elements counts as equal to both of them.
repeated_test : is_equal_without_order x_y ("x" ∷ "x" ∷ []) ≡ true
unfolding is_equal_without_order
repeated_test = refl

-- Two pages, and an empty one after them.
abbrev page_of : ℕ → List ℕ
page_of (suc zero) = 1 ∷ 2 ∷ []
page_of (suc (suc zero)) = 3 ∷ []
page_of n = []

abbrev two_pages : ListFunc ℕ ℕ
two_pages page w = (ok (some (record { results = page_of page; total_count = 3 })), suc w)

two_pages-IsBounded : IsBounded two_pages 3
two_pages-IsBounded page w p e = count_of (ap total_of e)
  where
    total_of : Answer (Option (Page ℕ)) → ℕ
    total_of (ok (some q)) = q.total_count
    total_of (ok none) = 0
    total_of (err e) = 0

    count_of : {n : ℕ} → 3 ≡ n → n ≤ 3
    count_of h = omega (arith, h)

list_all_ends_example : is_some (list_all two_pages 4 0).0 ≡ true
list_all_ends_example = list_all_ends two_pages 3 0 two_pages-IsBounded

list_all_complete_example : (list_all two_pages 3 0).0 ≡ some (ok (1 ∷ 2 ∷ 3 ∷ []))
list_all_complete_example =
    list_all_complete two_pages ((1 ∷ 2 ∷ []) ∷ (3 ∷ []) ∷ []) 2 0 served (omega arith)
  where
    served : Serves two_pages 3 1 ((1 ∷ 2 ∷ []) ∷ (3 ∷ []) ∷ [])
    served = ((λ w. refl), refl, ((λ w. refl), refl, (λ w. refl)))
