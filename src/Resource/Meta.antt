-- ===== src/Resource/Meta.antt =====
-- The metadata of a custom resource. A Go slice that is nil differs from an empty one where
-- reflect.DeepEqual compares: the finalizers are none when they are nil.
use mongodb_atlas_kubernetes.Base.{
  ℕ, String, Bool, true, false, Option, none, some, List, [], ◌∷◌, ◌&&◌, str_eq,
}

pub record Meta : Type 0 where
  pub name : String
  pub namespace : String
  pub annotations : List (String × String)
  pub labels : List (String × String)
  pub finalizers : Option (List String)
  pub deletion_timestamp : Option ℕ

abbrev pub names : Option (List String) → List String
names none = []
names (some fs) = fs

abbrev pub same_texts : List String → List String → Bool
same_texts [] [] = true
same_texts (x ∷ xs) (y ∷ ys) = str_eq x y && same_texts xs ys
same_texts _ _ = false

-- reflect.DeepEqual on slices of texts
abbrev pub deep_equal : Option (List String) → Option (List String) → Bool
deep_equal none none = true
deep_equal (some xs) (some ys) = same_texts xs ys
deep_equal _ _ = false
