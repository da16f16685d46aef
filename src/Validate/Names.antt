-- ===== src/Validate/Names.antt =====
-- The validators that ask for different names accept just those.
use mongodb_atlas_kubernetes.Base.{
  ◌≡◌, ◌↔◌, refl, String, Bool, true, false, Option, none, some, List, [], ◌∷◌, All, elem, arith,
  Bool-cases, inl, inr, eq_iff, concat,
}
use mongodb_atlas_kubernetes.Base.Errors.{GoError, plain}
use mongodb_atlas_kubernetes.Validate.Deployment.{
  has_duplicate, tags_error, serverless_private_endpoints, duplicate_tag, duplicate_endpoint,
}
use mongodb_atlas_kubernetes.Validate.Project.{join_if, role_errors, project_custom_roles}

-- No name stands twice in the list.
abbrev pub IsDistinct : List String → Type 0
IsDistinct [] = Unit
IsDistinct (n ∷ ns) = (elem n ns ≡ false) × IsDistinct ns

abbrev AreNew : List String → List String → Type 0
AreNew seen = All (λ n. elem n seen ≡ false)

new_cons :
    (n : String) (seen ns : List String)
    → AreNew (n ∷ seen) ns ↔ ((elem n ns ≡ false) × AreNew seen ns)
new_cons n seen [] = grind arith
new_cons n seen (x ∷ ns) = grind (arith, new_cons n seen ns, eq_iff n x, eq_iff x n)

has_duplicate_iff :
    (seen ns : List String) → (has_duplicate seen ns ≡ none) ↔ (AreNew seen ns × IsDistinct ns)
has_duplicate_iff seen [] = grind arith
has_duplicate_iff seen (n ∷ ns) = elim (Bool-cases (elem n seen)) [
  | inl e ↦ rw e (grind (arith, e))
  | inr e ↦ rw e (grind (arith, e, has_duplicate_iff (n ∷ seen) ns, new_cons n seen ns))
]

pub join_none :
    (b : Bool) (e : GoError) (old : Option GoError)
    → (join_if b e old ≡ none) ↔ ((b ≡ false) × (old ≡ none))
join_none true e none = grind arith
join_none true e (some f) = grind arith
join_none false e old = grind arith

role_errors_iff :
    (seen : List String) (old : Option GoError) (ns : List String)
    → (role_errors seen old ns ≡ none) ↔ ((old ≡ none) × AreNew seen ns × IsDistinct ns)
unfolding role_errors
role_errors_iff seen old [] = grind arith
role_errors_iff seen old (n ∷ ns) =
    let e =
      plain (
        concat "the custom role \""
          (concat n "\" is duplicate. custom role name must be unique")) in
    grind (
      arith,
      role_errors_iff (n ∷ seen) (join_if (elem n seen) e old) ns,
      join_none (elem n seen) e old,
      new_cons n seen ns,
    )

AreNew-empty : (ns : List String) → AreNew [] ns
AreNew-empty [] = tt
AreNew-empty (n ∷ ns) = (refl, AreNew-empty ns)

duplicates_none : (ns : List String) → (has_duplicate [] ns ≡ none) ↔ IsDistinct ns
duplicates_none ns = grind (arith, has_duplicate_iff [] ns, AreNew-empty ns)

tags_none : (ns : List String) → (tags_error ns ≡ none) ↔ IsDistinct ns
unfolding tags_error
tags_none ns = read (has_duplicate [] ns) (duplicates_none ns)
  where
    read :
        (o : Option String) → (o ≡ none) ↔ IsDistinct ns → (duplicate_tag o ≡ none) ↔ IsDistinct ns
    read none h = grind (arith, h)
    read (some n) h = grind (arith, h)

endpoints_none : (ns : List String) → (serverless_private_endpoints ns ≡ none) ↔ IsDistinct ns
unfolding serverless_private_endpoints
endpoints_none ns = read (has_duplicate [] ns) (duplicates_none ns)
  where
    read :
        (o : Option String)
        → (o ≡ none) ↔ IsDistinct ns
        → (duplicate_endpoint o ≡ none) ↔ IsDistinct ns
    read none h = grind (arith, h)
    read (some n) h = grind (arith, h)

roles_none : (ns : List String) → (project_custom_roles ns ≡ none) ↔ IsDistinct ns
unfolding project_custom_roles
roles_none [] = grind arith
roles_none (n ∷ ns) = grind (arith, role_errors_iff [] none (n ∷ ns), AreNew-empty (n ∷ ns))

-- The tags of a deployment, the private endpoints of a serverless instance and the custom roles of
-- a project are each accepted exactly when no key or name stands twice.
pub IsDistinct-names_iff :
    (ns : List String)
    → ((tags_error ns ≡ none) ↔ IsDistinct ns)
      × ((serverless_private_endpoints ns ≡ none) ↔ IsDistinct ns)
      × ((project_custom_roles ns ≡ none) ↔ IsDistinct ns)
IsDistinct-names_iff ns = (tags_none ns, endpoints_none ns, roles_none ns)
