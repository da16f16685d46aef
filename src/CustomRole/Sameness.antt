-- ===== src/CustomRole/Sameness.antt =====
-- Roles that come back from Atlas, compared with the ones that were sent.
use mongodb_atlas_kubernetes.Base.{
  ◌≡◌, refl, String, Bool, true, false, Option, none, some, List, [], ◌∷◌, map, str_eq, eq_refl,
  is_some, arith, ◌&&◌,
}
use mongodb_atlas_kubernetes.CustomRole.Conversion.{
  CustomRole, RoleAction, RoleResource, InheritedRole, role_to_atlas, role_from_atlas, same_role,
  same_lists, same_slices, same_inherited, same_action, same_resource, same_flags, same_pointers,
  inherited_to_atlas, inherited_from_atlas, action_to_atlas, action_from_atlas, resource_to_atlas,
  resource_from_atlas, elements, flag_or, text_or, to_atlas_actions, to_atlas_inherited_roles,
}

-- Every slice of a role is made, and every pointer of a resource is set.
abbrev pub is_full_resource : RoleResource → Bool
is_full_resource r = is_some r.cluster && is_some r.database && is_some r.collection

abbrev pub every : {A : Type 0} → (A → Bool) → List A → Bool
every f [] = true
every f (x ∷ xs) = f x && every f xs

abbrev pub is_full_action : RoleAction → Bool
is_full_action a = is_some a.resources && every is_full_resource (elements a.resources)

abbrev pub is_full_role : CustomRole → Bool
is_full_role r =
    is_some r.inherited_roles && is_some r.actions && every is_full_action (elements r.actions)

same_flag_back : (o : Option Bool) → same_pointers same_flags o (some (flag_or o false)) ≡ is_some o
same_flag_back none = refl
same_flag_back (some true) = refl
same_flag_back (some false) = refl

same_text_back : (o : Option String) → same_pointers str_eq o (some (text_or o "")) ≡ is_some o
same_text_back none = refl
same_text_back (some t) = eq_refl t

same_resource_back :
    (r : RoleResource)
    → same_resource r (resource_from_atlas (resource_to_atlas r)) ≡ is_full_resource r
same_resource_back r =
    rw (same_flag_back r.cluster, same_text_back r.database, same_text_back r.collection) refl

-- A list whose elements come back the same as far as `full` tells.
same_lists_back :
    {A B : Type 0} (same : A → A → Bool) (there : A → B) (back : B → A) (full : A → Bool)
    → ((x : A) → same x (back (there x)) ≡ full x)
    → (xs : List A) → same_lists same xs (map back (map there xs)) ≡ every full xs
same_lists_back same there back full h [] = refl
same_lists_back same there back full h (x ∷ xs) =
    rw (h x, same_lists_back same there back full h xs) refl

same_slice_back :
    {A B : Type 0} (same : A → A → Bool) (there : A → B) (back : B → A) (full : A → Bool)
    → ((x : A) → same x (back (there x)) ≡ full x)
    → (o : Option (List A))
    → same_slices same o (some (map back (map there (elements o))))
      ≡ (is_some o && every full (elements o))
same_slice_back same there back full h none = refl
same_slice_back same there back full h (some xs) = same_lists_back same there back full h xs

same_action_back :
    (a : RoleAction) → same_action a (action_from_atlas (action_to_atlas a)) ≡ is_full_action a
same_action_back a =
    rw
      (
        eq_refl a.name,
        same_slice_back same_resource resource_to_atlas resource_from_atlas is_full_resource
            same_resource_back a.resources,
      )
      refl

same_inherited_back :
    (r : InheritedRole) → same_inherited r (inherited_from_atlas (inherited_to_atlas r)) ≡ true
same_inherited_back r = rw (eq_refl r.name, eq_refl r.database) refl

every-true : {A : Type 0} (xs : List A) → every (λ x. true) xs ≡ true
every-true [] = refl
every-true (x ∷ xs) = every-true xs

-- The operator finds a role equal to what Atlas answers for it, if Atlas answers what the operator
-- wrote, exactly when every slice of the role is made and every pointer of its resources is set.
pub same_role_back :
    (r : CustomRole) → same_role r (role_from_atlas (role_to_atlas r)) ≡ is_full_role r
unfolding same_role role_from_atlas role_to_atlas to_atlas_actions to_atlas_inherited_roles
same_role_back r =
    rw
      (
        eq_refl r.name,
        same_slice_back same_inherited inherited_to_atlas inherited_from_atlas (λ x. true)
            same_inherited_back r.inherited_roles,
        same_slice_back same_action action_to_atlas action_from_atlas is_full_action
            same_action_back r.actions,
        every-true (elements r.inherited_roles),
      )
      (ground arith)
