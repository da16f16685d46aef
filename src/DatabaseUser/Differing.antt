-- ===== src/DatabaseUser/Differing.antt =====
-- When the specification of a user and what Atlas answers never agree.
use Prim.Native.String.{compare}
use text.Mathlib.Text.{is_lt}
use mongodb_atlas_kubernetes.Base.{
  ◌≡◌, ◌⊎◌, inl, inr, refl, subst, String, Bool, true, false, not, some, List, [], ◌∷◌, map,
  if◌then◌else◌, is_empty_text, ◌&&◌,
}
use mongodb_atlas_kubernetes.Base.Errors.{Answer, ok, err, ok_injective}
use mongodb_atlas_kubernetes.Validate.Project.{Parsing, Time, parse_iso8601}
use mongodb_atlas_kubernetes.DatabaseUser.Sorting.{insert_sorted, sort_stable, normalize_slice}
use mongodb_atlas_kubernetes.DatabaseUser.Conversion.{
  UserSpec, User, CloudUser, ScopeSpec, label_text, role_text, scope_text, label_from, role_from,
  nil_if_empty, or_empty_list, with_date, normalize_spec, new_user, user_from_atlas,
  scopes_from_atlas, spec_from, as_user, user_with_scopes, same_list, same_slice, equal_specs,
  same_label, same_role_spec,
}

module _ {A : Type 0} (key : A → String) (eq : A → A → Bool) where
  insert_sorted-full : (x : A) (ys : List A) → same_list eq [] (insert_sorted key x ys) ≡ false
  unfolding insert_sorted
  insert_sorted-full x [] = refl
  insert_sorted-full x (y ∷ ys) = chosen (is_lt (compare (key y) (key x)))
    where
      chosen :
          (b : Bool)
          → same_list eq [] (if b then y ∷ insert_sorted key x ys else x ∷ y ∷ ys) ≡ false
      chosen true = refl
      chosen false = refl

  -- An empty slice differs from a list that is nil if it is empty.
  empty_differs :
      (xs : List A) → same_slice eq (some []) ((normalize_slice key (nil_if_empty xs)).0) ≡ false
  unfolding normalize_slice sort_stable
  empty_differs [] = refl
  empty_differs (x ∷ xs) = insert_sorted-full x (sort_stable key xs)

and_false : (b : Bool) → b && false ≡ false
and_false true = refl
and_false false = refl

labels_differ :
    (a b : UserSpec) → same_slice same_label a.labels b.labels ≡ false → equal_specs a b ≡ false
unfolding equal_specs
labels_differ a b h = simp (h, and_false)

roles_differ :
    (a b : UserSpec) → same_slice same_role_spec a.roles b.roles ≡ false → equal_specs a b ≡ false
unfolding equal_specs
roles_differ a b h = simp (h, and_false)

module _ (parsing : Parsing) where
  abbrev SortedFrom : UserSpec → UserSpec → Type 0
  SortedFrom s t =
      (t.labels ≡ (normalize_slice label_text s.labels).0)
      × (t.roles ≡ (normalize_slice role_text s.roles).0)

  normalize_spec-SortedFrom : (s t : UserSpec) → normalize_spec parsing s ≡ ok t → SortedFrom s t
  unfolding normalize_spec
  normalize_spec-SortedFrom s t e = chosen (not (is_empty_text s.delete_after_date)) e
    where
      sorted : UserSpec
      sorted = record s {
        labels = (normalize_slice label_text s.labels).0;
        roles = (normalize_slice role_text s.roles).0;
        scopes = some (or_empty_list ((normalize_slice scope_text s.scopes).0));
      }

      dated : (a : Answer Time) → with_date parsing sorted a ≡ ok t → SortedFrom s t
      dated (ok n) e = subst (SortedFrom s) (ok_injective _ _ e) (refl, refl)
      dated (err x) e = cc

      chosen :
          (b : Bool)
          → (if b
              then with_date parsing sorted (parse_iso8601 parsing s.delete_after_date)
              else ok sorted)
            ≡ ok t
          → SortedFrom s t
      chosen true e = dated (parse_iso8601 parsing s.delete_after_date) e
      chosen false e = subst (SortedFrom s) (ok_injective _ _ e) (refl, refl)

  as_user-SortedFrom :
      (msg p w : String) (s : UserSpec) (a : User)
      → as_user parsing msg p w (normalize_spec parsing s) ≡ ok a
      → SortedFrom s a.spec
  as_user-SortedFrom msg p w s a e = made (normalize_spec parsing s) (normalize_spec-SortedFrom s) e
    where
      made :
          (n : Answer UserSpec)
          → ((t : UserSpec) → n ≡ ok t → SortedFrom s t)
          → as_user parsing msg p w n ≡ ok a
          → SortedFrom s a.spec
      made (ok t) from e = subst (λ u. SortedFrom s u.spec) (ok_injective _ _ e) (from t refl)
      made (err x) from e = cc

  user_from_atlas-SortedFrom :
      (cloud : CloudUser) (a : User)
      → user_from_atlas parsing cloud ≡ ok a
      → SortedFrom (spec_from parsing cloud []) a.spec
  unfolding user_from_atlas
  user_from_atlas-SortedFrom cloud a e =
      scoped (scopes_from_atlas parsing (or_empty_list cloud.cloud_scopes)) e
    where
      scoped :
          (o : Answer (List ScopeSpec))
          → user_with_scopes parsing cloud o ≡ ok a
          → SortedFrom (spec_from parsing cloud []) a.spec
      scoped (ok scopes) e = as_user-SortedFrom _ _ _ (spec_from parsing cloud scopes) a e
      scoped (err x) e = cc

  -- What a specification with an empty slice of labels or of roles is made into is never equal to
  -- what a user in Atlas is made into.
  pub empty_slice_differs :
      (s : UserSpec) (project password : String) (cloud : CloudUser) (own theirs : User)
      → (s.labels ≡ some []) ⊎ (s.roles ≡ some [])
      → new_user parsing s project password ≡ ok own
      → user_from_atlas parsing cloud ≡ ok theirs
      → equal_specs own.spec theirs.spec ≡ false
  unfolding new_user normalize_slice
  empty_slice_differs s project password cloud own theirs empty e e' =
      let (labels, roles) = as_user-SortedFrom _ _ _ s own e in
      let (labels', roles') = user_from_atlas-SortedFrom cloud theirs e' in
      elim empty [
        | inl h ↦ labels_differ own.spec theirs.spec (
            rw (labels, h, labels')
              (empty_differs label_text same_label
                (map (label_from parsing) (or_empty_list cloud.cloud_labels))))
        | inr h ↦ roles_differ own.spec theirs.spec (
            rw (roles, h, roles')
              (empty_differs role_text same_role_spec
                (map (role_from parsing) (or_empty_list cloud.cloud_roles))))
      ]
