-- ===== src/DatabaseUser/Translation.antt =====
-- A user that is sent to Atlas and read again.
use mongodb_atlas_kubernetes.Base.{
  ◌≡◌, ◌≢◌, ◌∙◌, ◌⊎◌, inl, inr, refl, ap, subst, sym, String, Bool, true, false, not, Option, none,
  some, List, [], ◌∷◌, map, if◌then◌else◌, is_empty_text, All,
}
use mongodb_atlas_kubernetes.Base.Errors.{GoError, Answer, ok, err, ok_injective}
use mongodb_atlas_kubernetes.NetworkContainer.Conversion.{set_or_nil, get_text}
use mongodb_atlas_kubernetes.Validate.Project.{
  Parsing, Time, parse_iso8601, format_iso8601, or_else,
}
use mongodb_atlas_kubernetes.DatabaseUser.Sorting.{sort_stable, normalize_slice}
use mongodb_atlas_kubernetes.DatabaseUser.Sorted.{sort_stable_twice}
use mongodb_atlas_kubernetes.DatabaseUser.Conversion.{
  UserSpec, User, CloudUser, ScopeSpec, RoleSpec, label_text, role_text, scope_text, label_from,
  label_to, role_from, role_to, nil_if_empty, or_empty_list, with_date, normalize_spec, new_user,
  as_user, user_from_atlas, user_to_atlas, with_cloud_date, date_to_atlas, date_from_atlas,
  scopes_from_atlas, is_scope_type, spec_from, user_with_scopes,
}

module _ {A : Type 0} (key : A → String) where
  normalize_some : (xs : List A) → (normalize_slice key (some xs)).0 ≡ some (sort_stable key xs)
  unfolding normalize_slice sort_stable
  normalize_some [] = refl
  normalize_some (x ∷ xs) = refl

  abbrev sorted_slice : Option (List A) → Option (List A)
  sorted_slice l = (normalize_slice key l).0

  normalize_twice : (l : Option (List A)) → sorted_slice (sorted_slice l) ≡ sorted_slice l
  unfolding normalize_slice
  normalize_twice none = refl
  normalize_twice (some xs) =
      rw (normalize_some xs, normalize_some (sort_stable key xs), sort_stable_twice key xs) refl

module _ {A B : Type 0} (f : A → B) (g : B → A) (back : (x : A) → g (f x) ≡ x) where
  map_back : (xs : List A) → map g (map f xs) ≡ xs
  map_back [] = refl
  map_back (x ∷ xs) = rw (back x, map_back xs) refl

  -- A slice that is not empty, or nil, comes back.
  slice_back :
      (l : Option (List A))
      → l ≢ some []
      → nil_if_empty (map g (or_empty_list (nil_if_empty (map f (or_empty_list l))))) ≡ l
  slice_back none h = refl
  slice_back (some []) h = absurd (h refl)
  slice_back (some (x ∷ xs)) h = rw (back x, map_back xs) refl

text_back : (t : String) → get_text (set_or_nil t) ≡ t
text_back String.[] = refl
text_back (String.◌∷◌ c t) = refl

is_empty_text-nil : (t : String) → is_empty_text t ≡ true → t ≡ ""
is_empty_text-nil String.[] h = refl
is_empty_text-nil (String.◌∷◌ c t) h = cc

pair_path : {A B : Type 0} {a b : A} {x y : B} → a ≡ b → x ≡ y → Path (A × B) (a, x) (b, y)
pair_path p q i = (p i, q i)

-- The five layouts that ParseISO8601 tries before the one of FormatISO8601.
abbrev pub other_layouts : List String
other_layouts =
    "2006-01-02T15:04:05-07" ∷ "2006-01-02T15:04:05-07:00" ∷ "2006-01-02T15:04:05" ∷ "2006-01-02"
    ∷ "2006-01-02T15:04:05-0700" ∷ []

abbrev pub own_layout : String
own_layout = "2006-01-02T15:04:05.999Z"

-- What time.Parse answered for some text.
abbrev pub IsRead : Parsing → Time → Type 0
IsRead parsing t = (layout : String) × (text : String) × (parsing.parse_time layout text ≡ ok t)

-- Time.Format and time.Parse in the layout with the Z as a text, at times that were parsed, so that
-- the year has four digits: the other layouts do not fit the text, which is not empty; and the text
-- is read as a time that is shown in the same way, without the zone and what is below a millisecond.
pub record ReadsBack (parsing : Parsing) : Type 0 where
  pub unfit :
      (t : Time)
      → IsRead parsing t
      → All
          (λ l. (e : GoError) × (parsing.parse_time l (parsing.format_time own_layout t) ≡ err e))
          other_layouts
  pub filled :
      (t : Time) → IsRead parsing t → is_empty_text (parsing.format_time own_layout t) ≡ false
  pub again :
      (t : Time)
      → IsRead parsing t
      → (u : Time) × (parsing.parse_time own_layout (parsing.format_time own_layout t) ≡ ok u)
        × (parsing.format_time own_layout u ≡ parsing.format_time own_layout t)

module _ (parsing : Parsing) where
  either_read :
      (a b : Answer Time) (t : Time) → or_else parsing a b ≡ ok t → (a ≡ ok t) ⊎ (b ≡ ok t)
  either_read (ok u) b t h = inl h
  either_read (err e) b t h = inr h

  abbrev Reading : Answer Time → Type 0
  Reading a = (t : Time) → a ≡ ok t → IsRead parsing t

  or_else-Reading : (a b : Answer Time) → Reading a → Reading b → Reading (or_else parsing a b)
  or_else-Reading a b ha hb t h = elim (either_read a b t h) [ inl e ↦ ha t e | inr e ↦ hb t e ]

  -- ParseISO8601 answers what time.Parse answers.
  parse_iso8601-Reading : (d : String) → Reading (parse_iso8601 parsing d)
  unfolding parse_iso8601
  parse_iso8601-Reading d = or_else-Reading _ _ (of "2006-01-02T15:04:05-07") (
      or_else-Reading _ _ (of "2006-01-02T15:04:05-07:00") (
        or_else-Reading _ _ (of "2006-01-02T15:04:05") (
          or_else-Reading _ _ (of "2006-01-02")
            (or_else-Reading _ _ (of "2006-01-02T15:04:05-0700") (of own_layout)))))
    where
      of : (layout : String) → Reading (parsing.parse_time layout d)
      of layout t h = (layout, d, h)

module _ (parsing : Parsing) (back : ReadsBack parsing) where
  abbrev format : Time → String
  format t = format_iso8601 parsing t

  shows : (t : Time) → IsRead parsing t → is_empty_text (format t) ≡ false
  unfolding format_iso8601
  shows t h = back.filled t h

  reads :
      (t : Time)
      → IsRead parsing t
      → (u : Time) × (parse_iso8601 parsing (format t) ≡ ok u) × (format u ≡ format t)
  unfolding parse_iso8601 format_iso8601
  reads t h =
      let ((a, ea), ((b, eb), ((c, ec), ((d, ed), ((e, ee), end))))) = back.unfit t h in
      let (u, read, same) = back.again t h in (u, rw (ea, eb, ec, ed, ee) read, same)

  -- A normalised specification: its lists are sorted and its date, if any, is in the format.
  abbrev IsNormal : UserSpec → Type 0
  IsNormal t =
      (sorted_slice label_text t.labels ≡ t.labels)
      × (sorted_slice role_text t.roles ≡ t.roles)
      × (some (or_empty_list (sorted_slice scope_text t.scopes)) ≡ t.scopes)
      × ((t.delete_after_date ≡ "")
          ⊎ ((n : Time) × IsRead parsing n × (t.delete_after_date ≡ format n)))

  scopes_twice :
      (l : Option (List ScopeSpec))
      → some (
          or_empty_list
            (sorted_slice scope_text (some (or_empty_list (sorted_slice scope_text l)))))
        ≡ some (or_empty_list (sorted_slice scope_text l))
  unfolding normalize_slice
  scopes_twice none = refl
  scopes_twice (some xs) =
      rw
        (
          normalize_some scope_text xs,
          normalize_some scope_text (sort_stable scope_text xs),
          sort_stable_twice scope_text xs,
        )
        refl

  normalize_spec-IsNormal : (s t : UserSpec) → normalize_spec parsing s ≡ ok t → IsNormal t
  unfolding normalize_spec
  normalize_spec-IsNormal s t e = chosen (is_empty_text s.delete_after_date) refl e
    where
      sorted : UserSpec
      sorted = record s {
        labels = sorted_slice label_text s.labels;
        roles = sorted_slice role_text s.roles;
        scopes = some (or_empty_list (sorted_slice scope_text s.scopes));
      }

      dated : (a : Answer Time) → Reading parsing a → with_date parsing sorted a ≡ ok t → IsNormal t
      dated (err x) read k = cc
      dated (ok n) read k = subst IsNormal (ok_injective _ _ k) (
        normalize_twice label_text s.labels,
        normalize_twice role_text s.roles,
        scopes_twice s.scopes,
        inr (n, read n refl, refl),
      )

      chosen :
          (b : Bool)
          → is_empty_text s.delete_after_date ≡ b
          → (if not b
              then with_date parsing sorted (parse_iso8601 parsing s.delete_after_date)
              else ok sorted)
            ≡ ok t
          → IsNormal t
      chosen false h k =
          dated (parse_iso8601 parsing s.delete_after_date)
            (parse_iso8601-Reading parsing s.delete_after_date) k
      chosen true h k = subst IsNormal (ok_injective _ _ k) (
        normalize_twice label_text s.labels,
        normalize_twice role_text s.roles,
        scopes_twice s.scopes,
        inl (is_empty_text-nil s.delete_after_date h),
      )

  IsNormal-normalize_spec : (t : UserSpec) → IsNormal t → normalize_spec parsing t ≡ ok t
  unfolding normalize_spec
  IsNormal-normalize_spec t (labels, roles, scopes, inl d) =
      rw (ap is_empty_text d, labels, roles, scopes) refl
  IsNormal-normalize_spec t (labels, roles, scopes, inr (n, known, d)) =
      let (u, read, same) = reads n known in
      rw
        (
          ap is_empty_text d ∙ shows n known,
          ap (parse_iso8601 parsing) d ∙ read,
          labels,
          roles,
          scopes,
          same ∙ sym d,
        )
        refl

  scopes_back :
      (xs : List ScopeSpec)
      → All (λ x. is_scope_type parsing x.scope_type ≡ true) xs
      → scopes_from_atlas parsing xs ≡ ok xs
  unfolding scopes_from_atlas
  scopes_back [] h = refl
  scopes_back (x ∷ xs) (h, more) = rw (h, scopes_back xs more) refl

  full_slice :
      {A : Type 0} (l : Option (List A)) (xs : List A) → some xs ≡ l → some (or_empty_list l) ≡ l
  full_slice none xs h = cc
  full_slice (some ys) xs h = refl

  made-IsNormal :
      (msg project password : String) (s : UserSpec) (own : User)
      → as_user parsing msg project password (normalize_spec parsing s) ≡ ok own
      → IsNormal own.spec
  made-IsNormal msg project password s own e =
      of (normalize_spec parsing s) (normalize_spec-IsNormal s) e
    where
      of :
          (n : Answer UserSpec)
          → ((t : UserSpec) → n ≡ ok t → IsNormal t)
          → as_user parsing msg project password n ≡ ok own
          → IsNormal own.spec
      of (ok t) normal k = subst (λ u. IsNormal u.spec) (ok_injective _ _ k) (normal t refl)
      of (err x) normal k = cc

  -- What the fields of the user in Atlas stand for.
  abbrev StandsFor : User → CloudUser → Type 0
  StandsFor u c =
      (spec_from parsing c (or_empty_list u.spec.scopes) ≡ u.spec)
      × (c.cloud_scopes ≡ some (or_empty_list u.spec.scopes))
      × (c.cloud_group ≡ u.project_id)
      × (get_text c.cloud_password ≡ u.password)

  sent-StandsFor :
      (u : User) (date : Option Time) (c : CloudUser)
      → IsNormal u.spec
      → u.spec.labels ≢ some []
      → u.spec.roles ≢ some []
      → date_from_atlas parsing date ≡ u.spec.delete_after_date
      → with_cloud_date parsing u (ok date) ≡ ok c
      → StandsFor u c
  sent-StandsFor u date c (_, _, full, _) labels roles shown e =
      subst (StandsFor u) (ok_injective _ _ e) (
        rw
            (
              slice_back (label_to parsing) (label_from parsing) (λ l. refl) u.spec.labels labels,
              slice_back (role_to parsing) (role_from parsing) role_back u.spec.roles roles,
              full_slice u.spec.scopes _ full,
              shown,
              text_back u.spec.oidc_auth_type,
              text_back u.spec.aws_iam_type,
              text_back u.spec.x509_type,
            )
            refl,
        refl,
        refl,
        text_back u.password,
      )
    where
      role_back : (r : RoleSpec) → role_from parsing (role_to parsing r) ≡ r
      role_back r = rw (text_back r.collection_name) refl

  -- A user that is made of a specification, with no empty slice of labels or roles after it and only
  -- scopes of a known type, is read from Atlas as it was sent, if it was converted without an error.
  -- It is assumed that a time is shown as a text that is not empty, that only the layout it is shown
  -- in fits, and that is read as a time shown in the same way, to the millisecond and without a zone.
  pub user_from-to_atlas :
      (s : UserSpec) (project password : String) (own : User) (cloud : CloudUser)
      → new_user parsing s project password ≡ ok own
      → own.spec.labels ≢ some []
      → own.spec.roles ≢ some []
      → All (λ x. is_scope_type parsing x.scope_type ≡ true) (or_empty_list own.spec.scopes)
      → user_to_atlas parsing own ≡ ok cloud
      → user_from_atlas parsing cloud ≡ ok own
  unfolding new_user user_to_atlas user_from_atlas date_to_atlas
  user_from-to_atlas s project password own cloud made labels roles scopes sent = dated (normal.3)
    where
      normal : IsNormal own.spec
      normal = made-IsNormal "failed to create internal user type" project password s own made

      read :
          (date : Option Time)
          → date_from_atlas parsing date ≡ own.spec.delete_after_date
          → date_to_atlas parsing own.spec.delete_after_date ≡ ok date
          → user_from_atlas parsing cloud ≡ ok own
      read date shown known =
          let (spec, listed, group, secret) =
            sent-StandsFor own date cloud normal labels roles shown
              (ap (with_cloud_date parsing own) (sym known) ∙ sent) in
          let scoped =
            ap (λ l. scopes_from_atlas parsing (or_empty_list l)) listed
            ∙ scopes_back (or_empty_list own.spec.scopes) scopes in
          let normalised =
            ap (normalize_spec parsing) spec ∙ IsNormal-normalize_spec own.spec normal in
          ap (user_with_scopes parsing cloud) scoped
          ∙ ap
              (as_user parsing "failed to normalize spec from Atlas" cloud.cloud_group
                (get_text cloud.cloud_password))
              normalised
          ∙ ap (λ o. ok (record { spec = own.spec; password = o.1; project_id = o.0 }))
              (pair_path group secret)

      dated :
          (own.spec.delete_after_date ≡ "")
            ⊎ ((n : Time) × IsRead parsing n × (own.spec.delete_after_date ≡ format n))
          → user_from_atlas parsing cloud ≡ ok own
      dated (inl d) = read none (sym d) (rw (ap is_empty_text d) refl)
      dated (inr (n, known, d)) =
          let (u, parsed, same) = reads n known in
          read (some u) (same ∙ sym d)
            (rw (ap is_empty_text d ∙ shows n known, ap (parse_iso8601 parsing) d ∙ parsed) refl)
