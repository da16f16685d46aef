-- ===== src/DatabaseUser/Conversion.antt =====
-- internal/translation/dbuser/conversion.go. A Go slice may be nil, which reflect.DeepEqual tells
-- from an empty one: `none` is nil.
use mongodb_atlas_kubernetes.Base.{
  String, Bool, true, false, not, Option, none, some, List, [], ◌∷◌, map, if◌then◌else◌, str_eq,
  is_empty_text, concat, ◌&&◌, ◌||◌,
}
use mongodb_atlas_kubernetes.Base.Errors.{GoError, plain, wrap, Answer, ok, err}
use mongodb_atlas_kubernetes.NetworkContainer.Conversion.{set_or_nil, get_text}
use mongodb_atlas_kubernetes.NetworkPeering.Conversion.{quoted}
use mongodb_atlas_kubernetes.Validate.Project.{Parsing, Time, parse_iso8601, format_iso8601}
use mongodb_atlas_kubernetes.DatabaseUser.Sorting.{normalize_slice}

pub record LabelSpec : Type 0 where
  pub label_key : String
  pub label_value : String

pub record RoleSpec : Type 0 where
  pub role_name : String
  pub role_database : String
  pub collection_name : String

pub record ScopeSpec : Type 0 where
  pub scope_name : String
  pub scope_type : String

-- AtlasDatabaseUserSpec, without the references that the comparison clears.
pub record UserSpec : Type 0 where
  pub database_name : String
  pub delete_after_date : String
  pub description : String
  pub labels : Option (List LabelSpec)
  pub roles : Option (List RoleSpec)
  pub scopes : Option (List ScopeSpec)
  pub username : String
  pub oidc_auth_type : String
  pub aws_iam_type : String
  pub x509_type : String

pub record User : Type 0 where
  pub spec : UserSpec
  pub password : String
  pub project_id : String

-- admin.CloudDatabaseUser, as far as it is read
pub record AtlasRole : Type 0 where
  pub atlas_role_name : String
  pub atlas_role_database : String
  pub atlas_collection : Option String

pub record CloudUser : Type 0 where
  pub cloud_database : String
  pub cloud_delete_after : Option Time
  pub cloud_description : Option String
  pub cloud_labels : Option (List (Option String × Option String))
  pub cloud_roles : Option (List AtlasRole)
  pub cloud_scopes : Option (List ScopeSpec)
  pub cloud_username : String
  pub cloud_oidc : Option String
  pub cloud_aws_iam : Option String
  pub cloud_x509 : Option String
  pub cloud_password : Option String
  pub cloud_group : String

abbrev pub label_text : LabelSpec → String
label_text l = concat l.label_key l.label_value

abbrev pub role_text : RoleSpec → String
role_text r = concat r.role_name (concat r.role_database r.collection_name)

abbrev pub scope_text : ScopeSpec → String
scope_text s = concat s.scope_name s.scope_type

abbrev pub or_empty_list {ℓ} : {A : Type ℓ} → Option (List A) → List A
or_empty_list none = []
or_empty_list (some xs) = xs

-- A list that is nil if there is nothing in it.
abbrev pub nil_if_empty {ℓ} : {A : Type ℓ} → List A → Option (List A)
nil_if_empty [] = none
nil_if_empty (x ∷ xs) = some (x ∷ xs)

module _ (parsing : Parsing) where
  abbrev pub cannot_parse : String → GoError → GoError
  cannot_parse d e = wrap (concat "failed to parse " (concat (quoted d) " to an ISO date")) e

  abbrev pub with_date : UserSpec → Answer Time → Answer UserSpec
  with_date s (ok t) = ok (record s { delete_after_date = format_iso8601 parsing t })
  with_date s (err e) = err (cannot_parse s.delete_after_date e)

  -- What NormalizeSlice returns is dropped.
  unfoldable pub normalize_spec : UserSpec → Answer UserSpec
  unfolding normalize_slice parse_iso8601 format_iso8601
  normalize_spec s =
      let sorted = record s {
        labels = (normalize_slice label_text s.labels).0;
        roles = (normalize_slice role_text s.roles).0;
        scopes = some (or_empty_list ((normalize_slice scope_text s.scopes).0));
      } in
      if not (is_empty_text s.delete_after_date)
      then with_date sorted (parse_iso8601 parsing s.delete_after_date)
      else ok sorted

  abbrev pub as_user : String → String → String → Answer UserSpec → Answer User
  as_user msg project password (ok s) =
      ok (record { spec = s; password = password; project_id = project })
  as_user msg project password (err e) = err (wrap msg e)

  unfoldable pub new_user : UserSpec → String → String → Answer User
  unfolding normalize_spec
  new_user s project password =
      as_user "failed to create internal user type" project password (normalize_spec s)

  abbrev pub date_from_atlas : Option Time → String
  date_from_atlas none = ""
  date_from_atlas (some t) = format_iso8601 parsing t

  abbrev pub is_scope_type : String → Bool
  is_scope_type t = str_eq t "CLUSTER" || str_eq t "DATA_LAKE"

  abbrev pub add_scope : ScopeSpec → Answer (List ScopeSpec) → Answer (List ScopeSpec)
  add_scope s (ok more) = ok (s ∷ more)
  add_scope s (err e) = err e

  unfoldable pub scopes_from_atlas : List ScopeSpec → Answer (List ScopeSpec)
  scopes_from_atlas [] = ok []
  scopes_from_atlas (s ∷ rest) =
      let more = scopes_from_atlas rest in
      if is_scope_type s.scope_type
      then add_scope s more
      else err (
          wrap "failed to parse atlas scopes"
            (plain (concat "unsupported scope type " s.scope_type)))

  abbrev pub role_from : AtlasRole → RoleSpec
  role_from r = record {
    role_name = r.atlas_role_name;
    role_database = r.atlas_role_database;
    collection_name = get_text r.atlas_collection;
  }

  abbrev pub role_to : RoleSpec → AtlasRole
  role_to r = record {
    atlas_role_name = r.role_name;
    atlas_role_database = r.role_database;
    atlas_collection = set_or_nil r.collection_name;
  }

  abbrev pub label_from : Option String × Option String → LabelSpec
  label_from (key, value) = record { label_key = get_text key; label_value = get_text value }

  abbrev pub label_to : LabelSpec → Option String × Option String
  label_to l = (some l.label_key, some l.label_value)

  -- the lists of fromAtlas, before they are normalised
  abbrev pub spec_from : CloudUser → List ScopeSpec → UserSpec
  spec_from u scopes = record {
    database_name = u.cloud_database;
    delete_after_date = date_from_atlas u.cloud_delete_after;
    description = get_text u.cloud_description;
    labels = nil_if_empty (map label_from (or_empty_list u.cloud_labels));
    roles = nil_if_empty (map role_from (or_empty_list u.cloud_roles));
    scopes = some scopes;
    username = u.cloud_username;
    oidc_auth_type = get_text u.cloud_oidc;
    aws_iam_type = get_text u.cloud_aws_iam;
    x509_type = get_text u.cloud_x509;
  }

  abbrev pub user_with_scopes : CloudUser → Answer (List ScopeSpec) → Answer User
  user_with_scopes u (err e) = err (wrap "failed to parse scopes" e)
  user_with_scopes u (ok scopes) =
      as_user "failed to normalize spec from Atlas" u.cloud_group (get_text u.cloud_password)
        (normalize_spec (spec_from u scopes))

  unfoldable pub user_from_atlas : CloudUser → Answer User
  unfolding scopes_from_atlas normalize_spec
  user_from_atlas u = user_with_scopes u (scopes_from_atlas (or_empty_list u.cloud_scopes))

  abbrev pub with_cloud_date : User → Answer (Option Time) → Answer CloudUser
  with_cloud_date u (err e) = err (wrap "failed to parse deleteAfterDate value" e)
  with_cloud_date u (ok date) = ok (record {
    cloud_database = u.spec.database_name;
    cloud_delete_after = date;
    cloud_description = some u.spec.description;
    cloud_labels = nil_if_empty (map label_to (or_empty_list u.spec.labels));
    cloud_roles = nil_if_empty (map role_to (or_empty_list u.spec.roles));
    cloud_scopes = some (or_empty_list u.spec.scopes);
    cloud_username = u.spec.username;
    cloud_oidc = set_or_nil u.spec.oidc_auth_type;
    cloud_aws_iam = set_or_nil u.spec.aws_iam_type;
    cloud_x509 = set_or_nil u.spec.x509_type;
    cloud_password = set_or_nil u.password;
    cloud_group = u.project_id;
  })

  abbrev pub some_date : String → Answer Time → Answer (Option Time)
  some_date d (ok t) = ok (some t)
  some_date d (err e) = err (cannot_parse d e)

  unfoldable pub date_to_atlas : String → Answer (Option Time)
  unfolding parse_iso8601
  date_to_atlas d = if is_empty_text d then ok none else some_date d (parse_iso8601 parsing d)

  unfoldable pub user_to_atlas : User → Answer CloudUser
  unfolding date_to_atlas
  user_to_atlas u = with_cloud_date u (date_to_atlas u.spec.delete_after_date)

abbrev pub same_list {ℓ} : {A : Type ℓ} → (A → A → Bool) → List A → List A → Bool
same_list eq [] [] = true
same_list eq (x ∷ xs) (y ∷ ys) = eq x y && same_list eq xs ys
same_list eq [] (y ∷ ys) = false
same_list eq (x ∷ xs) [] = false

-- nil is not deeply equal to an empty slice
abbrev pub same_slice {ℓ} : {A : Type ℓ} → (A → A → Bool) → Option (List A) → Option (List A) → Bool
same_slice eq none none = true
same_slice eq (some xs) (some ys) = same_list eq xs ys
same_slice eq none (some ys) = false
same_slice eq (some xs) none = false

abbrev pub same_label : LabelSpec → LabelSpec → Bool
same_label a b = str_eq a.label_key b.label_key && str_eq a.label_value b.label_value

abbrev pub same_role_spec : RoleSpec → RoleSpec → Bool
same_role_spec a b =
    str_eq a.role_name b.role_name
    && str_eq a.role_database b.role_database
    && str_eq a.collection_name b.collection_name

abbrev pub same_scope : ScopeSpec → ScopeSpec → Bool
same_scope a b = str_eq a.scope_name b.scope_name && str_eq a.scope_type b.scope_type

-- EqualSpecs, of two users that have a specification
unfoldable pub equal_specs : UserSpec → UserSpec → Bool
equal_specs a b =
    str_eq a.database_name b.database_name
    && str_eq a.delete_after_date b.delete_after_date
    && str_eq a.description b.description
    && same_slice same_label a.labels b.labels
    && same_slice same_role_spec a.roles b.roles
    && same_slice same_scope a.scopes b.scopes
    && str_eq a.username b.username
    && str_eq a.oidc_auth_type b.oidc_auth_type
    && str_eq a.aws_iam_type b.aws_iam_type
    && str_eq a.x509_type b.x509_type
