-- ===== src/CustomRole/Conversion.antt =====
-- internal/translation/customroles/conversion.go, and reflect.DeepEqual on the roles. A slice of Go
-- that is nil is none here, since DeepEqual tells it from an empty one.
use mongodb_atlas_kubernetes.Base.{
  String, Bool, true, false, Option, none, some, List, [], ◌∷◌, map, ◌&&◌, str_eq,
}

-- akov2.Resource, Action, Role and CustomRole
pub record RoleResource : Type 0 where
  pub cluster : Option Bool
  pub database : Option String
  pub collection : Option String

pub record RoleAction : Type 0 where
  pub name : String
  pub resources : Option (List RoleResource)

pub record InheritedRole : Type 0 where
  pub name : String
  pub database : String

pub record CustomRole : Type 0 where
  pub name : String
  pub inherited_roles : Option (List InheritedRole)
  pub actions : Option (List RoleAction)

-- admin.DatabasePermittedNamespaceResource, DatabasePrivilegeAction, DatabaseInheritedRole and
-- UserCustomDBRole
pub record AtlasResource : Type 0 where
  pub collection : String
  pub db : String
  pub cluster : Bool

pub record AtlasAction : Type 0 where
  pub action : String
  pub resources : Option (List AtlasResource)

pub record AtlasInheritedRole : Type 0 where
  pub db : String
  pub role : String

pub record AtlasRole : Type 0 where
  pub role_name : String
  pub actions : Option (List AtlasAction)
  pub inherited_roles : Option (List AtlasInheritedRole)

-- The elements of a slice, which a nil one does not have.
abbrev pub elements : {A : Type 0} → Option (List A) → List A
elements none = []
elements (some xs) = xs

abbrev pub text_or : Option String → String → String
text_or none default = default
text_or (some t) default = t

abbrev pub flag_or : Option Bool → Bool → Bool
flag_or none default = default
flag_or (some b) default = b

abbrev pub resource_to_atlas : RoleResource → AtlasResource
resource_to_atlas r = record {
  collection = text_or r.collection "";
  db = text_or r.database "";
  cluster = flag_or r.cluster false;
}

abbrev pub action_to_atlas : RoleAction → AtlasAction
action_to_atlas a = record {
  action = a.name;
  resources = some (map resource_to_atlas (elements a.resources));
}

unfoldable pub to_atlas_actions : CustomRole → List AtlasAction
to_atlas_actions role = map action_to_atlas (elements role.actions)

abbrev pub inherited_to_atlas : InheritedRole → AtlasInheritedRole
inherited_to_atlas r = record { db = r.database; role = r.name }

unfoldable pub to_atlas_inherited_roles : CustomRole → List AtlasInheritedRole
to_atlas_inherited_roles role = map inherited_to_atlas (elements role.inherited_roles)

unfoldable pub role_to_atlas : CustomRole → AtlasRole
unfolding to_atlas_actions to_atlas_inherited_roles
role_to_atlas role = record {
  role_name = role.name;
  actions = some (to_atlas_actions role);
  inherited_roles = some (to_atlas_inherited_roles role);
}

-- A loop that fills a slice made for it, and that does not run on nil.
abbrev pub map_slice : {A B : Type 0} → (A → B) → Option (List A) → Option (List B)
map_slice f none = none
map_slice f (some xs) = some (map f xs)

abbrev pub resource_from_atlas : AtlasResource → RoleResource
resource_from_atlas r = record {
  cluster = some r.cluster;
  database = some r.db;
  collection = some r.collection;
}

abbrev pub action_from_atlas : AtlasAction → RoleAction
action_from_atlas a = record {
  name = a.action;
  resources = map_slice resource_from_atlas a.resources;
}

abbrev pub inherited_from_atlas : AtlasInheritedRole → InheritedRole
inherited_from_atlas r = record { name = r.role; database = r.db }

unfoldable pub role_from_atlas : AtlasRole → CustomRole
role_from_atlas role = record {
  name = role.role_name;
  inherited_roles = map_slice inherited_from_atlas role.inherited_roles;
  actions = map_slice action_from_atlas role.actions;
}

-- reflect.DeepEqual on a slice, with the one on its elements.
module _ {A : Type 0} (same : A → A → Bool) where
  abbrev pub same_lists : List A → List A → Bool
  same_lists [] [] = true
  same_lists (x ∷ xs) (y ∷ ys) = same x y && same_lists xs ys
  same_lists _ _ = false

  abbrev pub same_slices : Option (List A) → Option (List A) → Bool
  same_slices none none = true
  same_slices (some xs) (some ys) = same_lists xs ys
  same_slices _ _ = false

  abbrev pub same_pointers : Option A → Option A → Bool
  same_pointers none none = true
  same_pointers (some x) (some y) = same x y
  same_pointers _ _ = false

abbrev pub same_flags : Bool → Bool → Bool
same_flags true true = true
same_flags false false = true
same_flags _ _ = false

abbrev pub same_resource : RoleResource → RoleResource → Bool
same_resource r s =
    same_pointers same_flags r.cluster s.cluster
    && same_pointers str_eq r.database s.database
    && same_pointers str_eq r.collection s.collection

abbrev pub same_action : RoleAction → RoleAction → Bool
same_action a b = str_eq a.name b.name && same_slices same_resource a.resources b.resources

abbrev pub same_inherited : InheritedRole → InheritedRole → Bool
same_inherited r s = str_eq r.name s.name && str_eq r.database s.database

unfoldable pub same_role : CustomRole → CustomRole → Bool
same_role r s =
    str_eq r.name s.name
    && same_slices same_inherited r.inherited_roles s.inherited_roles
    && same_slices same_action r.actions s.actions
