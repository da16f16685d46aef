-- ===== src/DatabaseUser/Tests.antt =====
-- Runs of the database user controller.
use Prim.Native.Char.{char}
use Prim.Native.Nat.{pred, zero}
use mongodb_atlas_kubernetes.Base.{
  ◌≡◌, ◌≢◌, ap, inl, refl, is_empty_text, ℕ, suc, String, Bool, true, false, Option, none, some,
  List, [], ◌∷◌, All, str_eq, if◌then◌else◌,
}
use mongodb_atlas_kubernetes.Base.Int.{pos}
use mongodb_atlas_kubernetes.Base.Errors.{plain, Answer, ok, err, error_text}
use mongodb_atlas_kubernetes.Base.Return.{done}
use mongodb_atlas_kubernetes.Workflow.Context.{new_context}
use mongodb_atlas_kubernetes.Resource.Finalizer.{finalizer_label, unset_finalizer}
use mongodb_atlas_kubernetes.Resource.Scene.{patch_finalizers, atlas}
use mongodb_atlas_kubernetes.Resource.Frame.{OnAtlas}
use mongodb_atlas_kubernetes.Validate.Project.{Parsing, Time}
use mongodb_atlas_kubernetes.DatabaseUser.Conversion.{
  User, UserSpec, CloudUser, ScopeSpec, equal_specs, new_user, user_from_atlas, user_to_atlas,
}
use mongodb_atlas_kubernetes.DatabaseUser.Service.{
  get_user, UsersApi, UserSim, gets_user, deletes_user,
}
use mongodb_atlas_kubernetes.DatabaseUser.Controller.{UserRequest, UserParts}
use mongodb_atlas_kubernetes.DatabaseUser.Lifecycle.{dbu_life_cycle}
use mongodb_atlas_kubernetes.DatabaseUser.Reconcile.{UserProvider, reconcile_database_user}
use mongodb_atlas_kubernetes.DatabaseUser.Deleting.{MayCall}
use mongodb_atlas_kubernetes.DatabaseUser.Whole.{user_deletions}
use mongodb_atlas_kubernetes.Reconciler.Project.{Cluster, kube_project, resolve_project}
use mongodb_atlas_kubernetes.Reconciler.Credentials.{ConnectionConfig, resolve_connection_config}
use mongodb_atlas_kubernetes.Reconciler.Reaching.{Resolves}
use mongodb_atlas_kubernetes.Resource.Policy.{
  reconciliation_should_be_skipped, resource_version_is_valid,
}
use mongodb_atlas_kubernetes.Reconciler.Passage.{PassageSetting}
use mongodb_atlas_kubernetes.DatabaseUser.Blocked.{missing_scope_blocks}
use mongodb_atlas_kubernetes.DatabaseUser.Translation.{own_layout, ReadsBack, user_from-to_atlas}
use mongodb_atlas_kubernetes.DatabaseUser.Differing.{empty_slice_differs}

abbrev parsing : Parsing
parsing = record {
  is_cidr = (λ t. true);
  is_ip = (λ t. true);
  parse_time = (λ layout t. err (plain "no time"));
  format_time = (λ layout t. "");
}

abbrev no_time : ℕ → String
no_time t = ""

abbrev spec : Option (List ScopeSpec) → UserSpec
spec scopes = record {
  database_name = "admin";
  delete_after_date = "";
  description = "";
  labels = some [];
  roles = none;
  scopes = scopes;
  username = "ann";
  oidc_auth_type = "";
  aws_iam_type = "";
  x509_type = "";
}

abbrev in_atlas : String → CloudUser
in_atlas name = record {
  cloud_database = "admin";
  cloud_delete_after = none;
  cloud_description = some "";
  cloud_labels = none;
  cloud_roles = none;
  cloud_scopes = some [];
  cloud_username = name;
  cloud_oidc = none;
  cloud_aws_iam = none;
  cloud_x509 = none;
  cloud_password = none;
  cloud_group = "p1";
}

abbrev got : Bool → Answer CloudUser
got true = ok (in_atlas "ann")
got false = err (plain "USERNAME_NOT_FOUND")

abbrev users : UsersApi ℕ
users = record {
  get_database_user = (λ db name w. (got (str_eq name "ann"), w));
  delete_database_user = (λ db name w. (none, suc w));
  create_database_user = (λ u w. (none, suc w));
  update_database_user = (λ db name u w. (none, suc w));
  is_api_code = (λ e code. str_eq (error_text e) code);
}

abbrev parts : UserParts ℕ
parts = record {
  kube = record { patch = (λ fs r w. (ok (record r { finalizers = fs }), w)); now = (λ w. (w, w)) };
  parsing = parsing;
  show_int = no_time;
  users = users;
  deployments = record {
    list_deployment_names = (λ w. (ok [], w));
    cluster_exists = (λ name w. (ok (str_eq name "live"), w));
    deployment_is_ready = (λ name w. (ok true, w));
  };
  secrets = record {
    read_secret = (λ name w. (ok (("password", "x") ∷ [], "7"), w));
    remove_stale = (λ name w. (none, w));
    reap_orphans = (λ names w. (none, w));
    write_connection = (λ w. (none, w));
    apply_last_config = (λ r w. (none, w));
  };
}

abbrev request : UserSpec → String → UserRequest
request s old = record {
  project_id = "p1";
  spec = s;
  password_secret = none;
  status_name = old;
  status_password_version = "";
  has_external_project = false;
  independent_sync_period = pos 0;
  object_deletion_protection = false;
}

abbrev start : Option ℕ → UserSim ℕ
start deleted = record {
  world = 0;
  meta = record {
    name = "user";
    namespace = "default";
    annotations = [];
    labels = [];
    finalizers = some (finalizer_label ∷ []);
    deletion_timestamp = deleted;
  };
  ctx = new_context [];
  queue = record { active = false; errs = [] };
  calls = [];
}

abbrev lost_scope : ScopeSpec
lost_scope = record { scope_name = "gone"; scope_type = "CLUSTER" }

-- The cluster, Atlas and the settings around the reconciliation.
abbrev cluster : Cluster ℕ
cluster = record {
  get_project = (λ key w. (ok (record { atlas_name = "prj"; connection_secret = none }), w));
  get_secret =
      (λ key w. (ok (("orgId", "o") ∷ ("publicApiKey", "u") ∷ ("privateApiKey", "v") ∷ []), w));
}

abbrev provider : UserProvider ℕ
provider = record {
  is_user_supported = true;
  make_clients = (λ cfg w. (none, w));
  projects_of = (λ cfg. record {
    project_by_name = (λ name w. (ok (record { project_id = "p1"; project_name = name }), w));
    project_by_id = (λ id w. (ok (record { project_id = id; project_name = "prj" }), w));
  });
  parts_of = (λ cfg id. parts);
}

abbrev setting : PassageSetting ℕ
setting = record {
  semver = record { new_version = (λ text. err (plain text)); compare_version = (λ a b. pos 0) };
  operator_version = "2";
  global_secret = ("operator", "key");
  conditions = [];
  connection_secret = none;
  reference = kube_project "" "prj";
}

user_deletions_example :
    All
      (OnAtlas (MayCall (request (spec none) "") (start (some 1)).meta))
      (reconcile_database_user parts.kube cluster provider setting
        (request (spec none) "")
        (start (some 1))).1.calls
user_deletions_example =
    user_deletions parts.kube cluster provider setting (request (spec none) "") (start (some 1)) tt

-- A user is deleted in Atlas, and then the finalizer goes.
deleted_user_test :
    (reconcile_database_user parts.kube cluster provider setting
      (request (spec none) "")
      (start (some 1))).1.calls
    ≡ patch_finalizers (some [])
      ∷ atlas (deletes_user "admin" "ann")
      ∷ atlas (gets_user "admin" "ann")
      ∷ []
unfolding reconcile_database_user unset_finalizer
deleted_user_test = refl

-- The user who was renamed is deleted under the old name, once the new one is there.
renamed_user_test :
    let o =
      dbu_life_cycle parts (request (record (spec none) { username = "bob" }) "ann") (start none) in
    o.1.world ≡ 2
unfolding dbu_life_cycle
renamed_user_test = refl

abbrev config : ConnectionConfig
config = record { org_id = "o"; public_key = "u"; private_key = "v" }

resolves :
    Resolves cluster setting "default" provider.make_clients provider.projects_of config
      (record { project_id = "p1"; project_name = "prj" })
unfolding resolve_connection_config resolve_project
resolves = record { config_known = λ w. refl; client_made = λ w. refl; project_known = λ w. refl }

missing_scope_blocks_example :
    let lost = request (spec (some (lost_scope ∷ []))) "" in
    let o = reconcile_database_user parts.kube cluster provider setting lost (start (some 1)) in
    (o.0 ≡ done)
    × (o.1.calls ≡ atlas (gets_user "admin" "ann") ∷ [])
    × (o.1.meta ≡ (start (some 1)).meta)
unfolding reconciliation_should_be_skipped resource_version_is_valid get_user
missing_scope_blocks_example =
    missing_scope_blocks parts.kube cluster provider setting
      (request (spec (some (lost_scope ∷ []))) "") config
      (record { project_id = "p1"; project_name = "prj" }) (λ n. str_eq n "live")
      (record {
        spec = record (spec (some [])) { labels = none };
        password = "";
        project_id = "p1";
      })
      (start (some 1)) refl refl refl resolves refl (λ u. refl) (λ n w. refl) refl

empty_slice_differs_example :
    equal_specs (spec (some [])) (record (spec (some [])) { labels = none }) ≡ false
unfolding new_user user_from_atlas
empty_slice_differs_example =
    empty_slice_differs parsing (spec none) "p1" "" (in_atlas "ann")
      (record { spec = spec (some []); password = ""; project_id = "p1" })
      (record {
        spec = record (spec (some [])) { labels = none };
        password = "";
        project_id = "p1";
      })
      (inl refl) refl refl

-- A time as a text: so many letters and one more.
abbrev count : String → ℕ
count String.[] = 0
count (String.◌∷◌ c t) = suc (count t)

abbrev tally : ℕ → String
tally zero = "t"
tally (suc n) = String.◌∷◌ (char 116 tt) (tally n)

abbrev half : ℕ → ℕ
half zero = 0
half (suc zero) = 0
half (suc (suc n)) = suc (half n)

abbrev double : ℕ → ℕ
double zero = 0
double (suc n) = suc (suc (double n))

abbrev moment : ℕ → Time
moment n = record { instant = n; zone = pos 0 }

-- Half of a time is lost when it is shown.
abbrev tallies : Parsing
tallies = record parsing {
  parse_time = (λ layout t.
      if str_eq layout own_layout
      then ok (moment (double (pred (count t))))
      else err (plain "another layout"));
  format_time = (λ layout t. tally (half t.instant));
}

count-tally : (n : ℕ) → count (tally n) ≡ suc n
count-tally zero = refl
count-tally (suc n) = ap suc (count-tally n)

half-double : (n : ℕ) → half (double n) ≡ n
half-double zero = refl
half-double (suc n) = ap suc (half-double n)

is_empty_text-tally : (n : ℕ) → is_empty_text (tally n) ≡ false
is_empty_text-tally zero = refl
is_empty_text-tally (suc n) = refl

tallies-ReadsBack : ReadsBack tallies
tallies-ReadsBack = record {
  unfit = λ t h. ((_, refl), ((_, refl), ((_, refl), ((_, refl), ((_, refl), tt)))));
  filled = λ t h. is_empty_text-tally (half t.instant);
  again = λ t h. (
    moment (double (half t.instant)),
    ap (λ k. ok (moment (double (pred k)))) (count-tally (half t.instant)),
    ap tally (half-double (half t.instant)),
  );
}

abbrev dated_spec : UserSpec
dated_spec = record (spec none) {
  delete_after_date = "ttt";
  labels = some (
      record { label_key = "b"; label_value = "1" }
      ∷ record { label_key = "a"; label_value = "1" }
      ∷ []);
  roles = some (record { role_name = "read"; role_database = "db"; collection_name = "" } ∷ []);
}

abbrev dated_user : User
dated_user = record {
  spec = record dated_spec {
    labels = some (
        record { label_key = "a"; label_value = "1" }
        ∷ record { label_key = "b"; label_value = "1" }
        ∷ []);
    scopes = some [];
  };
  password = "x";
  project_id = "p1";
}

abbrev sent_user : CloudUser
sent_user = record (in_atlas "ann") {
  cloud_delete_after = some (moment 4);
  cloud_labels = some ((some "a", some "1") ∷ (some "b", some "1") ∷ []);
  cloud_roles = some (
      record { atlas_role_name = "read"; atlas_role_database = "db"; atlas_collection = none }
      ∷ []);
  cloud_password = some "x";
}

user_from-to_atlas_example : user_from_atlas tallies sent_user ≡ ok dated_user
unfolding new_user user_to_atlas
user_from-to_atlas_example =
    user_from-to_atlas tallies tallies-ReadsBack dated_spec "p1" "x" dated_user sent_user refl
      labels roles tt refl
  where
    labels : dated_user.spec.labels ≢ some []
    labels e = cc

    roles : dated_user.spec.roles ≢ some []
    roles e = cc
