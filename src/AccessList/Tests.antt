-- ===== src/AccessList/Tests.antt =====
-- Runs of the access list's controller and conversions.
use mongodb_atlas_kubernetes.Base.{
  ℕ, inl, ◌≡◌, ◌⊎◌, ◌≢◌, refl, subst, String, true, false, Option, none, some, [], ◌∷◌, All, concat,
}
use mongodb_atlas_kubernetes.Base.Int.{pos}
use mongodb_atlas_kubernetes.Base.Errors.{plain, ok, err}
use mongodb_atlas_kubernetes.Collection.{map_diff}
use mongodb_atlas_kubernetes.Workflow.Context.{new_context}
use mongodb_atlas_kubernetes.Resource.Finalizer.{finalizer_label, set_finalizer, unset_finalizer}
use mongodb_atlas_kubernetes.Resource.Scene.{patch_finalizers, atlas, KubeClient}
use mongodb_atlas_kubernetes.Resource.Frame.{OnAtlas}
use mongodb_atlas_kubernetes.AccessList.Entries.{
  IpAccessEntry, IpAccessEntries, Net, entry_id, new_ip_access_list_entries,
}
use mongodb_atlas_kubernetes.AccessList.Conversion.{host_address}
use mongodb_atlas_kubernetes.AccessList.Service.{IpAccessListService, lists, deletes}
use mongodb_atlas_kubernetes.AccessList.Controller.{Sim, Request, handle_ip_access_list}
use mongodb_atlas_kubernetes.AccessList.RoundTrip.{IsKeyed, block_of, host_address_wrong}
use mongodb_atlas_kubernetes.AccessList.Safety.{Unwanted}
use mongodb_atlas_kubernetes.AccessList.Released.{IsKept, IsEmptied, released_after_deletes}
use mongodb_atlas_kubernetes.Resource.Policy.{
  Semver, reconciliation_policy_annotation, reconciliation_should_be_skipped,
}
use mongodb_atlas_kubernetes.Resource.Prepare.{validate_resource_version}
use mongodb_atlas_kubernetes.Reconciler.Project.{Cluster, kube_project, resolve_project}
use mongodb_atlas_kubernetes.Reconciler.Credentials.{resolve_connection_config}
use mongodb_atlas_kubernetes.AccessList.Reconcile.{AtlasProvider, Setting, handle_custom_resource}
use mongodb_atlas_kubernetes.AccessList.Whole.{
  IsNone, no_calls_unless_due, reconcile_deletes-Unwanted,
}

abbrev block : String → IpAccessEntry
block cidr = record { cidr = cidr; aws_security_group = ""; delete_after_date = none; comment = "" }

abbrev two_blocks : IpAccessEntries
two_blocks = ("10.0.0.0/8", block "10.0.0.0/8") ∷ ("10.1.0.0/16", block "10.1.0.0/16") ∷ []

two_blocks-IsKeyed : IsKeyed two_blocks
unfolding entry_id
two_blocks-IsKeyed = (refl, refl, (refl, refl, tt))

host_address_wrong_example : host_address (block_of "10.0.0.1" "3") ≢ concat "10.0.0.1" "3"
host_address_wrong_example = host_address_wrong "10.0.0.1" "3" refl

-- The address that stands for 10.0.0.13/32, and the one for 10.0.0.14/32.
host_address_test :
    (host_address "10.0.0.13/32" ≡ "10.0.0.1") × (host_address "10.0.0.14/32" ≡ "10.0.0.14")
unfolding host_address
host_address_test = (refl, refl)

-- Atlas that holds the entries of its state.
abbrev service : IpAccessListService IpAccessEntries
service = record {
  list = (λ w. (ok two_blocks, w));
  add = (λ m w. (none, w));
  delete = (λ e w. (none, w));
  entry_state = (λ e w. (ok "ACTIVE", w));
}

abbrev kube : KubeClient IpAccessEntries
kube = record { patch = (λ fs r w. (ok (record r { finalizers = fs }), w)); now = (λ w. (5, w)) }

abbrev net : Net
net = record { host_network = (λ ip. some ip); cidr_network = ok }

-- The specification keeps the first of the two blocks.
abbrev request : Request
request = record {
  entries =
      record {
        ip_address = "";
        cidr_block = "10.0.0.0/8";
        aws_security_group = "";
        delete_after_date = none;
        comment = "";
      }
      ∷ [];
  has_external_project = false;
  independent_sync_period = pos 0;
}

abbrev wanted : IpAccessEntries
wanted = ("10.0.0.0/8", block "10.0.0.0/8") ∷ []

abbrev start : Option ℕ → Sim IpAccessEntries
start deleted = record {
  world = [];
  meta = record {
    name = "list";
    namespace = "default";
    annotations = [];
    labels = [];
    finalizers = some (finalizer_label ∷ []);
    deletion_timestamp = deleted;
  };
  ctx = new_context [];
  queue = record { active = false; errs = [] };
  calls = [];
}

wanted_entries : new_ip_access_list_entries net request.entries ≡ ok wanted
unfolding new_ip_access_list_entries
wanted_entries = refl

listed-IsKeyed : (w m : IpAccessEntries) → (service.list w).0 ≡ ok m → IsKeyed m
listed-IsKeyed w m e = subst IsKeyed (listed_same e) two_blocks-IsKeyed
  where
    listed_same : {m : IpAccessEntries} → ok two_blocks ≡ ok m → two_blocks ≡ m
    listed_same e = cc

-- The entry that the specification does not have is deleted.
reconcile_test :
    (handle_ip_access_list kube service net request (start none)).1.calls
    ≡ atlas (deletes (block "10.1.0.0/16")) ∷ atlas lists ∷ []
unfolding handle_ip_access_list new_ip_access_list_entries map_diff set_finalizer
reconcile_test = refl

-- Both entries are deleted, and then the finalizer goes.
deletion_test :
    (handle_ip_access_list kube service net request (start (some 4))).1.calls
    ≡ patch_finalizers (some [])
      ∷ atlas (deletes (block "10.1.0.0/16"))
      ∷ atlas (deletes (block "10.0.0.0/8"))
      ∷ atlas lists
      ∷ []
unfolding handle_ip_access_list new_ip_access_list_entries unset_finalizer
deletion_test = refl

-- The cluster, Atlas and the settings around the reconciliation.
abbrev cluster : Cluster IpAccessEntries
cluster = record {
  get_project = (λ key w. (ok (record { atlas_name = "prj"; connection_secret = none }), w));
  get_secret =
      (λ key w. (ok (("orgId", "o") ∷ ("publicApiKey", "u") ∷ ("privateApiKey", "v") ∷ []), w));
}

abbrev provider : AtlasProvider IpAccessEntries
provider = record {
  is_resource_supported = true;
  sdk_client_set = (λ cfg w. (none, w));
  projects = (λ cfg. record {
    project_by_name = (λ name w. (ok (record { project_id = "id"; project_name = name }), w));
    project_by_id = (λ id w. (ok (record { project_id = id; project_name = "prj" }), w));
  });
  access_lists = (λ cfg id. service);
}

abbrev digits : Semver ℕ
digits = record { new_version = (λ text. err (plain text)); compare_version = (λ a b. pos 0) }

abbrev setting : Setting ℕ
setting = record {
  semver = digits;
  operator_version = "2";
  net = net;
  global_secret = ("operator", "key");
  conditions = [];
  connection_secret = none;
  reference = kube_project "" "prj";
  request = request;
}

abbrev skipping : Sim IpAccessEntries
skipping =
    let s = start none in
    record s {
      meta = record (s.meta) { annotations = (reconciliation_policy_annotation, "skip") ∷ [] };
    }

reconcile_deletes-Unwanted_example :
    All
      (OnAtlas (Unwanted wanted))
      (handle_custom_resource kube cluster provider setting (start none)).1.calls
reconcile_deletes-Unwanted_example =
    reconcile_deletes-Unwanted kube cluster provider setting (start none) wanted wanted_entries refl
      (λ cfg id. listed-IsKeyed) tt

-- The whole reconciliation gets as far as the deletion of the entry.
whole_test :
    (handle_custom_resource kube cluster provider setting (start none)).1.calls
    ≡ atlas (deletes (block "10.1.0.0/16")) ∷ atlas lists ∷ []
unfolding handle_custom_resource validate_resource_version resolve_connection_config resolve_project
    handle_ip_access_list new_ip_access_list_entries map_diff set_finalizer
whole_test = refl

no_calls_unless_due_example :
    All (OnAtlas IsNone) (handle_custom_resource kube cluster provider setting skipping).1.calls
unfolding reconciliation_should_be_skipped
no_calls_unless_due_example =
    no_calls_unless_due kube cluster provider setting skipping (inl refl) tt

released_after_deletes_example :
    let o = handle_custom_resource kube cluster provider setting (start (some 4)) in
    IsKept kube cluster provider setting (start (some 4)) o
    ⊎ IsEmptied kube cluster provider setting (start (some 4)) o
unfolding reconciliation_should_be_skipped
released_after_deletes_example =
    released_after_deletes kube cluster provider setting (start (some 4)) 4 refl refl

-- The whole reconciliation gets as far as the entries.
whole_deletion_test :
    (handle_custom_resource kube cluster provider setting (start (some 4))).1.calls
    ≡ (handle_ip_access_list kube service net request (start (some 4))).1.calls
unfolding handle_custom_resource handle_ip_access_list new_ip_access_list_entries unset_finalizer
    validate_resource_version resolve_connection_config resolve_project
whole_deletion_test = refl
