-- ===== src/AccessList/Whole.antt =====
-- What the whole reconciliation of an access list does to Atlas.
use mongodb_atlas_kubernetes.Base.{◌≡◌, ◌≢◌, ◌⊎◌, ◌∙◌, inl, inr, ap, String, true, false, none, All}
use mongodb_atlas_kubernetes.Base.Errors.{ok}
use mongodb_atlas_kubernetes.Resource.Policy.{
  resource_version_is_valid, reconciliation_should_be_skipped,
}
use mongodb_atlas_kubernetes.Resource.Scene.{KubeClient}
use mongodb_atlas_kubernetes.Resource.Frame.{OnAtlas}
use mongodb_atlas_kubernetes.Reconciler.Project.{Cluster}
use mongodb_atlas_kubernetes.Reconciler.Credentials.{ConnectionConfig}
use mongodb_atlas_kubernetes.AccessList.Entries.{IpAccessEntries, new_ip_access_list_entries}
use mongodb_atlas_kubernetes.AccessList.Service.{ServiceCall}
use mongodb_atlas_kubernetes.AccessList.Controller.{Sim}
use mongodb_atlas_kubernetes.AccessList.RoundTrip.{IsKeyed}
use mongodb_atlas_kubernetes.AccessList.Safety.{Unwanted, deletes_only-Unwanted}
use mongodb_atlas_kubernetes.AccessList.Reconcile.{AtlasProvider, Setting, handle_custom_resource}
use mongodb_atlas_kubernetes.AccessList.Passage.{whole-Keeps}

-- No call at all.
abbrev pub IsNone : ServiceCall → Type 0
IsNone a = ⊥

module _ {W V : Type 0} (kube : KubeClient W) (cluster : Cluster W) (provider : AtlasProvider W)
    (setting : Setting V) (s : Sim W) where
  -- If the resource is skipped by its annotation, or its version is not valid, or the Atlas domain
  -- does not support it, the whole reconciliation makes no call to the access list service. It is
  -- assumed of the calls before it.
  pub no_calls_unless_due :
      (reconciliation_should_be_skipped s.meta ≡ true)
        ⊎ ((resource_version_is_valid setting.semver setting.operator_version s.meta ≢ ok true)
            ⊎ (provider.is_resource_supported ≡ false))
      → All (OnAtlas IsNone) s.calls
      → All (OnAtlas IsNone) (handle_custom_resource kube cluster provider setting s).1.calls
  no_calls_unless_due k h =
      whole-Keeps IsNone kube cluster provider setting s
        (λ a b c cfg id t e g. elim (against k a b c) [ ]) h
    where
      against :
          (reconciliation_should_be_skipped s.meta ≡ true)
            ⊎ ((resource_version_is_valid setting.semver setting.operator_version s.meta ≢ ok true)
                ⊎ (provider.is_resource_supported ≡ false))
          → reconciliation_should_be_skipped s.meta ≡ false
          → resource_version_is_valid setting.semver setting.operator_version s.meta ≡ ok true
          → provider.is_resource_supported ≡ true
          → ⊥
      against (inl e) a b c = cc
      against (inr (inl e)) a b c = e b
      against (inr (inr e)) a b c = cc

  -- If the resource has no deletion timestamp, its specification reads as `wanted`, and the entries
  -- that the service of any project lists stand under their own identifiers, then every entry that
  -- the whole reconciliation deletes from Atlas has an identifier that `wanted` does not have. It
  -- is assumed of the calls before it.
  pub reconcile_deletes-Unwanted :
      (wanted : IpAccessEntries)
      → new_ip_access_list_entries setting.net setting.request.entries ≡ ok wanted
      → s.meta.deletion_timestamp ≡ none
      → ((cfg : ConnectionConfig) (id : String) (w : W) (m : IpAccessEntries)
          → ((provider.access_lists cfg id).list w).0 ≡ ok m
          → IsKeyed m)
      → All (OnAtlas (Unwanted wanted)) s.calls
      → All
          (OnAtlas (Unwanted wanted))
          (handle_custom_resource kube cluster provider setting s).1.calls
  reconcile_deletes-Unwanted wanted w d keyed h =
      whole-Keeps (Unwanted wanted) kube cluster provider setting s
        (λ a b c cfg id t e g.
          deletes_only-Unwanted kube (provider.access_lists cfg id) setting.net setting.request
            wanted t w (ap (λ r. r.deletion_timestamp) e ∙ d) (keyed cfg id) g)
        h
