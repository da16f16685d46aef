-- ===== src/Reconciler/Reaching.antt =====
-- That handleCustomResource of a legacy controller gets as far as the controller's own handle.
use mongodb_atlas_kubernetes.Base.{◌≡◌, ◌∙◌, refl, ap, String, true, false, Option, none}
use mongodb_atlas_kubernetes.Base.Errors.{GoError, ok}
use mongodb_atlas_kubernetes.Workflow.Conditions.{resource_version_status}
use mongodb_atlas_kubernetes.Workflow.Context.{set_condition_true}
use mongodb_atlas_kubernetes.Workflow.Results.{is_ok, ok_result}
use mongodb_atlas_kubernetes.Resource.Policy.{
  resource_version_is_valid, reconciliation_should_be_skipped,
}
use mongodb_atlas_kubernetes.Resource.Prepare.{judged, validate_resource_version}
use mongodb_atlas_kubernetes.Resource.Scene.{Scene, KubeClient, report}
use mongodb_atlas_kubernetes.Reconciler.Project.{Project, Cluster, ProjectService, resolve_project}
use mongodb_atlas_kubernetes.Reconciler.Credentials.{ConnectionConfig, resolve_connection_config}
use mongodb_atlas_kubernetes.Reconciler.Passage.{
  Passage, PassageSetting, in_project, with_client, with_config, supported_or_not, valid_or_not,
  start_context, skipped_or_not, run_passage,
}

module _ {W V : Type 0} (cluster : Cluster W) (setting : PassageSetting V) where
  -- At every call the credentials of a resource in this namespace resolve to `cfg`, a client set is
  -- made of them, and the project is `p`.
  pub record Resolves (namespace : String) (client_set : ConnectionConfig → W → Option GoError × W)
      (projects : ConnectionConfig → ProjectService W) (cfg : ConnectionConfig) (p : Project)
      : Type 0 where
    pub config_known :
        (w : W)
        → (resolve_connection_config cluster setting.global_secret namespace
            setting.connection_secret setting.reference w).0
          ≡ ok cfg
    pub client_made : (w : W) → (client_set cfg w).0 ≡ none
    pub project_known :
        (w : W) → (resolve_project cluster (projects cfg) namespace setting.reference w).0 ≡ ok p

module _ {W O A V : Type 0} (kube : KubeClient W) (cluster : Cluster W) (setting : PassageSetting V)
    (own : Passage W O A) (s : Scene W O A) where
  pub run_passage_reaches :
      (cfg : ConnectionConfig) (p : Project)
      → reconciliation_should_be_skipped s.meta ≡ false
      → resource_version_is_valid setting.semver setting.operator_version s.meta ≡ ok true
      → own.is_supported ≡ true
      → Resolves cluster setting s.meta.namespace own.client_set own.projects cfg p
      → (u : Scene W O A) × (u.meta ≡ s.meta)
        × (u.calls ≡ s.calls)
        × (run_passage kube cluster setting own s ≡ own.proceed cfg p.project_id u)
  unfolding run_passage validate_resource_version report is_ok ok_result
  run_passage_reaches cfg p k v supported resolves =
      let r = s.meta in
      let t0 = (start_context kube cluster setting own s).1 in
      let t1 = (report kube (set_condition_true resource_version_status) t0).1 in
      let t2 = record t1 {
        world =
            (resolve_connection_config cluster setting.global_secret r.namespace
              setting.connection_secret setting.reference t1.world).1;
      } in
      let t3 = record t2 { world = (own.client_set cfg t2.world).1 } in
      let t4 = record t3 {
        world =
            (resolve_project cluster (own.projects cfg) r.namespace setting.reference t3.world).1;
      } in
      (
        t4,
        refl,
        refl,
        ap (λ b. skipped_or_not kube cluster setting own r b s) k
            ∙ ap
                (λ a.
                  let o = judged kube setting.semver setting.operator_version r a t0 in
                  valid_or_not kube cluster setting own r o.0 (is_ok o.0) o.1)
                v
            ∙ ap (λ b. supported_or_not kube cluster setting own r b t1) supported
            ∙ ap (λ a. with_config kube cluster setting own r a t2) (resolves.config_known t1.world)
            ∙ ap (λ e. with_client kube cluster setting own cfg r e t3)
                (resolves.client_made t2.world)
            ∙ ap (λ a. in_project kube cluster setting own cfg a t4)
                (resolves.project_known t3.world),
      )
