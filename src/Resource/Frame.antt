-- ===== src/Resource/Frame.antt =====
-- What a step of a legacy reconciler leaves alone: its calls all satisfy a predicate, and the
-- resource in memory stays as it is.
use mongodb_atlas_kubernetes.Base.{
  ℕ, String, Bool, true, false, Option, none, List, All, if◌then◌else◌,
}
use mongodb_atlas_kubernetes.Base.Errors.{GoError, Answer, ok, err}
use mongodb_atlas_kubernetes.Base.Effect.{Effect}
use mongodb_atlas_kubernetes.Workflow.Context.{Context}
use mongodb_atlas_kubernetes.Resource.Meta.{Meta, deep_equal}
use mongodb_atlas_kubernetes.Resource.Finalizer.{finalizer_label, manage_finalizer, settle}
use mongodb_atlas_kubernetes.Resource.Scene.{
  Call, patch_finalizers, atlas, Scene, KubeClient, call_atlas, add_option, terminating, report,
  manage, log_patch, unpack,
}

-- The calls of an Atlas service that satisfy `P`; a patch of the finalizers always does.
abbrev pub OnAtlas : {A : Type 0} → (A → Type 0) → Call A → Type 0
OnAtlas P (patch_finalizers fs) = Unit {0}
OnAtlas P (atlas a) = P a

module _ {W O A : Type 0} (P : A → Type 0) where
  abbrev pub Keeps : {B : Type 0} → Effect (Scene W O A) B → Type 0
  Keeps f = (s : Scene W O A) → All (OnAtlas P) s.calls → All (OnAtlas P) (f s).1.calls

  pub call_atlas-Keeps : {B : Type 0} (a : A) (f : W → B × W) → P a → Keeps (call_atlas a f)
  unfolding call_atlas
  call_atlas-Keeps a f p s h = (p, h)

  pub add_option-Keeps : (o : O) → Keeps (add_option o)
  unfolding add_option
  add_option-Keeps o s h = h

  pub terminating-Keeps : (reason : String) (e : GoError) → Keeps (terminating reason e)
  unfolding terminating
  terminating-Keeps reason e s h = h

  pub report-Keeps :
      (kube : KubeClient W) (change : ℕ → Context O → Context O) → Keeps (report kube change)
  unfolding report
  report-Keeps kube change s h = h

  pub manage-Keeps : (kube : KubeClient W) (op : Meta → String → Meta) → Keeps (manage kube op)
  unfolding manage manage_finalizer
  manage-Keeps kube op s h =
      chosen (deep_equal s.meta.finalizers copy)
        (log_patch kube.patch copy s.meta (s.world, s.calls)) (tt, h)
    where
      copy : Option (List String)
      copy = (op s.meta finalizer_label).finalizers

      settled :
          (o : Answer Meta × (W × List (Call A)))
          → All (OnAtlas P) o.1.1
          → All (OnAtlas P) (unpack s (settle s.meta o)).1.calls
      settled (ok r, w) g = g
      settled (err e, w) g = g

      chosen :
          (b : Bool) (o : Answer Meta × (W × List (Call A)))
          → All (OnAtlas P) o.1.1
          → All
              (OnAtlas P)
              (unpack s (if b then (none, s.meta, (s.world, s.calls)) else settle s.meta o)).1.calls
      chosen true o g = h
      chosen false o g = settled o g
