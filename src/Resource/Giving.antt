-- ===== src/Resource/Giving.antt =====
-- Giving the finalizer up, on a cluster that takes the patch.
use mongodb_atlas_kubernetes.Base.{◌≡◌, Option, none, some, List, [], ◌∷◌, String}
use mongodb_atlas_kubernetes.Base.Errors.{ok}
use mongodb_atlas_kubernetes.Resource.Meta.{Meta}
use mongodb_atlas_kubernetes.Resource.Finalizer.{
  finalizer_label, unset_finalizer, without, manage_finalizer,
}
use mongodb_atlas_kubernetes.Resource.Scene.{Scene, KubeClient, manage, patch_finalizers}

-- The cluster takes the patch of the finalizers.
abbrev pub TakesPatch : {W : Type 0} → KubeClient W → Type 0
TakesPatch {W = W} kube =
    (fs : Option (List String)) (r : Meta) (w : W)
    → (kube.patch fs r w).0 ≡ ok (record r { finalizers = fs })

module _ {W O A : Type 0} (kube : KubeClient W) (takes : TakesPatch kube) where
  -- The operator's finalizer, as the only one, goes with one patch.
  pub unset_one :
      (s : Scene W O A)
      → s.meta.finalizers ≡ some (finalizer_label ∷ [])
      → ((manage kube unset_finalizer s).0 ≡ none)
        × ((manage kube unset_finalizer s).1.meta.finalizers ≡ some [])
        × ((manage kube unset_finalizer s).1.calls ≡ patch_finalizers (some []) ∷ s.calls)
  unfolding manage manage_finalizer unset_finalizer without
  unset_one s h = (simp (h, takes), simp (h, takes), simp (h, takes))
