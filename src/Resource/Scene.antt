-- ===== src/Resource/Scene.antt =====
-- What a legacy reconciler changes: the world behind its clients, the resource in memory, the
-- workflow context and the dry-run queue. `calls` lists the calls that leave it, the latest first.
use mongodb_atlas_kubernetes.Base.{ℕ, String, Option, List, ◌∷◌}
use mongodb_atlas_kubernetes.Base.Errors.{GoError}
use mongodb_atlas_kubernetes.Base.Effect.{Effect}
use mongodb_atlas_kubernetes.Workflow.Context.{Context, ensure_status_option}
use mongodb_atlas_kubernetes.Workflow.ErrorQueue.{ErrorQueue}
use mongodb_atlas_kubernetes.Workflow.Results.{DeprecatedResult, terminate}
use mongodb_atlas_kubernetes.Resource.Meta.{Meta}
use mongodb_atlas_kubernetes.Resource.Finalizer.{MetaPatch, manage_finalizer}

-- `A` is the type of the calls to Atlas.
pub data Call (A : Type 0) : Type 0 where
  patch_finalizers : Option (List String) → Call A
  atlas : A → Call A

pub record Scene (W O A : Type 0) : Type 0 where
  pub world : W
  pub meta : Meta
  pub ctx : Context O
  pub queue : ErrorQueue
  pub calls : List (Call A)

pub record KubeClient (W : Type 0) : Type 0 where
  pub patch : MetaPatch W
  pub now : W → ℕ × W

module _ {W A : Type 0} where
  abbrev pub log_patch : MetaPatch W → MetaPatch (W × List (Call A))
  log_patch patch fs r (w, calls) =
      let (a, w') = patch fs r w in (a, (w', patch_finalizers fs ∷ calls))

module _ {W O A : Type 0} where
  -- A call to Atlas, which is logged.
  unfoldable pub call_atlas : {B : Type 0} → A → (W → B × W) → Effect (Scene W O A) B
  call_atlas a f s =
      let (b, w) = f s.world in (b, record s { world = w; calls = atlas a ∷ s.calls })

  unfoldable pub add_option : O → Effect (Scene W O A) (Unit {0})
  unfolding ensure_status_option
  add_option o s = (tt, record s { ctx = ensure_status_option o s.ctx })

  unfoldable pub terminating : String → GoError → Effect (Scene W O A) DeprecatedResult
  unfolding terminate
  terminating reason e s = let (r, q) = terminate reason e s.queue in (r, record s { queue = q })

  abbrev pub unpack :
      Scene W O A → Option GoError × Meta × (W × List (Call A)) → Option GoError × Scene W O A
  unpack s (e, r, (w, calls)) = (e, record s { world = w; meta = r; calls = calls })

  module _ (kube : KubeClient W) where
    -- A change of the context that reads the clock.
    unfoldable pub report : (ℕ → Context O → Context O) → Effect (Scene W O A) (Unit {0})
    report change s =
        let (t, w) = kube.now s.world in (tt, record s { world = w; ctx = change t s.ctx })

    unfoldable pub manage : (Meta → String → Meta) → Effect (Scene W O A) (Option GoError)
    unfolding manage_finalizer
    manage op s = unpack s (manage_finalizer (log_patch kube.patch) op s.meta (s.world, s.calls))
