-- ===== src/Resource/Leading.antt =====
-- Steps of a legacy reconciler that leave the resource in memory as it is, and steps put together.
use mongodb_atlas_kubernetes.Base.{◌≡◌, All}
use mongodb_atlas_kubernetes.Base.Effect.{Effect, ◌>>=◌}
use mongodb_atlas_kubernetes.Resource.Meta.{Meta}
use mongodb_atlas_kubernetes.Resource.Scene.{Scene}
use mongodb_atlas_kubernetes.Resource.Frame.{OnAtlas}

module _ {W O A : Type 0} (P : A → Type 0) where
  -- The calls so far satisfy `P`, and they still do after `f`.
  abbrev pub KeepsCalls : {B : Type 0} → Effect (Scene W O A) B → Type 0
  KeepsCalls f = (s : Scene W O A) → All (OnAtlas P) s.calls → All (OnAtlas P) (f s).1.calls

  pub KeepsCalls-bind :
      {B C : Type 0} (f : Effect (Scene W O A) B) (g : B → Effect (Scene W O A) C)
      → KeepsCalls f
      → ((b : B) → KeepsCalls (g b))
      → KeepsCalls (f >>= g)
  KeepsCalls-bind f g hf hg s h = hg (f s).0 (f s).1 (hf s h)

  -- The same for a step that does not change the resource, which `r` knows.
  module _ (r : Meta) where
    abbrev pub HasCalls : Scene W O A → Type 0
    HasCalls s = All (OnAtlas P) s.calls × (s.meta ≡ r)

    abbrev pub KeepsMeta : {B : Type 0} → Effect (Scene W O A) B → Type 0
    KeepsMeta f = (s : Scene W O A) → HasCalls s → HasCalls ((f s).1)

    abbrev pub EndsCalls : {B : Type 0} → Effect (Scene W O A) B → Type 0
    EndsCalls f = (s : Scene W O A) → HasCalls s → All (OnAtlas P) (f s).1.calls

    pub EndsCalls-bind :
        {B C : Type 0} (f : Effect (Scene W O A) B) (g : B → Effect (Scene W O A) C)
        → KeepsMeta f
        → ((b : B) → EndsCalls (g b))
        → EndsCalls (f >>= g)
    EndsCalls-bind f g hf hg s h = hg (f s).0 (f s).1 (hf s h)

  pub KeepsCalls-EndsCalls :
      {B : Type 0} (r : Meta) (f : Effect (Scene W O A) B) → KeepsCalls f → EndsCalls r f
  KeepsCalls-EndsCalls r f k s (h, e) = k s h
