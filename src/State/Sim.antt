-- ===== src/State/Sim.antt =====
-- What pkg/controller/state asks of the cluster: a client and a clock over a world that is not
-- modelled further, and the state that a reconciliation carries. The object is a pointer in Go, so
-- it is part of the state; `calls` lists the calls that leave the program, the latest first.
use mongodb_atlas_kubernetes.Base.{ℕ, ◌≡◌, refl, String, Option, List, ◌∷◌}
use mongodb_atlas_kubernetes.Base.Errors.{GoError, Answer, ok, err}
use mongodb_atlas_kubernetes.Base.Effect.{Effect}
use mongodb_atlas_kubernetes.State.Kube.{Condition, Object, Machinery}
use mongodb_atlas_kubernetes.State.Finalizers.{
  remove_all, Patched, unset_finalizers, ensure_finalizers, settle, FinalizerPatch,
}
use mongodb_atlas_kubernetes.State.{ResourceState}

pub record Client (W : Type 0) : Type 0 where
  -- Client.Get at a namespace and a name
  pub fetch : String → String → W → Answer Object × W
  pub patch_finalizers : FinalizerPatch W
  -- the JSON patch that replaces the annotation of the reapply timestamp, in milliseconds
  pub patch_timestamp : ℕ → Object → W → Answer Object × W
  -- Status().Apply of the conditions, by way of the Patcher
  pub apply_conditions : List Condition → Object → W → Option GoError × W
  -- time.Now, in nanoseconds since 1970
  pub now : W → ℕ × W

pub data Call : Type 0 where
  fetched : String → String → Call
  patched_finalizers : List String → Call
  patched_timestamp : ℕ → Call
  applied_conditions : List Condition → Call
  handled : ResourceState → Call

pub record Sim (W : Type 0) : Type 0 where
  pub world : W
  pub object : Object
  pub calls : List Call

module _ {W : Type 0} where
  abbrev pub log : Call → Sim W → Sim W
  log c s = record s { calls = c ∷ s.calls }

  abbrev pub after_patch : Sim W → Patched W → Option GoError × Sim W
  after_patch s (e, o, w) = (e, record s { object = o; world = w })

  abbrev pub unpack : Patched (W × List Call) → Option GoError × Sim W
  unpack (e, o, (w, calls)) = (e, record { world = w; object = o; calls = calls })

module _ {W : Type 0} (client : Client W) where
  unfoldable pub get_object : String → String → Effect (Sim W) (Option GoError)
  get_object namespace name s =
      let got = client.fetch namespace name s.world in
      after_patch (log (fetched namespace name) s) (settle s.object got)

  unfoldable pub read_clock : Effect (Sim W) ℕ
  read_clock s = let (t, w) = client.now s.world in (t, record s { world = w })

  -- A logged finalizer patch.
  abbrev pub logging_patch : FinalizerPatch (W × List Call)
  logging_patch o (w, calls) =
      let (a, w') = client.patch_finalizers o w in
      (a, (w', patched_finalizers o.finalizers ∷ calls))

  unfoldable pub unset : Machinery → List String → Effect (Sim W) (Option GoError)
  unfolding unset_finalizers
  unset m names s = unpack (unset_finalizers m logging_patch names s.object (s.world, s.calls))

  unfoldable pub ensure : Machinery → List String → Effect (Sim W) (Option GoError)
  unfolding ensure_finalizers
  ensure m names s = unpack (ensure_finalizers m logging_patch names s.object (s.world, s.calls))

  unfoldable pub send_timestamp : ℕ → Effect (Sim W) (Option GoError)
  send_timestamp ms s =
      after_patch (log (patched_timestamp ms) s)
        (settle s.object (client.patch_timestamp ms s.object s.world))

  unfoldable pub send_conditions : List Condition → Effect (Sim W) (Option GoError)
  send_conditions cs s =
      let (e, w) = client.apply_conditions cs s.object s.world in
      (e, record s { world = w; calls = applied_conditions cs ∷ s.calls })

module _ {W : Type 0} where
  calls-unpack-settle :
      (o : Object) (a : Answer Object) (w : W) (cs : List Call)
      → (unpack (settle o (a, (w, cs)))).1.calls ≡ cs
  calls-unpack-settle o (ok o') w cs = refl
  calls-unpack-settle o (err e) w cs = refl

  -- Taking finalizers off is one patch, answered well or not.
  pub calls-unset :
      (client : Client W) (m : Machinery) (names : List String) (s : Sim W)
      → (unset client m names s).1.calls
        ≡ patched_finalizers (remove_all m names s.object.finalizers) ∷ s.calls
  unfolding unset
  calls-unset client m names s =
      let o = record s.object { finalizers = remove_all m names s.object.finalizers } in
      let (a, w) = client.patch_finalizers o s.world in
      calls-unpack-settle o a w (patched_finalizers o.finalizers ∷ s.calls)

  world-unpack-settle :
      (o : Object) (a : Answer Object) (w : W) (cs : List Call)
      → (unpack (settle o (a, (w, cs)))).1.world ≡ w
  world-unpack-settle o (ok o') w cs = refl
  world-unpack-settle o (err e) w cs = refl

  -- The world after it is the one that the patch leaves.
  pub world-unset :
      (client : Client W) (m : Machinery) (names : List String) (s : Sim W)
      → (unset client m names s).1.world
        ≡ (client.patch_finalizers
            (record s.object { finalizers = remove_all m names s.object.finalizers })
            s.world).1
  unfolding unset
  world-unset client m names s =
      let o = record s.object { finalizers = remove_all m names s.object.finalizers } in
      let (a, w) = client.patch_finalizers o s.world in
      world-unpack-settle o a w (patched_finalizers o.finalizers ∷ s.calls)
