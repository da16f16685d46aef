-- ===== src/Validate/Whole.antt =====
-- The deployment that is accepted, whichever specification it has.
use mongodb_atlas_kubernetes.Base.{
  ◌≡◌, ◌⊎◌, inl, inr, refl, String, true, false, not, Option, none, some, List, All, Bool-cases,
  if◌then◌else◌, is_empty_text, str_eq, eq_iff,
}
use mongodb_atlas_kubernetes.Base.Errors.{GoError, plain}
use mongodb_atlas_kubernetes.Validate.InstanceSize.{Run, returns}
use mongodb_atlas_kubernetes.Validate.Regions.{AutoScaling, is_supported, regular_deployment}
use mongodb_atlas_kubernetes.Validate.Fitting.{Fits, both_pass}
use mongodb_atlas_kubernetes.Validate.Accepted.{accepted_regions_fit}
use mongodb_atlas_kubernetes.Validate.Names.{IsDistinct, IsDistinct-names_iff}
use mongodb_atlas_kubernetes.Validate.Deployment.{
  ProviderSettings, AdvancedSpec, ServerlessSpec, FlexSpec, DeploymentSpecs, serverless_deployment,
  serverless_private_endpoints, flex_deployment, tags_error, deployment_spec_mask, advanced_error,
  serverless_error, flex_error, deployment_error,
}

abbrev pub IsAdvanced : AdvancedSpec → Type 0
IsAdvanced s = ((a : AutoScaling) × All (All (Fits a)) s.specs) × IsDistinct s.advanced_tags

abbrev pub IsServerless : ServerlessSpec → Type 0
IsServerless s =
    (p : ProviderSettings) × (s.serverless_settings ≡ some p)
    × (p.settings_provider ≡ "SERVERLESS")
    × (is_supported p.backing_provider ≡ true)
    × IsDistinct s.endpoint_names
    × IsDistinct s.serverless_tags

abbrev pub IsFlex : FlexSpec → Type 0
IsFlex s =
    (p : ProviderSettings) × (s.flex_settings ≡ some p)
    × (is_supported p.backing_provider ≡ true)
    × (is_empty_text p.region_name ≡ false)
    × IsDistinct s.flex_tags

abbrev pub IsAccepted : DeploymentSpecs → Type 0
IsAccepted d =
    ((s : AdvancedSpec) × (d
        ≡ record { deployment_spec = some s; serverless_spec = none; flex_spec = none })
      × IsAdvanced s)
    ⊎ ((s : ServerlessSpec) × (d
          ≡ record { deployment_spec = none; serverless_spec = some s; flex_spec = none })
        × IsServerless s)
    ⊎ ((s : FlexSpec) × (d
          ≡ record { deployment_spec = none; serverless_spec = none; flex_spec = some s })
        × IsFlex s)

returned_none :
    (o : Option GoError) → Path (Run (Option GoError)) (returns o) (returns none) → o ≡ none
returned_none none h = refl
returned_none (some e) h = cc

tags-IsDistinct :
    (keys : List String)
    → Path (Run (Option GoError)) (returns (tags_error keys)) (returns none)
    → IsDistinct keys
tags-IsDistinct keys h = (IsDistinct-names_iff keys).0.0 (returned_none (tags_error keys) h)

IsAdvanced-accepted : (s : AdvancedSpec) → advanced_error (some s) ≡ returns none → IsAdvanced s
IsAdvanced-accepted s h =
    let (regions, tags) = both_pass (regular_deployment s.specs) _ h in
    (accepted_regions_fit s.specs regions, tags-IsDistinct s.advanced_tags tags)

IsServerless-accepted :
    (s : ServerlessSpec) → serverless_error (some s) ≡ returns none → IsServerless s
unfolding serverless_deployment
IsServerless-accepted s h =
    let (settings, tags) = both_pass (returns (serverless_deployment s)) _ h in
    read s.serverless_settings refl (returned_none (serverless_deployment s) settings)
      (tags-IsDistinct s.serverless_tags tags)
  where
    read :
        (o : Option ProviderSettings)
        → s.serverless_settings ≡ o
        → (elim o [
          | none ↦ some (plain "provider settings cannot be empty")
          | some p ↦
              if not (str_eq p.settings_provider "SERVERLESS")
              then some (plain "provider name must be SERVERLESS")
              else if not (is_supported p.backing_provider)
              then some (plain "backing provider name is not supported")
              else serverless_private_endpoints s.endpoint_names
        ])
          ≡ none
        → IsDistinct s.serverless_tags
        → IsServerless s
    read none e k tags = cc
    read (some p) e k tags = elim (Bool-cases (str_eq p.settings_provider "SERVERLESS")) [
      | inr f ↦ cc (rw f at k)
      | inl f ↦ elim (Bool-cases (is_supported p.backing_provider)) [
        | inr g ↦ cc (rw (f, g) at k)
        | inl g ↦ (
          p,
          e,
          (eq_iff p.settings_provider "SERVERLESS").0 f,
          g,
          (IsDistinct-names_iff s.endpoint_names).1.0 (rw (f, g) at k),
          tags,
        )
      ]
    ]

IsFlex-accepted : (s : FlexSpec) → flex_error (some s) ≡ returns none → IsFlex s
unfolding flex_deployment
IsFlex-accepted s h =
    let (settings, tags) = both_pass (returns (flex_deployment s)) _ h in
    read s.flex_settings refl (returned_none (flex_deployment s) settings)
      (tags-IsDistinct s.flex_tags tags)
  where
    read :
        (o : Option ProviderSettings)
        → s.flex_settings ≡ o
        → (elim o [
          | none ↦ some (plain "provider settings cannot be empty")
          | some p ↦
              if not (is_supported p.backing_provider)
              then some (plain "backing provider name is not supported")
              else if is_empty_text p.region_name
              then some (plain "regionName cannot be empty")
              else none
        ])
          ≡ none
        → IsDistinct s.flex_tags
        → IsFlex s
    read none e k tags = cc
    read (some p) e k tags = elim (Bool-cases (is_supported p.backing_provider)) [
      | inr g ↦ cc (rw g at k)
      | inl g ↦ elim (Bool-cases (is_empty_text p.region_name)) [
        | inl f ↦ cc (rw (g, f) at k)
        | inr f ↦ (p, e, g, f, tags)
      ]
    ]

-- An accepted deployment has exactly one of the three specifications. The regions of a dedicated
-- one fit one autoscaling; a serverless one has provider settings for SERVERLESS in a supported
-- cloud and private endpoints with different names; a flex one has provider settings in a supported
-- cloud with a region. Its tags have different keys.
pub deployment-IsAccepted : (d : DeploymentSpecs) → deployment_error d ≡ returns none → IsAccepted d
unfolding deployment_error deployment_spec_mask
deployment-IsAccepted d h = read d.deployment_spec d.serverless_spec d.flex_spec h
  where
    read :
        (a : Option AdvancedSpec) (s : Option ServerlessSpec) (f : Option FlexSpec)
        → deployment_error (record { deployment_spec = a; serverless_spec = s; flex_spec = f })
          ≡ returns none
        → IsAccepted (record { deployment_spec = a; serverless_spec = s; flex_spec = f })
    read none none none k = cc
    read (some a) none none k = inl (a, refl, IsAdvanced-accepted a k)
    read none (some s) none k = inr (inl (s, refl, IsServerless-accepted s k))
    read none none (some f) k = inr (inr (f, refl, IsFlex-accepted f k))
    read (some a) (some s) none k = cc
    read (some a) none (some f) k = cc
    read none (some s) (some f) k = cc
    read (some a) (some s) (some f) k = cc
