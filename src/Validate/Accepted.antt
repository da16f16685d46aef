-- ===== src/Validate/Accepted.antt =====
-- What an accepted deployment is.
use mongodb_atlas_kubernetes.Base.{
  ◌≡◌, ◌≢◌, ◌⊎◌, inl, inr, refl, subst, sym, ◌∙◌, true, false, Option, none, some, List, [], ◌∷◌,
  arith, Bool-cases, All,
}
use mongodb_atlas_kubernetes.Base.Errors.{GoError, plain, Answer, ok, err}
use mongodb_atlas_kubernetes.Validate.InstanceSize.{Run, returns, panics}
use mongodb_atlas_kubernetes.Validate.Regions.{
  AutoScaling, RegionConfig, provider_config, autoscaling_for_deployment, unset_auto_scaling,
  or_first, first_set_autoscaling, then_run, instance_size_range, or_seen, region_config,
  region_configs, replication_specs, regular_deployment,
}
use mongodb_atlas_kubernetes.Validate.Fitting.{
  has_setting, scales, Fits, same_auto_scaling_iff, supported_cloud, both_pass, sizes_fit,
}

-- What a region does to the autoscaling that is seen.
abbrev Next : AutoScaling → AutoScaling → Type 0
Next seen next = has_setting seen ≡ true → next ≡ seen

scaling_step :
    (seen : AutoScaling) (r : RegionConfig)
    → autoscaling_for_deployment r.auto_scaling (first_set_autoscaling seen r).0 ≡ none
    → let next = (first_set_autoscaling seen r).1 in
      ((scales r.auto_scaling ≡ false) ⊎ (r.auto_scaling ≡ some next)) × Next seen next
unfolding first_set_autoscaling autoscaling_for_deployment
scaling_step seen r h = elim (Bool-cases (has_setting seen)) [
  | inl e ↦ rw e (settled r.auto_scaling (rw e at h), (λ k. refl))
  | inr e ↦ rw e (fresh r.auto_scaling, (λ k. cc))
]
  where
    settled :
        (o : Option AutoScaling)
        → autoscaling_for_deployment o (some seen) ≡ none
        → (scales o ≡ false) ⊎ (o ≡ some seen)
    settled none k = cc
    settled (some a) k = inr (ground (arith, same_auto_scaling_iff a seen))

    fresh : (o : Option AutoScaling) → (scales o ≡ false) ⊎ (o ≡ some (or_first seen o).1)
    fresh none = inl refl
    fresh (some a) = inr refl

region-Fits :
    (seen next : AutoScaling) (r : RegionConfig)
    → region_config seen r ≡ returns (ok next)
    → Fits next r × Next seen next
unfolding region_config
region-Fits seen next r h =
    let (same, clean) = checked (first_set_autoscaling seen r).1 _ h in
    let (provider, rest) = both_pass (returns (provider_config r)) _ clean in
    let (scaling, sizes) =
      both_pass
        (returns (autoscaling_for_deployment r.auto_scaling (first_set_autoscaling seen r).0))
        (instance_size_range r) rest in
    let (alike, kept) = scaling_step seen r (none_of _ scaling) in
    subst (λ n. Fits n r × Next seen n) same
      ((supported_cloud r (none_of _ provider), alike, sizes_fit r sizes), kept)
  where
    none_of :
        (o : Option GoError) → Path (Run (Option GoError)) (returns o) (returns none) → o ≡ none
    none_of none k = refl
    none_of (some e) k = cc

    checked :
        (n : AutoScaling) (x : Run (Option GoError))
        → or_seen n x ≡ returns (ok next)
        → (n ≡ next) × (x ≡ returns none)
    checked n panics k = cc
    checked n (returns (some e)) k = cc
    checked n (returns none) k = (ground (arith, k), refl)

-- A region that fits an autoscaling fits the one that is seen in the end.
Fits-later : (a b : AutoScaling) (r : RegionConfig) → Fits a r → Next a b → Fits b r
Fits-later a b r (cloud, alike, sizes) h = (cloud, moved alike, sizes)
  where
    moved :
        (scales r.auto_scaling ≡ false) ⊎ (r.auto_scaling ≡ some a)
        → (scales r.auto_scaling ≡ false) ⊎ (r.auto_scaling ≡ some b)
    moved (inl e) = inl e
    moved (inr e) = elim (Bool-cases (has_setting a)) [
      | inl f ↦ inr (rw (h f) e)
      | inr f ↦ inl (rw e f)
    ]

Next-trans : (a b c : AutoScaling) → Next a b → Next b c → Next a c
Next-trans a b c f g h = g (subst (λ x. has_setting x ≡ true) (sym (f h)) h) ∙ f h

All-later :
    (a b : AutoScaling) (rs : List RegionConfig) → All (Fits a) rs → Next a b → All (Fits b) rs
All-later a b [] fs h = tt
All-later a b (r ∷ rs) (f, fs) h = (Fits-later a b r f h, All-later a b rs fs h)

regions_fit :
    (seen last : AutoScaling) (rs : List RegionConfig)
    → region_configs seen rs ≡ returns (ok last)
    → All (Fits last) rs × Next seen last
unfolding region_configs
regions_fit seen last [] h = (tt, (λ k. ground (arith, h)))
regions_fit seen last (r ∷ rs) h =
    read (λ next. regions_fit next last rs) (region_config seen r) refl h
  where
    read :
        (again : (next : AutoScaling)
          → region_configs next rs ≡ returns (ok last)
          → All (Fits last) rs × Next next last)
        (x : Run (Answer AutoScaling))
        → region_config seen r ≡ x
        → then_run x err (λ next. region_configs next rs) ≡ returns (ok last)
        → All (Fits last) (r ∷ rs) × Next seen last
    read again panics e k = cc
    read again (returns (err f)) e k = cc
    read again (returns (ok next)) e k =
        let (fits, kept) = region-Fits seen next r e in
        let (rest, later) = again next k in
        ((Fits-later next last r fits later, rest), Next-trans seen next last kept later)

specs_fit :
    (seen last : AutoScaling) (specs : List (List RegionConfig))
    → replication_specs seen specs ≡ returns (ok last)
    → All (All (Fits last)) specs × Next seen last
unfolding replication_specs
specs_fit seen last [] h = (tt, (λ k. ground (arith, h)))
specs_fit seen last (rs ∷ specs) h =
    read (λ next. specs_fit next last specs) (region_configs seen rs) refl h
  where
    read :
        (again : (next : AutoScaling)
          → replication_specs next specs ≡ returns (ok last)
          → All (All (Fits last)) specs × Next next last)
        (x : Run (Answer AutoScaling))
        → region_configs seen rs ≡ x
        → then_run x err (λ next. replication_specs next specs) ≡ returns (ok last)
        → All (All (Fits last)) (rs ∷ specs) × Next seen last
    read again panics e k = cc
    read again (returns (err f)) e k = cc
    read again (returns (ok next)) e k =
        let (fits, kept) = regions_fit seen next rs e in
        let (rest, later) = again next k in
        ((All-later next last rs fits later, rest), Next-trans seen next last kept later)

-- If the regions of a deployment are accepted, then there is one autoscaling that every region
-- fits: the region is in a supported cloud, it has no autoscaling setting or exactly that one, and
-- where the instance size scales, the size of each of its kinds of nodes is between the bounds.
pub accepted_regions_fit :
    (specs : List (List RegionConfig))
    → regular_deployment specs ≡ returns none
    → (a : AutoScaling) × All (All (Fits a)) specs
unfolding regular_deployment
accepted_regions_fit specs h = read (replication_specs unset_auto_scaling specs) refl h
  where
    read :
        (x : Run (Answer AutoScaling))
        → replication_specs unset_auto_scaling specs ≡ x
        → then_run x some (λ seen. returns none) ≡ returns none
        → (a : AutoScaling) × All (All (Fits a)) specs
    read panics e k = cc
    read (returns (err f)) e k = cc
    read (returns (ok last)) e k = (last, (specs_fit unset_auto_scaling last specs e).0)

abbrev unlike : GoError
unlike =
    plain
      "autoscaling must be the same for all regions and across all replication specs for advanced deployment"

-- A region without an autoscaling is refused once there is a setting.
refused_after :
    (seen : AutoScaling) (r : RegionConfig)
    → provider_config r ≡ none
    → r.auto_scaling ≡ none
    → has_setting seen ≡ true
    → region_config seen r ≡ returns (err unlike)
unfolding region_config first_set_autoscaling autoscaling_for_deployment
refused_after seen r p n h = rw (p, n, h) refl

accepted_then :
    (s : RegionConfig) (rs : List RegionConfig)
    → regular_deployment ((s ∷ rs) ∷ []) ≡ returns none
    → (next : AutoScaling) × (last : AutoScaling) × (region_config unset_auto_scaling s
        ≡ returns (ok next))
      × (region_configs next rs ≡ returns (ok last))
unfolding regular_deployment replication_specs region_configs
accepted_then s rs h = first (region_config unset_auto_scaling s) refl h
  where
    Outcome : Type 0
    Outcome =
        (next : AutoScaling) × (last : AutoScaling) × (region_config unset_auto_scaling s
          ≡ returns (ok next))
        × (region_configs next rs ≡ returns (ok last))

    second :
        (next : AutoScaling) (y : Run (Answer AutoScaling))
        → region_config unset_auto_scaling s ≡ returns (ok next)
        → region_configs next rs ≡ y
        → then_run (then_run y err (λ seen. returns (ok seen))) some (λ seen. returns none)
          ≡ returns none
        → Outcome
    second next panics e f k = cc
    second next (returns (err x)) e f k = cc
    second next (returns (ok last)) e f k = (next, last, e, f)

    first :
        (x : Run (Answer AutoScaling))
        → region_config unset_auto_scaling s ≡ x
        → then_run
            (then_run
              (then_run x err (λ next. region_configs next rs))
              err
              (λ seen. returns (ok seen)))
            some
            (λ seen. returns none)
          ≡ returns none
        → Outcome
    first panics e k = cc
    first (returns (err x)) e k = cc
    first (returns (ok next)) e k = second next (region_configs next rs) e refl k

-- The order of the regions matters: of two regions in a supported cloud, the first without any
-- autoscaling and the second with a setting, the deployment is judged as if it had the second alone,
-- but the other way round it is not accepted.
pub unset_region_order :
    (r s : RegionConfig) (a : AutoScaling)
    → provider_config r ≡ none
    → r.auto_scaling ≡ none
    → s.auto_scaling ≡ some a
    → has_setting a ≡ true
    → (regular_deployment ((r ∷ s ∷ []) ∷ []) ≡ regular_deployment ((s ∷ []) ∷ []))
      × (regular_deployment ((s ∷ r ∷ []) ∷ []) ≢ returns none)
unfolding regular_deployment replication_specs region_configs region_config first_set_autoscaling
    autoscaling_for_deployment instance_size_range
unset_region_order r s a p n e h = (rw (p, n) refl, refused)
  where
    refused : regular_deployment ((s ∷ r ∷ []) ∷ []) ≢ returns none
    refused k =
        let (next, last, first, second) = accepted_then s (r ∷ []) k in
        let fits = (region-Fits unset_auto_scaling next s first).0 in
        let set = set_next next fits.1 in
        let refusal = refused_after next r p n set in cc (rw refusal at second)
      where
        set_next :
            (next : AutoScaling)
            → (scales s.auto_scaling ≡ false) ⊎ (s.auto_scaling ≡ some next)
            → has_setting next ≡ true
        set_next next (inl f) = ground (arith, e, h, f)
        set_next next (inr f) = ground (arith, e, h, f)
