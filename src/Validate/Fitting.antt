-- ===== src/Validate/Fitting.antt =====
-- The regions that fit an autoscaling, and the checks that say so.
use mongodb_atlas_kubernetes.Base.{
  ◌≡◌, ◌≢◌, ◌↔◌, ◌⊎◌, refl, String, Bool, true, false, Option, none, some, if◌then◌else◌, str_eq,
  eq_iff, arith, is_some, ◌||◌,
}
use mongodb_atlas_kubernetes.Base.Int.{pos, negsuc}
use mongodb_atlas_kubernetes.Base.Errors.{GoError, Answer, ok, err}
use mongodb_atlas_kubernetes.Validate.InstanceSize.{
  Run, returns, panics, InstanceSize, compare_instance_sizes, new_from_instance_size_name,
  same_flag,
}
use mongodb_atlas_kubernetes.Validate.Order.{same_flag_iff}
use mongodb_atlas_kubernetes.Validate.Regions.{
  ComputeSpec, AutoScaling, RegionConfig, is_supported, provider_config, same_option, same_compute,
  same_auto_scaling, within, then_run, advanced_instance_size_in_range, and_then, node_in_range,
  is_on, if_enabled, instance_size_range,
}

-- The cloud that a region is in: a shared tier names it as its backing provider.
abbrev pub cloud : RegionConfig → String
cloud r = if str_eq r.provider_name "TENANT" then r.backing_provider_name else r.provider_name

-- A size between two others, by their names.
abbrev pub IsBetween : String → String → String → Type 0
IsBetween low high now =
    (l : InstanceSize) × (h : InstanceSize) × (n : InstanceSize) × (new_from_instance_size_name low
      ≡ returns (ok l))
    × (new_from_instance_size_name high ≡ returns (ok h))
    × (new_from_instance_size_name now ≡ returns (ok n))
    × (compare_instance_sizes n l ≢ negsuc 0)
    × (compare_instance_sizes n h ≢ pos 1)

abbrev pub NodeFits : ComputeSpec → Option String → Type 0
NodeFits c none = Unit
NodeFits c (some size) = IsBetween c.min_instance_size c.max_instance_size size

-- If the instance size scales, it is between its bounds for every kind of node.
abbrev pub SizesFit : Option ComputeSpec → RegionConfig → Type 0
SizesFit none r = Unit
SizesFit (some c) r =
    is_on c.enabled ≡ true
    → NodeFits c r.electable × NodeFits c r.read_only × NodeFits c r.analytics

abbrev pub compute_of : Option AutoScaling → Option ComputeSpec
compute_of none = none
compute_of (some a) = a.compute

abbrev pub has_setting : AutoScaling → Bool
has_setting a = is_some a.disk_gb || is_some a.compute

abbrev pub scales : Option AutoScaling → Bool
scales none = false
scales (some a) = has_setting a

-- A region that fits an autoscaling: it has none of its own, or that one.
abbrev pub Fits : AutoScaling → RegionConfig → Type 0
Fits a r =
    (is_supported (cloud r) ≡ true)
    × ((scales r.auto_scaling ≡ false) ⊎ (r.auto_scaling ≡ some a))
    × SizesFit (compute_of r.auto_scaling) r

pub same_option_iff :
    {A : Type 0} (eq : A → A → Bool)
    → ((a b : A) → (eq a b ≡ true) ↔ (a ≡ b))
    → (o p : Option A) → (same_option eq o p ≡ true) ↔ (o ≡ p)
same_option_iff eq h none none = ground arith
same_option_iff eq h none (some b) = ground arith
same_option_iff eq h (some a) none = ground arith
same_option_iff eq h (some a) (some b) = ground (arith, h a b)

same_compute_iff : (a b : ComputeSpec) → (same_compute a b ≡ true) ↔ (a ≡ b)
same_compute_iff a b = ground (
  arith,
  same_option_iff same_flag same_flag_iff a.enabled b.enabled,
  same_option_iff same_flag same_flag_iff a.scale_down_enabled b.scale_down_enabled,
  eq_iff a.min_instance_size b.min_instance_size,
  eq_iff a.max_instance_size b.max_instance_size,
)

pub same_auto_scaling_iff : (a b : AutoScaling) → (same_auto_scaling a b ≡ true) ↔ (a ≡ b)
unfolding same_auto_scaling
same_auto_scaling_iff a b = ground (
  arith,
  same_option_iff (same_option same_flag) (same_option_iff same_flag same_flag_iff) a.disk_gb
      b.disk_gb,
  same_option_iff same_compute same_compute_iff a.compute b.compute,
)

pub supported_cloud : (r : RegionConfig) → provider_config r ≡ none → is_supported (cloud r) ≡ true
unfolding provider_config
supported_cloud r h = ground (arith, eq_iff r.provider_name "TENANT")

between :
    (now low high : String)
    → advanced_instance_size_in_range now low high ≡ returns none
    → IsBetween low high now
unfolding advanced_instance_size_in_range
between now low high h =
    read (new_from_instance_size_name low) (new_from_instance_size_name high)
      (new_from_instance_size_name now) refl refl refl h
  where
    read :
        (l h n : Run (Answer InstanceSize))
        → new_from_instance_size_name low ≡ l
        → new_from_instance_size_name high ≡ h
        → new_from_instance_size_name now ≡ n
        → then_run l some
            (λ l. then_run h some (λ h. then_run n some (λ n. returns (within l h n))))
          ≡ returns none
        → IsBetween low high now
    read panics h n e f g k = cc
    read (returns (err x)) h n e f g k = cc
    read (returns (ok l)) panics n e f g k = cc
    read (returns (ok l)) (returns (err x)) n e f g k = cc
    read (returns (ok l)) (returns (ok h)) panics e f g k = cc
    read (returns (ok l)) (returns (ok h)) (returns (err x)) e f g k = cc
    read (returns (ok l)) (returns (ok h)) (returns (ok n)) e f g k =
        (l, h, n, e, f, g, ground arith, ground arith)

pub both_pass :
    (x y : Run (Option GoError))
    → and_then x y ≡ returns none
    → (x ≡ returns none) × (y ≡ returns none)
both_pass panics y h = cc
both_pass (returns (some e)) y h = cc
both_pass (returns none) y h = (refl, h)

node_fits : (o : Option String) (c : ComputeSpec) → node_in_range o c ≡ returns none → NodeFits c o
node_fits none c h = tt
node_fits (some size) c h = between size c.min_instance_size c.max_instance_size h

pub sizes_fit :
    (r : RegionConfig)
    → instance_size_range r ≡ returns none
    → SizesFit (compute_of r.auto_scaling) r
unfolding instance_size_range
sizes_fit r h = read r.auto_scaling h
  where
    enabled : (o : Option ComputeSpec) → if_enabled r o ≡ returns none → SizesFit o r
    enabled none k = tt
    enabled (some c) k = λ on.
        let (e, rest) = both_pass (node_in_range r.electable c) _ (rw on at k) in
        let (p, q) = both_pass (node_in_range r.read_only c) (node_in_range r.analytics c) rest in
        (node_fits r.electable c e, node_fits r.read_only c p, node_fits r.analytics c q)

    read :
        (o : Option AutoScaling)
        → (elim o [ none ↦ returns none | some a ↦ if_enabled r a.compute ]) ≡ returns none
        → SizesFit (compute_of o) r
    read none k = tt
    read (some a) k = enabled a.compute k
