-- ===== src/Validate/Order.antt =====
-- The order of instance sizes, and what their names give.
use Prim.Native.Char.{Char, code}
use mongodb_atlas_kubernetes.Base.{
  zero, suc, ◌≡◌, ◌≢◌, ◌↔◌, ◌⊎◌, inl, inr, refl, subst, String, Bool, true, false, List, [], ◌∷◌,
  nat_eq, eq_iff, arith, Bool-cases,
}
use mongodb_atlas_kubernetes.Base.Int.{ℤ, pos, negsuc, ◌≤ℤ◌}
use mongodb_atlas_kubernetes.Base.Errors.{Answer, ok, err, ok_injective}
use mongodb_atlas_kubernetes.Validate.InstanceSize.{
  returns, panics, InstanceSize, compare_instance_sizes, same_int, same_flag, Digits, value,
  bad_syntax, bad_range, signed, some_digits, sized, is_nvme_suffix, atoi, split_underscore,
  prepend, is_short, of_first, of_pieces, new_from_instance_size_name,
}

abbrev pub IsFamily : InstanceSize → Type 0
IsFamily a = (a.family ≡ "M") ⊎ (a.family ≡ "R")

abbrev pub opposite : ℤ → ℤ
opposite (pos zero) = pos 0
opposite (pos (suc n)) = negsuc n
opposite (negsuc n) = pos (suc n)

same_int_iff : (a b : ℤ) → (same_int a b ≡ true) ↔ (a ≡ b)
same_int_iff (pos a) (pos b) = ground arith
same_int_iff (pos a) (negsuc b) = ground arith
same_int_iff (negsuc a) (pos b) = ground arith
same_int_iff (negsuc a) (negsuc b) = ground arith

pub same_flag_iff : (a b : Bool) → (same_flag a b ≡ true) ↔ (a ≡ b)
same_flag_iff true b = ground arith
same_flag_iff false b = ground arith

module _ (a b : InstanceSize) where
  compare_zero : (compare_instance_sizes a b ≡ pos 0) ↔ (a ≡ b)
  unfolding compare_instance_sizes
  compare_zero = ground (
    arith,
    eq_iff a.family b.family,
    same_int_iff a.size b.size,
    same_flag_iff a.is_nvme b.is_nvme,
  )

  compare_opposite :
      IsFamily a → IsFamily b → compare_instance_sizes b a ≡ opposite (compare_instance_sizes a b)
  unfolding compare_instance_sizes
  compare_opposite f g = ground (
    arith,
    eq_iff a.family b.family,
    eq_iff b.family a.family,
    eq_iff a.family "M",
    eq_iff b.family "M",
    same_int_iff a.size b.size,
    same_int_iff b.size a.size,
    same_flag_iff a.is_nvme b.is_nvme,
    same_flag_iff b.is_nvme a.is_nvme,
  )

compare_below :
    (a b c : InstanceSize)
    → IsFamily a
    → IsFamily b
    → IsFamily c
    → compare_instance_sizes a b ≡ negsuc 0
    → compare_instance_sizes b c ≡ negsuc 0
    → compare_instance_sizes a c ≡ negsuc 0
unfolding compare_instance_sizes
compare_below a b c f g h = ground (
  arith,
  eq_iff a.family b.family,
  eq_iff b.family c.family,
  eq_iff a.family c.family,
  eq_iff a.family "M",
  eq_iff b.family "M",
  same_int_iff a.size b.size,
  same_int_iff b.size c.size,
  same_int_iff a.size c.size,
  same_flag_iff a.is_nvme b.is_nvme,
  same_flag_iff b.is_nvme c.is_nvme,
  same_flag_iff a.is_nvme c.is_nvme,
)

-- On instance sizes of the families M and R the comparison is a total order: it answers 0 for equal
-- sizes alone, the opposite for the sizes the other way round, and -1 across two steps of -1.
pub sizes_ordered :
    (a b c : InstanceSize)
    → IsFamily a
    → IsFamily b
    → IsFamily c
    → ((compare_instance_sizes a b ≡ pos 0) ↔ (a ≡ b))
      × (compare_instance_sizes b a ≡ opposite (compare_instance_sizes a b))
      × (compare_instance_sizes a b ≡ negsuc 0
          → compare_instance_sizes b c ≡ negsuc 0
          → compare_instance_sizes a c ≡ negsuc 0)
sizes_ordered a b c f g h = (compare_zero a b, compare_opposite a b f g, compare_below a b c f g h)

-- A number of Go's int64.
abbrev pub IsInt64 : ℤ → Type 0
IsInt64 n = (negsuc 9223372036854775807 ≤ℤ n) × (n ≤ℤ pos 9223372036854775807)

returned : {A : Type 0} (x y : A) → returns x ≡ returns y → x ≡ y
returned x y h = ground (arith, h)

signed_bounds : (text : String) (b : Bool) (d : Digits) (n : ℤ) → signed text b d ≡ ok n → IsInt64 n
signed_bounds text b bad_syntax n h = cc
signed_bounds text b bad_range n h = cc
signed_bounds text true (value k) n h = ground arith
signed_bounds text false (value k) n h = ground arith

atoi_bounds : (text : String) (n : ℤ) → atoi text ≡ ok n → IsInt64 n
unfolding atoi
atoi_bounds String.[] n h = cc
atoi_bounds (String.◌∷◌ c s) n h = elim (Bool-cases (nat_eq (code c) 45)) [
  | inl e ↦ signed_bounds (String.◌∷◌ c s) true (some_digits s) n (rw e at h)
  | inr e ↦ elim (Bool-cases (nat_eq (code c) 43)) [
    | inl f ↦ signed_bounds (String.◌∷◌ c s) false (some_digits s) n (rw (e, f) at h)
    | inr f ↦ signed_bounds (String.◌∷◌ c s) false (some_digits (String.◌∷◌ c s)) n (rw (e, f) at h)
  ]
]

abbrev IsSound : InstanceSize → Type 0
IsSound i = IsFamily i × IsInt64 i.size

sized-IsSound :
    (family text : String) (b : Bool) (i : InstanceSize)
    → (family ≡ "M") ⊎ (family ≡ "R")
    → sized family b (atoi text) ≡ ok i
    → IsSound i
sized-IsSound family text b i f h = read (atoi text) refl h
  where
    read : (a : Answer ℤ) → atoi text ≡ a → sized family b a ≡ ok i → IsSound i
    read (err e) g k = cc
    read (ok n) g k = subst IsSound (ok_injective _ i k) (f, atoi_bounds text n g)

of_first-IsSound :
    (text : String) (b : Bool) (i : InstanceSize) → of_first text b ≡ returns (ok i) → IsSound i
of_first-IsSound String.[] b i h = cc
of_first-IsSound (String.◌∷◌ c s) b i h = elim (Bool-cases (nat_eq (code c) 77)) [
  | inl e ↦ sized-IsSound "M" s b i (inl refl) (returned _ _ (rw e at h))
  | inr e ↦ elim (Bool-cases (nat_eq (code c) 82)) [
    | inl f ↦ sized-IsSound "R" s b i (inr refl) (returned _ _ (rw (e, f) at h))
    | inr f ↦ cc (rw (e, f) at h)
  ]
]

-- The instance size that a name gives is of the family M or R, and its number is an int64.
pub parsed_size_bounds :
    (name : String) (i : InstanceSize)
    → new_from_instance_size_name name ≡ returns (ok i)
    → IsFamily i × IsInt64 i.size
unfolding new_from_instance_size_name
parsed_size_bounds name i h = elim (Bool-cases (is_short name)) [
  | inl e ↦ cc (rw e at h)
  | inr e ↦ pieces (split_underscore name) (rw e at h)
]
  where
    pieces : (ps : List String) → of_pieces ps ≡ returns (ok i) → IsSound i
    pieces [] g = cc
    pieces (p ∷ ps) g = of_first-IsSound p (is_nvme_suffix ps) i g

of_first_returns : (c : Char) (s : String) (b : Bool) → of_first (String.◌∷◌ c s) b ≢ panics
of_first_returns c s b h = elim (Bool-cases (nat_eq (code c) 77)) [
  | inl e ↦ cc (rw e at h)
  | inr e ↦ elim (Bool-cases (nat_eq (code c) 82)) [
    | inl f ↦ cc (rw (e, f) at h)
    | inr f ↦ cc (rw (e, f) at h)
  ]
]

prepend_returns : (c : Char) (ps : List String) → of_pieces (prepend c ps) ≢ panics
prepend_returns c [] = of_first_returns c String.[] false
prepend_returns c (p ∷ ps) = of_first_returns c p (is_nvme_suffix ps)

-- A name of at least two bytes makes the code panic exactly when it starts with an underscore.
pub underscore_panics_iff :
    (c : Char) (s : String)
    → is_short (String.◌∷◌ c s) ≡ false
    → (new_from_instance_size_name (String.◌∷◌ c s) ≡ panics) ↔ (code c ≡ 95)
unfolding new_from_instance_size_name split_underscore
underscore_panics_iff c s h = elim (Bool-cases (nat_eq (code c) 95)) [
  | inl e ↦ rw (h, e) ((λ g. ground (arith, e)), (λ g. refl))
  | inr e ↦
      rw (h, e)
        ((λ g. elim (prepend_returns c (split_underscore s) g) [ ]), (λ g. ground (arith, e, g)))
]
