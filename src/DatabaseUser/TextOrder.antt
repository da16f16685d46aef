-- ===== src/DatabaseUser/TextOrder.antt =====
-- strings.Compare is antisymmetric.
use Prim.Native.Nat.{ℕ, zero, suc, Ordering, compare as compare_nat}
use Prim.Native.Nat.compare as nats
use Prim.Native.Char.{code}
use Prim.Native.String.{String, compare, then}
use Prim.Native.String.compare as texts
use text.Mathlib.Text.{is_lt}
use mongodb_atlas_kubernetes.Base.{◌≡◌, refl, true, false}

abbrev opposite_order : Ordering → Ordering
opposite_order Ordering.lt = Ordering.gt
opposite_order Ordering.eq = Ordering.eq
opposite_order Ordering.gt = Ordering.lt

opposite_nat : (m n : ℕ) → compare_nat n m ≡ opposite_order (compare_nat m n)
opposite_nat zero zero = rw nats.zero-zero refl
opposite_nat zero (suc n) = rw (nats.suc-zero n, nats.zero-suc n) refl
opposite_nat (suc m) zero = rw (nats.suc-zero m, nats.zero-suc m) refl
opposite_nat (suc m) (suc n) = rw (nats.suc-suc n m, nats.suc-suc m n) (opposite_nat m n)

opposite_then :
    (a b o p : Ordering)
    → b ≡ opposite_order a
    → p ≡ opposite_order o
    → then b p ≡ opposite_order (then a o)
opposite_then Ordering.lt b o p h k = rw h refl
opposite_then Ordering.eq b o p h k = rw h k
opposite_then Ordering.gt b o p h k = rw h refl

opposite_text : (s t : String) → compare t s ≡ opposite_order (compare s t)
opposite_text String.[] String.[] = rw texts.nil-nil refl
opposite_text String.[] (String.◌∷◌ d t) = rw (texts.cons-nil d t, texts.nil-cons d t) refl
opposite_text (String.◌∷◌ c s) String.[] = rw (texts.nil-cons c s, texts.cons-nil c s) refl
opposite_text (String.◌∷◌ c s) (String.◌∷◌ d t) =
    rw (texts.cons-cons c d s t, texts.cons-cons d c t s)
      (opposite_then (compare_nat (code c) (code d)) (compare_nat (code d) (code c)) (compare s t)
        (compare t s) (opposite_nat (code c) (code d)) (opposite_text s t))

not_below : (o p : Ordering) → p ≡ opposite_order o → is_lt o ≡ true → is_lt p ≡ false
not_below Ordering.lt p h k = rw h refl
not_below Ordering.eq p h k = cc
not_below Ordering.gt p h k = cc

pub lt_asym : (s t : String) → is_lt (compare s t) ≡ true → is_lt (compare t s) ≡ false
lt_asym s t h = not_below (compare s t) (compare t s) (opposite_text s t) h
