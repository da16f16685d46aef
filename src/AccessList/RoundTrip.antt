-- ===== src/AccessList/RoundTrip.antt =====
-- The access list through the SDK's entries, and the host address of a block.
use text.Mathlib.TextLemmas.{nil-append, cons-append}
use mongodb_atlas_kubernetes.Base.{
  ℕ, suc, ◌+◌, ◌≤◌, ◌≡◌, ◌≢◌, refl, ap, sym, ◌∙◌, String, Bool, true, none, [], ◌∷◌, ◌++◌,
  if◌then◌else◌, str_eq, ◌⊎◌, eq_iff, eq_refl, insert, lookup, arith, inl, inr, concat, trim_right,
  ◌||◌, has_suffix, is_some,
}
use mongodb_atlas_kubernetes.AccessList.Entries.{IpAccessEntry, IpAccessEntries, entry_id}
use mongodb_atlas_kubernetes.AccessList.Conversion.{
  to_permission, to_atlas, of_permission, collect, from_atlas, unless_empty, or_empty, host_address,
}

or-unless_empty : (t : String) → or_empty (unless_empty t) ≡ t
or-unless_empty String.[] = refl
or-unless_empty (String.◌∷◌ c t) = refl

of-to_permission : (e : IpAccessEntry) → of_permission (to_permission e) ≡ e
unfolding of_permission to_permission
of-to_permission e = simp or-unless_empty

-- Every entry stands under its own identifier, and no two under one.
abbrev pub IsKeyed : IpAccessEntries → Type 0
IsKeyed [] = Unit {0}
IsKeyed ((k, e) ∷ m) = (entry_id e ≡ k) × (lookup k m ≡ none) × IsKeyed m

insert_fresh :
    (k : String) (e : IpAccessEntry) (m : IpAccessEntries)
    → lookup k m ≡ none
    → insert k e m ≡ m ++ (k, e) ∷ []
insert_fresh k e [] h = refl
insert_fresh k e ((j, d) ∷ m) h = ground (arith, insert_fresh k e m)

lookup-append :
    (k : String) (m n : IpAccessEntries)
    → lookup k (m ++ n) ≡ (if is_some (lookup k m) then lookup k m else lookup k n)
lookup-append k [] n = refl
lookup-append k ((j, d) ∷ m) n = ground (arith, lookup-append k m n)

-- None of the keys of `m` is one of `done`.
abbrev IsApart : IpAccessEntries → IpAccessEntries → Type 0
IsApart done [] = Unit {0}
IsApart done ((k, e) ∷ m) = (lookup k done ≡ none) × IsApart done m

IsApart-snoc :
    (done : IpAccessEntries) (k : String) (e : IpAccessEntry) (m : IpAccessEntries)
    → IsApart done m
    → lookup k m ≡ none
    → IsApart (done ++ (k, e) ∷ []) m
IsApart-snoc done k e [] a h = tt
IsApart-snoc done k e ((j, d) ∷ m) a h = (
  ground (arith, lookup-append j done ((k, e) ∷ []), eq_iff j k, eq_iff k j),
  IsApart-snoc done k e m a.1 (ground (arith, eq_iff j k)),
)

append_snoc :
    (xs : IpAccessEntries) (x : String × IpAccessEntry) (ys : IpAccessEntries)
    → (xs ++ x ∷ []) ++ ys ≡ xs ++ (x ∷ ys)
append_snoc [] x ys = refl
append_snoc (z ∷ xs) x ys = ap (◌∷◌ z) (append_snoc xs x ys)

append_empty : (xs : IpAccessEntries) → xs ++ [] ≡ xs
append_empty [] = refl
append_empty (x ∷ xs) = ap (◌∷◌ x) (append_empty xs)

collect-to_atlas :
    (m done : IpAccessEntries) → IsKeyed m → IsApart done m → collect (to_atlas m) done ≡ done ++ m
unfolding collect to_atlas
collect-to_atlas [] done w a = sym (append_empty done)
collect-to_atlas ((k, e) ∷ m) done (own, fresh, w) (apart, a) =
    ap (λ d. collect (to_atlas m) (insert (entry_id d) d done)) (of-to_permission e)
    ∙ ap (λ j. collect (to_atlas m) (insert j e done)) own
    ∙ ap (collect (to_atlas m)) (insert_fresh k e done apart)
    ∙ collect-to_atlas m (done ++ (k, e) ∷ []) w (IsApart-snoc done k e m a fresh)
    ∙ append_snoc done (k, e) m

IsApart-empty : (m : IpAccessEntries) → IsApart [] m
IsApart-empty [] = tt
IsApart-empty ((k, e) ∷ m) = (refl, IsApart-empty m)

-- If every entry stands under its own identifier and no two under one, the entries are the same
-- after the conversion to Atlas and back.
pub from-to_atlas : (m : IpAccessEntries) → IsKeyed m → from_atlas (to_atlas m) ≡ m
unfolding from_atlas
from-to_atlas m w = collect-to_atlas m [] w (IsApart-empty m)

-- Is the text the digit 2 or 3?
abbrev pub is_host_digit : String → Bool
is_host_digit c = str_eq c "2" || str_eq c "3"

-- The block of the one address whose text is `a` and then `c`.
abbrev pub block_of : String → String → String
block_of a c = concat a (concat c "/32")

-- The number of characters.
abbrev pub size : String → ℕ
size String.[] = 0
size (String.◌∷◌ c s) = suc (size s)

size-trim_right : (s cut : String) → size (trim_right s cut) ≤ size s
size-trim_right String.[] cut = omega arith
size-trim_right (String.◌∷◌ c s) cut = ground (arith, size-trim_right s cut)

size-concat : (s t : String) → size (concat s t) ≡ size s + size t
size-concat String.[] t = rw (nil-append t) (omega arith)
size-concat (String.◌∷◌ c s) t = rw (cons-append c s t) (ground (arith, size-concat s t))

trim_right-concat :
    (s t cut : String) → trim_right t cut ≡ "" → trim_right (concat s t) cut ≡ trim_right s cut
trim_right-concat String.[] t cut h = rw (nil-append t) h
trim_right-concat (String.◌∷◌ c s) t cut h =
    rw (cons-append c s t, trim_right-concat s t cut h) refl

has_suffix_self : (t : String) → has_suffix t t ≡ true
has_suffix_self String.[] = refl
has_suffix_self (String.◌∷◌ c s) = ground (arith, eq_refl (String.◌∷◌ c s))

has_suffix-concat : (s t : String) → has_suffix (concat s t) t ≡ true
has_suffix-concat String.[] t = rw (nil-append t) (has_suffix_self t)
has_suffix-concat (String.◌∷◌ c s) t = rw (cons-append c s t, has_suffix-concat s t) (ground arith)

host_digit_cases : (c : String) → is_host_digit c ≡ true → (c ≡ "2") ⊎ (c ≡ "3")
host_digit_cases c d = ground (arith, eq_iff c "2", eq_iff c "3")

trim_right_digit : (c : String) → (c ≡ "2") ⊎ (c ≡ "3") → trim_right (concat c "/32") "/32" ≡ ""
trim_right_digit c (inl e) = rw e refl
trim_right_digit c (inr e) = rw e refl

size_digit : (c : String) → (c ≡ "2") ⊎ (c ≡ "3") → size c ≡ 1
size_digit c (inl e) = rw e refl
size_digit c (inr e) = rw e refl

has_suffix_later : (a c : String) → has_suffix (block_of a c) "/32" ≡ true
has_suffix_later String.[] c = rw (nil-append (concat c "/32")) (has_suffix-concat c "/32")
has_suffix_later (String.◌∷◌ d a) c =
    rw (cons-append d a (concat c "/32"), has_suffix_later a c) (ground arith)

host_address_block :
    (a c : String) → (c ≡ "2") ⊎ (c ≡ "3") → host_address (block_of a c) ≡ trim_right a "/32"
unfolding host_address
host_address_block a c d =
    ap (λ b. if b then trim_right (block_of a c) "/32" else "") block_suffix
    ∙ trim_right-concat a (concat c "/32") "/32" (trim_right_digit c d)
  where
    block_suffix : has_suffix (block_of a c) "/32" ≡ true
    block_suffix = has_suffix_later a c

-- The block of the one address `a` followed by a digit 2 or 3 is not given that address.
pub host_address_wrong :
    (a c : String) → is_host_digit c ≡ true → host_address (block_of a c) ≢ concat a c
host_address_wrong a c d same = ground (
  arith,
  size-trim_right a "/32",
  size-concat a c,
  size_digit c (host_digit_cases c d),
  sym (ap size (host_address_block a c (host_digit_cases c d))) ∙ ap size same,
)
