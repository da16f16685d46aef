-- ===== src/Collection/Paging.antt =====
-- internal/translation/paging/list.go. A list function reads a page at a number; the loop has no
-- bound in Go, and runs on fuel here, where none is that the fuel has run out.
use mongodb_atlas_kubernetes.Base.{
  ℕ, zero, suc, ◌+◌, ◌≤◌, ◌<◌, ◌≡◌, ◌≢◌, refl, ap, sym, ◌∙◌, Bool, true, false, Option, none, some,
  List, [], ◌∷◌, ◌++◌, if◌then◌else◌, ◌||◌, is_empty, is_some, length, length-append, leb, arith,
  Bool-cases, inl, inr,
}
use mongodb_atlas_kubernetes.Base.Errors.{plain, Answer, ok, err}

-- Response
pub record Page (A : Type 0) : Type 0 where
  pub results : List A
  pub total_count : ℕ

abbrev pub ListFunc : Type 0 → Type 0 → Type 0
ListFunc W A = ℕ → W → Answer (Option (Page A)) × W

abbrev pub Outcome : Type 0 → Type 0 → Type 0
Outcome W A = Option (Answer (List A)) × W

module _ {W A : Type 0} where
  -- The body of the loop after the call; `rest` is the next round.
  abbrev pub take_page :
      List A → (List A → W → Outcome W A) → Answer (Option (Page A)) × W → Outcome W A
  take_page found rest (err e, w) = (some (err e), w)
  take_page found rest (ok none, w) = (some (err (plain "no response")), w)
  take_page found rest (ok (some p), w) =
      let found' = found ++ p.results in
      if is_empty p.results || leb p.total_count (length found')
      then (some (ok found'), w)
      else rest found' w

  unfoldable pub list_pages : ListFunc W A → ℕ → ℕ → List A → W → Outcome W A
  list_pages f zero page found w = (none, w)
  list_pages f (suc fuel) page found w = take_page found (list_pages f fuel (suc page)) (f page w)

  unfoldable pub list_all : ListFunc W A → ℕ → W → Outcome W A
  unfolding list_pages
  list_all f fuel w = list_pages f fuel 1 [] w

  -- No answer has a greater total count.
  abbrev pub IsBounded : ListFunc W A → ℕ → Type 0
  IsBounded f bound =
      (page : ℕ) (w : W) (p : Page A) → (f page w).0 ≡ ok (some p) → p.total_count ≤ bound

  take_page_ends :
      (bound : ℕ) (found : List A) (rest : List A → W → Outcome W A)
      (o : Answer (Option (Page A)) × W)
      → ((p : Page A) → o.0 ≡ ok (some p) → p.total_count ≤ bound)
      → ((more : List A) (w : W)
          → length found < length more
          → length more < bound
          → is_some (rest more w).0 ≡ true)
      → is_some (take_page found rest o).0 ≡ true
  take_page_ends bound found rest (err e, w) b h = refl
  take_page_ends bound found rest (ok none, w) b h = refl
  take_page_ends bound found rest (ok (some p), w) b h = ends p.results refl
    where
      stop : List A → Bool
      stop rs = is_empty rs || leb p.total_count (length (found ++ rs))

      ends :
          (rs : List A)
          → p.results ≡ rs
          → is_some (if stop rs then (some (ok (found ++ rs)), w) else rest (found ++ rs) w).0
            ≡ true
      ends [] e = refl
      ends (x ∷ rs) e = elim (Bool-cases (leb p.total_count (length (found ++ x ∷ rs)))) [
        | inl l ↦ rw l refl
        | inr l ↦ rw l (
            h (found ++ x ∷ rs) w (omega (arith, length-append found (x ∷ rs)))
              (ground (arith, b p refl)))
      ]

  list_pages_ends :
      (f : ListFunc W A) (bound : ℕ)
      → IsBounded f bound
      → (k page : ℕ) (found : List A) (w : W) → bound ≤ k + length found
      → is_some (list_pages f (suc k) page found w).0 ≡ true
  unfolding list_pages
  list_pages_ends f bound b zero page found w h =
      take_page_ends bound found (list_pages f zero (suc page)) (f page w) (b page w)
        (λ more w lt lt'. ground arith)
  list_pages_ends f bound b (suc k) page found w h =
      take_page_ends bound found (list_pages f (suc k) (suc page)) (f page w) (b page w)
        (λ more w lt lt'. list_pages_ends f bound b k (suc page) more w (omega arith))

  -- If no answer has a total count above a bound, the loop ends within one round more than the
  -- bound, whatever the pages are.
  pub list_all_ends :
      (f : ListFunc W A) (bound : ℕ) (w : W)
      → IsBounded f bound
      → is_some (list_all f (suc bound) w).0 ≡ true
  unfolding list_all
  list_all_ends f bound w b = list_pages_ends f bound b bound 1 [] w (omega arith)

module _ {A : Type 0} where
  abbrev pub flatten : List (List A) → List A
  flatten [] = []
  flatten (p ∷ ps) = p ++ flatten ps

  append_empty : (xs : List A) → xs ++ [] ≡ xs
  append_empty [] = refl
  append_empty (x ∷ xs) = ap (◌∷◌ x) (append_empty xs)

  append_assoc : (xs ys zs : List A) → (xs ++ ys) ++ zs ≡ xs ++ (ys ++ zs)
  append_assoc [] ys zs = refl
  append_assoc (x ∷ xs) ys zs = ap (◌∷◌ x) (append_assoc xs ys zs)

module _ {W A : Type 0} where
  -- From a page number on, the list function answers these pages, none of them empty.
  abbrev pub Serves : ListFunc W A → ℕ → ℕ → List (List A) → Type 0
  Serves f total page [] =
      (w : W) → (f page w).0 ≡ ok (some (record { results = []; total_count = total }))
  Serves f total page (p ∷ ps) =
      ((w : W) → (f page w).0 ≡ ok (some (record { results = p; total_count = total })))
      × (is_empty p ≡ false)
      × Serves f total (suc page) ps

  take_page_ok :
      (found : List A) (rest : List A → W → Outcome W A) (o : Answer (Option (Page A)) × W)
      (p : Page A)
      → o.0 ≡ ok (some p)
      → take_page found rest o ≡ take_page found rest (ok (some p), o.1)
  take_page_ok found rest (a, w) p e = ap (λ a. take_page found rest (a, w)) e

  -- The loop ends at a page when nothing is left, and goes on otherwise.
  took_page :
      (found p : List A) (left : List A) (total : ℕ) (rest : List A → W → Outcome W A) (w : W)
      → is_empty p ≡ false
      → total ≡ length (found ++ (p ++ left))
      → ((left ≢ []) → (rest (found ++ p) w).0 ≡ some (ok (found ++ (p ++ left))))
      → (take_page found rest (ok (some (record { results = p; total_count = total })), w)).0
        ≡ some (ok (found ++ (p ++ left)))
  took_page found p [] total rest w n t h = rw (append_empty p, n, reached) refl
    where
      reached : leb total (length (found ++ p)) ≡ true
      reached = ground (arith, ap (λ q. length (found ++ q)) (append_empty p))
  took_page found p (x ∷ left) total rest w n t h = rw (n, unreached) (h (λ e. cc))
    where
      unreached : leb total (length (found ++ p)) ≡ false
      unreached = ground (
        arith,
        length-append found (p ++ x ∷ left),
        length-append p (x ∷ left),
        length-append found p,
      )

  list_pages_all :
      (f : ListFunc W A) (total k page : ℕ) (found : List A) (ps : List (List A)) (w : W)
      → Serves f total page ps
      → total ≡ length (found ++ flatten ps)
      → length ps ≤ k
      → (list_pages f (suc k) page found w).0 ≡ some (ok (found ++ flatten ps))
  unfolding list_pages
  list_pages_all f total k page found [] w s t h =
      ap (λ o. o.0)
        (take_page_ok found (list_pages f k (suc page)) (f page w)
          (record { results = []; total_count = total }) (s w))
  list_pages_all f total zero page found (p ∷ ps) w s t h = ground arith
  list_pages_all f total (suc k) page found (p ∷ ps) w (s, n, more) t h =
      ap (λ o. o.0)
        (take_page_ok found (list_pages f (suc k) (suc page)) (f page w)
          (record { results = p; total_count = total }) (s w))
      ∙ took_page found p (flatten ps) total (list_pages f (suc k) (suc page)) (f page w).1 n t
          (λ ne.
            list_pages_all f total k (suc page) (found ++ p) ps (f page w).1 more
              (t ∙ ap length (sym (append_assoc found p (flatten ps)))) (omega arith)
            ∙ ap (λ xs. some (ok xs)) (append_assoc found p (flatten ps)))

  -- If the list function answers, at the numbers from one on, pages that are not empty and then an
  -- empty one, each with the number of all elements as its total count, then with fuel for more
  -- rounds than pages the loop answers all elements in their order.
  pub list_all_complete :
      (f : ListFunc W A) (ps : List (List A)) (k : ℕ) (w : W)
      → Serves f (length (flatten ps)) 1 ps
      → length ps ≤ k
      → (list_all f (suc k) w).0 ≡ some (ok (flatten ps))
  unfolding list_all
  list_all_complete f ps k w s h = list_pages_all f (length (flatten ps)) k 1 [] ps w s refl h
