-- ===== src/Viewer/Pages/Laws.antt =====
-- The pages of a listing, together and one by one.
use zcc_analysis.Common.{
  ℕ, zero, suc, ◌+◌, ◌-◌, ◌*◌, ◌/◌, ◌≤◌, ◌≡◌, refl, ap, arith, max, List, [], ◌∷◌, ◌++◌, length,
  take, drop, length-take, ◌∙◌,
}
use zcc_analysis.Viewer.Pages.{real_size, clamp, pages, paginate}

real_size-pos : (n : ℕ) → 1 ≤ real_size n
unfolding real_size
real_size-pos n = ground arith

div-covers : (n s : ℕ) → 1 ≤ s → n ≤ ((n + s - 1) / s) * s
div-covers n s h = omega arith

at_least_one : (n s q : ℕ) → n ≤ q * s → n ≤ max 1 q * s
at_least_one n s zero h = omega (arith, h)
at_least_one n s (suc q) h = let e : max 1 (suc q) ≡ suc q = omega arith in rw e h

clamp-le : (total page : ℕ) → 1 ≤ total → (1 ≤ clamp total page) × (clamp total page ≤ total)
unfolding clamp
clamp-le total page h = (ground (arith, h), ground (arith, h))

clamp_self : (total page : ℕ) → 1 ≤ page → page ≤ total → clamp total page ≡ page
unfolding clamp
clamp_self total page h k = ground (arith, h, k)

module _ {ℓ} {A : Type ℓ} where
  take-append-take : (m n : ℕ) (xs : List A) → take m xs ++ take n (drop m xs) ≡ take (m + n) xs
  take-append-take zero n xs = let e : 0 + n ≡ n = omega arith in rw e refl
  take-append-take (suc m) n [] = at_nil n
    where
      at_nil : (n : ℕ) → take {A = A} n [] ≡ take (suc m + n) []
      at_nil zero = let e : suc m + 0 ≡ suc m = omega arith in rw e refl
      at_nil (suc n) = let e : suc m + suc n ≡ suc (m + suc n) = omega arith in rw e refl
  take-append-take (suc m) n (x ∷ xs) =
      let e : suc m + n ≡ suc (m + n) = omega arith in
      rw e (ap (λ r. x ∷ r) (take-append-take m n xs))

  take_all : (n : ℕ) (xs : List A) → length xs ≤ n → take n xs ≡ xs
  take_all zero [] h = refl
  take_all zero (x ∷ xs) h = elim h [ ]
  take_all (suc n) [] h = refl
  take_all (suc n) (x ∷ xs) h = ap (λ r. x ∷ r) (take_all n xs (omega (arith, h)))

  pages-pos : (lines : List A) (page_size : ℕ) → 1 ≤ pages lines page_size
  unfolding pages
  pages-pos lines page_size = omega arith

  -- Whatever page is asked for, the page shown is one of those there are, and
  -- it shows no more lines than the page size (200 where that is 0).
  pub paginate-clamps :
      (lines : List A) (page page_size : ℕ)
      → (1 ≤ (paginate lines page page_size).page)
        × ((paginate lines page page_size).page ≤ (paginate lines page page_size).total_pages)
        × (length (paginate lines page page_size).slice ≤ real_size page_size)
  unfolding paginate
  paginate-clamps lines page page_size =
      let total = pages lines page_size in
      let at = clamp-le total page (pages-pos lines page_size) in
      let s = real_size page_size in
      let start = (clamp total page - 1) * s in
      (at.0, at.1, omega (arith, length-take (start + s - start) (drop start lines)))

  -- The lines of the pages 1 to `k`.
  abbrev pub shown : List A → ℕ → ℕ → List A
  shown lines page_size zero = []
  shown lines page_size (suc k) =
      shown lines page_size k ++ (paginate lines (suc k) page_size).slice

  shown-eq-take :
      (lines : List A) (page_size k : ℕ)
      → k ≤ pages lines page_size
      → shown lines page_size k ≡ take (k * real_size page_size) lines
  unfolding paginate
  shown-eq-take lines page_size zero h =
      let e : 0 * real_size page_size ≡ 0 = omega arith in rw e refl
  shown-eq-take lines page_size (suc k) h =
      let s = real_size page_size in
      let here = clamp_self (pages lines page_size) (suc k) (omega arith) h in
      let one : suc k - 1 ≡ k = omega arith in
      let off : (suc k - 1) * s ≡ k * s = ap (λ x. x * s) one in
      let width : k * s + s - k * s ≡ s = omega arith in
      let all : suc k * s ≡ k * s + s = omega arith in
      rw (here, off, width, all, shown-eq-take lines page_size k (omega (arith, h)))
        (take-append-take (k * s) s lines)

  -- The pages one after another, from the first to the last, are the lines:
  -- none is lost, shown twice or moved.
  pub paginate-covers :
      (lines : List A) (page_size : ℕ)
      → shown lines page_size (paginate lines 1 page_size).total_pages ≡ lines
  unfolding paginate pages
  paginate-covers lines page_size =
      let s = real_size page_size in
      let n = length lines in
      let enough : n ≤ max 1 ((n + s - 1) / s) * s =
        at_least_one n s ((n + s - 1) / s) (div-covers n s (real_size-pos page_size)) in
      shown-eq-take lines page_size (pages lines page_size) (omega arith)
      ∙ take_all (pages lines page_size * s) lines enough
