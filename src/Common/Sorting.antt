-- ===== src/Common/Sorting.antt =====
-- `list.sort` with a key: a stable sort by a test `le x y`, "x may stand before y".

use Prim.Native.Nat.{ℕ, zero, suc, ◌+◌}
use mathlib.Core.Path.{◌≡◌, refl}
use mathlib.Core.Logic.{inl, inr}
use mathlib.Core.Bool.{Bool, true, false}
use mathlib.Core.List.{List, [], ◌∷◌}
use native.Mathlib.Omega.{arith}
use zcc_analysis.Common.Tests.{if◌then◌else◌, Bool-cases}
use zcc_analysis.Common.Lists.{All, map-All, drop, keep, length, total}

module _ {A : Type 0} (le : A → A → Bool) where
  unfoldable pub insert_by : A → List A → List A
  insert_by x [] = x ∷ []
  insert_by x (y ∷ ys) = let rest = insert_by x ys in if le x y then x ∷ y ∷ ys else y ∷ rest

  unfoldable pub sort_by : List A → List A
  unfolding insert_by
  sort_by [] = []
  sort_by (x ∷ xs) = insert_by x (sort_by xs)

  -- Each element may stand before all later ones.
  abbrev pub IsSortedBy : List A → Type 0
  IsSortedBy [] = Unit
  IsSortedBy (x ∷ xs) = All (λ y. le x y ≡ true) xs × IsSortedBy xs

  pub insert_by-All :
      (P : A → Type 0) (x : A) (ys : List A) → P x → All P ys → All P (insert_by x ys)
  unfolding insert_by
  insert_by-All P x [] h k = (h, tt)
  insert_by-All P x (y ∷ ys) h k =
      elim (le x y) as (λ b. All P (if b then x ∷ y ∷ ys else y ∷ insert_by x ys)) [
        | true ↦ (h, k)
        | false ↦ (k.0, insert_by-All P x ys h k.1)
      ]

  pub sort_by-All : (P : A → Type 0) (xs : List A) → All P xs → All P (sort_by xs)
  unfolding sort_by
  sort_by-All P [] h = tt
  sort_by-All P (x ∷ xs) h = insert_by-All P x (sort_by xs) h.0 (sort_by-All P xs h.1)

  length-keep-insert_by :
      (p : A → Bool) (x : A) (ys : List A)
      → length (keep p (insert_by x ys)) ≡ length (keep p (x ∷ ys))
  unfolding insert_by
  length-keep-insert_by p x [] = refl
  length-keep-insert_by p x (y ∷ ys) = ground (arith, length-keep-insert_by p x ys)

  -- Sorting keeps how often a test holds.
  pub length-keep-sort_by :
      (p : A → Bool) (xs : List A) → length (keep p (sort_by xs)) ≡ length (keep p xs)
  unfolding sort_by
  length-keep-sort_by p [] = refl
  length-keep-sort_by p (x ∷ xs) =
      ground (arith, length-keep-insert_by p x (sort_by xs), length-keep-sort_by p xs)

  length-insert_by : (x : A) (ys : List A) → length (insert_by x ys) ≡ suc (length ys)
  unfolding insert_by
  length-insert_by x [] = refl
  length-insert_by x (y ∷ ys) = ground (arith, length-insert_by x ys)

  pub length-sort_by : (xs : List A) → length (sort_by xs) ≡ length xs
  unfolding sort_by
  length-sort_by [] = refl
  length-sort_by (x ∷ xs) = omega (arith, length-insert_by x (sort_by xs), length-sort_by xs)

  total-insert_by : (w : A → ℕ) (x : A) (ys : List A) → total w (insert_by x ys) ≡ w x + total w ys
  unfolding insert_by
  total-insert_by w x [] = refl
  total-insert_by w x (y ∷ ys) = ground (arith, total-insert_by w x ys)

  -- Sorting keeps sums.
  pub total-sort_by : (w : A → ℕ) (xs : List A) → total w (sort_by xs) ≡ total w xs
  unfolding sort_by
  total-sort_by w [] = refl
  total-sort_by w (x ∷ xs) = omega (arith, total-insert_by w x (sort_by xs), total-sort_by w xs)

  module _ (le_total : (a b : A) → le a b ≡ false → le b a ≡ true)
      (le_trans : (a b c : A) → le a b ≡ true → le b c ≡ true → le a c ≡ true) where
    insert_by-IsSortedBy : (x : A) (ys : List A) → IsSortedBy ys → IsSortedBy (insert_by x ys)
    unfolding insert_by
    insert_by-IsSortedBy x [] h = (tt, tt)
    insert_by-IsSortedBy x (y ∷ ys) h = elim (Bool-cases (le x y)) [
      | inl e ↦ rw e ((e, map-All ys (λ z k. le_trans x y z e k) h.0), h)
      | inr e ↦ rw e (
        insert_by-All (λ z. le y z ≡ true) x ys (le_total x y e) h.0,
        insert_by-IsSortedBy x ys h.1,
      )
    ]

    pub sort_by-IsSortedBy : (xs : List A) → IsSortedBy (sort_by xs)
    unfolding sort_by
    sort_by-IsSortedBy [] = tt
    sort_by-IsSortedBy (x ∷ xs) = insert_by-IsSortedBy x (sort_by xs) (sort_by-IsSortedBy xs)

module _ {A : Type 0} (P : A → Type 0) where
  pub keep-All : (p : A → Bool) (xs : List A) → All P xs → All P (keep p xs)
  keep-All p [] h = tt
  keep-All p (x ∷ xs) h = elim (p x) as (λ b. All P (if b then x ∷ keep p xs else keep p xs)) [
    | true ↦ (h.0, keep-All p xs h.1)
    | false ↦ keep-All p xs h.1
  ]

  pub drop-All : (n : ℕ) (xs : List A) → All P xs → All P (drop n xs)
  drop-All zero xs h = h
  drop-All (suc n) [] h = tt
  drop-All (suc n) (x ∷ xs) h = drop-All n xs h.1

-- A symmetric relation between any two elements of a list.
module _ {A : Type 0} (R : A → A → Type 0) where
  abbrev pub Pairwise : List A → Type 0
  Pairwise [] = Unit
  Pairwise (x ∷ xs) = All (R x) xs × Pairwise xs

  pub keep-Pairwise : (p : A → Bool) (xs : List A) → Pairwise xs → Pairwise (keep p xs)
  keep-Pairwise p [] h = tt
  keep-Pairwise p (x ∷ xs) h =
      elim (p x) as (λ b. Pairwise (if b then x ∷ keep p xs else keep p xs)) [
        | true ↦ (keep-All (R x) p xs h.0, keep-Pairwise p xs h.1)
        | false ↦ keep-Pairwise p xs h.1
      ]

  pub drop-Pairwise : (n : ℕ) (xs : List A) → Pairwise xs → Pairwise (drop n xs)
  drop-Pairwise zero xs h = h
  drop-Pairwise (suc n) [] h = tt
  drop-Pairwise (suc n) (x ∷ xs) h = drop-Pairwise n xs h.1

  module _ (symm : (a b : A) → R a b → R b a) (le : A → A → Bool) where
    insert_by-Pairwise :
        (x : A) (ys : List A) → All (R x) ys → Pairwise ys → Pairwise (insert_by le x ys)
    unfolding insert_by
    insert_by-Pairwise x [] h k = (tt, tt)
    insert_by-Pairwise x (y ∷ ys) h k =
        elim (le x y) as (λ b. Pairwise (if b then x ∷ y ∷ ys else y ∷ insert_by le x ys)) [
          | true ↦ (h, k)
          | false ↦
              (insert_by-All le (R y) x ys (symm x y h.0) k.0, insert_by-Pairwise x ys h.1 k.1)
        ]

    pub sort_by-Pairwise : (xs : List A) → Pairwise xs → Pairwise (sort_by le xs)
    unfolding sort_by
    sort_by-Pairwise [] h = tt
    sort_by-Pairwise (x ∷ xs) h =
        insert_by-Pairwise x (sort_by le xs) (sort_by-All le (R x) xs h.0) (sort_by-Pairwise xs h.1)
