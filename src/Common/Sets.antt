-- ===== src/Common/Sets.antt =====
-- Python sets of texts as lists, and the sorted lists of their members.

use zcc_analysis.Common.{
  ◌≡◌, refl, sym, ap, subst, ◌∙◌, inl, inr, Bool, true, false, ◌&&◌, ◌||◌, List, [], ◌∷◌, ◌++◌,
  arith, keep, All, if◌then◌else◌, Bool-cases, Str, str_eq, str_eq_iff, mem_str,
}
use zcc_analysis.Common.Sorting.{
  IsSortedBy, Pairwise, sort_by, insert_by, sort_by-IsSortedBy, sort_by-Pairwise,
}
use zcc_analysis.Common.Order.{str_le, str_le_total, str_le_antisymm, str_le_trans}

-- `set(xs)`, its members in the order of their last occurrences.
unfoldable pub distinct : List Str → List Str
unfolding mem_str
distinct [] = []
distinct (x ∷ xs) = let rest = distinct xs in if mem_str x rest then rest else x ∷ rest

-- `sorted(xs)`
abbrev pub sorted : List Str → List Str
sorted xs = sort_by str_le xs

abbrev pub Differ : Str → Str → Type 0
Differ s t = str_eq s t ≡ false

Differ-symm : (s t : Str) → Differ s t → Differ t s
Differ-symm s t h = ground (arith, str_eq_iff s t, str_eq_iff t s, h)

mem_str-fresh : (x : Str) (xs : List Str) → mem_str x xs ≡ false → All (Differ x) xs
unfolding mem_str
mem_str-fresh x [] h = tt
mem_str-fresh x (y ∷ xs) h = (ground (arith, h), mem_str-fresh x xs (ground (arith, h)))

fresh-mem_str : (x : Str) (xs : List Str) → All (Differ x) xs → mem_str x xs ≡ false
unfolding mem_str
fresh-mem_str x [] h = refl
fresh-mem_str x (y ∷ xs) h = rw (h.0, fresh-mem_str x xs h.1) refl

pub distinct-Pairwise : (xs : List Str) → Pairwise Differ (distinct xs)
unfolding distinct
distinct-Pairwise [] = tt
distinct-Pairwise (x ∷ xs) = elim (Bool-cases (mem_str x (distinct xs))) [
  | inl e ↦ rw e (distinct-Pairwise xs)
  | inr e ↦ rw e (mem_str-fresh x (distinct xs) e, distinct-Pairwise xs)
]

pub mem_str-distinct : (v : Str) (xs : List Str) → mem_str v (distinct xs) ≡ mem_str v xs
unfolding distinct mem_str
mem_str-distinct v [] = refl
mem_str-distinct v (x ∷ xs) = elim (Bool-cases (mem_str x (distinct xs))) [
  | inr e ↦ rw (e, mem_str-distinct v xs) refl
  | inl e ↦ rw e (elim (Bool-cases (str_eq v x)) [
    | inr d ↦ rw d (mem_str-distinct v xs)
    | inl d ↦ rw d (subst (λ u. mem_str u (distinct xs) ≡ true) (sym ((str_eq_iff v x).0 d)) e)
  ])
]

pub mem_str-append :
    (v : Str) (xs ys : List Str) → mem_str v (xs ++ ys) ≡ (mem_str v xs || mem_str v ys)
unfolding mem_str
mem_str-append v [] ys = refl
mem_str-append v (x ∷ xs) ys = ground (arith, mem_str-append v xs ys)

-- A test that tells texts apart by their code points only.
pub mem_str-keep :
    (v : Str) (p : Str → Bool) (xs : List Str) → mem_str v (keep p xs) ≡ (mem_str v xs && p v)
unfolding mem_str
mem_str-keep v p [] = refl
mem_str-keep v p (x ∷ xs) = elim (Bool-cases (str_eq v x)) [
  | inl d ↦
      let same : p v ≡ p x = ap p ((str_eq_iff v x).0 d) in
      elim (Bool-cases (p x)) [
        | inl e ↦ rw (e, d, same ∙ e) refl
        | inr e ↦ rw (e, d) (ground (arith, mem_str-keep v p xs, same, e))
      ]
  | inr d ↦ elim (Bool-cases (p x)) [
    | inl e ↦ rw (e, d) (mem_str-keep v p xs)
    | inr e ↦ rw (e, d) (mem_str-keep v p xs)
  ]
]

mem_str-insert_by :
    (v x : Str) (xs : List Str) → mem_str v (insert_by str_le x xs) ≡ (str_eq v x || mem_str v xs)
unfolding insert_by mem_str
mem_str-insert_by v x [] = refl
mem_str-insert_by v x (y ∷ xs) = ground (arith, mem_str-insert_by v x xs)

pub mem_str-sorted : (v : Str) (xs : List Str) → mem_str v (sorted xs) ≡ mem_str v xs
unfolding sort_by mem_str
mem_str-sorted v [] = refl
mem_str-sorted v (x ∷ xs) = ground (arith, mem_str-insert_by v x (sorted xs), mem_str-sorted v xs)

-- Two ascending lists of distinct texts with the same members are one.
abbrev IsStrict : List Str → Type 0
IsStrict xs = IsSortedBy str_le xs × Pairwise Differ xs

le_of_mem :
    (x v : Str) (xs : List Str)
    → All (λ y. str_le x y ≡ true) xs
    → mem_str v xs ≡ true
    → str_le x v ≡ true
unfolding mem_str
le_of_mem x v [] h m = cc
le_of_mem x v (y ∷ xs) h m = elim (Bool-cases (str_eq v y)) [
  | inl d ↦ subst (λ u. str_le x u ≡ true) (sym ((str_eq_iff v y).0 d)) h.0
  | inr d ↦ le_of_mem x v xs h.1 (ground (arith, m, d))
]

heads :
    (x : Str) (xs : List Str) (y : Str) (ys : List Str)
    → IsStrict (x ∷ xs)
    → IsStrict (y ∷ ys)
    → mem_str x (y ∷ ys) ≡ true
    → mem_str y (x ∷ xs) ≡ true
    → x ≡ y
unfolding mem_str
heads x xs y ys h k m n = elim (Bool-cases (str_eq x y)) [
  | inl d ↦ (str_eq_iff x y).0 d
  | inr d ↦
      str_le_antisymm x y (le_of_mem x y xs h.0.0 (ground (arith, n, Differ-symm x y d)))
        (le_of_mem y x ys k.0.0 (ground (arith, m, d)))
]

pub strict_unique :
    (xs ys : List Str)
    → IsStrict xs
    → IsStrict ys
    → ((v : Str) → mem_str v xs ≡ mem_str v ys)
    → xs ≡ ys
unfolding mem_str
strict_unique [] [] h k m = refl
strict_unique [] (y ∷ ys) h k m = ground (arith, m y, (str_eq_iff y y).1 refl)
strict_unique (x ∷ xs) [] h k m = ground (arith, m x, (str_eq_iff x x).1 refl)
strict_unique (x ∷ xs) (y ∷ ys) h k m =
    let self : (s : Str) (ss : List Str) → mem_str s (s ∷ ss) ≡ true =
      λ s ss. ground (arith, (str_eq_iff s s).1 refl) in
    let same : x ≡ y = heads x xs y ys h k (sym (m x) ∙ self x xs) (m y ∙ self y ys) in
    let tails : (v : Str) → mem_str v xs ≡ mem_str v ys = λ v. elim (Bool-cases (str_eq v x)) [
      | inl d ↦
          drop_head xs v x d (fresh-mem_str x xs h.1.0)
          ∙ sym
              (drop_head ys v y (subst (λ u. str_eq v u ≡ true) same d) (fresh-mem_str y ys k.1.0))
      | inr d ↦ ground (arith, m v, d, subst (λ u. str_eq v u ≡ false) same d)
    ] in
    λ i. same i ∷ strict_unique xs ys (h.0.1, h.1.1) (k.0.1, k.1.1) tails i
  where
    drop_head :
        (zs : List Str) (v z : Str)
        → str_eq v z ≡ true
        → mem_str z zs ≡ false
        → mem_str v zs ≡ false
    drop_head zs v z d e = subst (λ u. mem_str u zs ≡ false) (sym ((str_eq_iff v z).0 d)) e

pub sorted_unique :
    (xs ys : List Str)
    → Pairwise Differ xs
    → Pairwise Differ ys
    → ((v : Str) → mem_str v xs ≡ mem_str v ys)
    → sorted xs ≡ sorted ys
sorted_unique xs ys h k m =
    strict_unique (sorted xs) (sorted ys) (strict xs h) (strict ys k)
      (λ v. mem_str-sorted v xs ∙ m v ∙ sym (mem_str-sorted v ys))
  where
    strict : (zs : List Str) → Pairwise Differ zs → IsStrict (sorted zs)
    strict zs g = (
      sort_by-IsSortedBy str_le str_le_total str_le_trans zs,
      sort_by-Pairwise Differ Differ-symm str_le zs g,
    )
