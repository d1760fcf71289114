-- ===== src/Common/Groups/Laws.antt =====
-- What a dict of lists holds after values were pushed and grouped, and sums over lists.

use zcc_analysis.Common.{
  total, total-append, ℕ, ◌+◌, ◌≡◌, refl, sym, subst, ◌↔◌, inl, inr, Bool, true, false, List, [],
  ◌∷◌, ◌++◌, append-nil, append_assoc, arith, keep, All, All-append, if◌then◌else◌, Bool-cases,
}
use zcc_analysis.Common.Groups.{Groups, push, lookup, group_from, group_by, AllIn, IsFresh, IsKeyed}

module _ {K : Type 0} (eq : K → K → Bool) (eq_iff : (a b : K) → (eq a b ≡ true) ↔ (a ≡ b)) where
  pub eq_symm : (a b : K) → eq a b ≡ false → eq b a ≡ false
  eq_symm a b e = elim (Bool-cases (eq b a)) [
    | inr d ↦ d
    | inl d ↦ ground (arith, (eq_iff b a).0 d)
  ]

module _ {K A : Type 0} (eq : K → K → Bool) (eq_iff : (a b : K) → (eq a b ≡ true) ↔ (a ≡ b)) where
  pub push-AllIn :
      (P : K → A → Type 0) (key : K) (x : A) (groups : Groups K A)
      → AllIn eq P groups
      → P key x
      → AllIn eq P (push eq key x groups)
  unfolding push
  push-AllIn P key x [] h p = ((p, tt), tt)
  push-AllIn P key x ((k, xs) ∷ groups) h p = elim (Bool-cases (eq k key)) [
    | inl e ↦ rw e (
      All-append (P k) xs (x ∷ []) h.0 (subst (λ j. P j x) (sym ((eq_iff k key).0 e)) p, tt),
      h.1,
    )
    | inr e ↦ rw e (h.0, push-AllIn P key x groups h.1 p)
  ]

  pub lookup-AllIn :
      (P : K → A → Type 0) (groups : Groups K A) (key : K)
      → AllIn eq P groups
      → All (P key) (lookup eq groups key)
  unfolding lookup
  lookup-AllIn P [] key h = tt
  lookup-AllIn P ((k, xs) ∷ groups) key h = elim (Bool-cases (eq k key)) [
    | inl e ↦ rw e (subst (λ j. All (P j) xs) ((eq_iff k key).0 e) h.0)
    | inr e ↦ rw e (lookup-AllIn P groups key h.1)
  ]

  pub group_from-AllIn :
      (P : K → A → Type 0) (key : A → K) (xs : List A) (groups : Groups K A)
      → AllIn eq P groups
      → All (λ x. P (key x) x) xs
      → AllIn eq P (group_from eq key xs groups)
  unfolding group_from
  group_from-AllIn P key [] groups h k = h
  group_from-AllIn P key (x ∷ xs) groups h k =
      group_from-AllIn P key xs (push eq (key x) x groups) (push-AllIn P (key x) x groups h k.0) k.1

  push-IsFresh :
      (key : K) (x : A) (groups : Groups K A) (k : K)
      → eq key k ≡ false
      → IsFresh eq k groups
      → IsFresh eq k (push eq key x groups)
  unfolding push
  push-IsFresh key x [] k e h = (e, tt)
  push-IsFresh key x ((j, xs) ∷ groups) k e h = elim (Bool-cases (eq j key)) [
    | inl d ↦ rw d (h.0, h.1)
    | inr d ↦ rw d (h.0, push-IsFresh key x groups k e h.1)
  ]

  pub push-IsKeyed :
      (key : K) (x : A) (groups : Groups K A)
      → IsKeyed eq groups
      → IsKeyed eq (push eq key x groups)
  unfolding push
  push-IsKeyed key x [] h = (tt, tt)
  push-IsKeyed key x ((k, xs) ∷ groups) h = elim (Bool-cases (eq k key)) [
    | inl e ↦ rw e (h.0, h.1)
    | inr e ↦
        rw e (
          push-IsFresh key x groups k (eq_symm eq eq_iff k key e) h.0,
          push-IsKeyed key x groups h.1,
        )
  ]

  pub group_from-IsKeyed :
      (key : A → K) (xs : List A) (groups : Groups K A)
      → IsKeyed eq groups
      → IsKeyed eq (group_from eq key xs groups)
  unfolding group_from
  group_from-IsKeyed key [] groups h = h
  group_from-IsKeyed key (x ∷ xs) groups h =
      group_from-IsKeyed key xs (push eq (key x) x groups) (push-IsKeyed (key x) x groups h)

  -- The first entry with a key is the only one.
  pub lookup-IsKeyed :
      (groups : Groups K A) → IsKeyed eq groups → All (λ e. lookup eq groups e.0 ≡ e.1) groups
  unfolding lookup
  lookup-IsKeyed [] h = tt
  lookup-IsKeyed ((k, xs) ∷ groups) h =
      (rw ((eq_iff k k).1 refl) refl, both groups h.0 (lookup-IsKeyed groups h.1))
    where
      both :
          (es : Groups K A)
          → IsFresh eq k es
          → All (λ e. lookup eq groups e.0 ≡ e.1) es
          → All (λ e. (if eq k e.0 then xs else lookup eq groups e.0) ≡ e.1) es
      both [] f g = tt
      both (e ∷ es) f g = (rw (eq_symm eq eq_iff e.0 k f.0) g.0, both es f.1 g.1)

  pub lookup-push :
      (key : K) (x : A) (groups : Groups K A) (k : K)
      → lookup eq (push eq key x groups) k
        ≡ (if eq key k then lookup eq groups k ++ x ∷ [] else lookup eq groups k)
  unfolding lookup push
  lookup-push key x [] k = refl
  lookup-push key x ((j, xs) ∷ groups) k =
      ground (arith, lookup-push key x groups k, eq_iff j key, eq_iff j k, eq_iff key k)

  pub lookup-group_from :
      (key : A → K) (xs : List A) (groups : Groups K A) (k : K)
      → lookup eq (group_from eq key xs groups) k
        ≡ lookup eq groups k ++ keep (λ x. eq (key x) k) xs
  unfolding group_from
  lookup-group_from key [] groups k = sym (append-nil (lookup eq groups k))
  lookup-group_from key (x ∷ xs) groups k = elim (Bool-cases (eq (key x) k)) [
    | inl e ↦
        rw
          (
            e,
            lookup-group_from key xs (push eq (key x) x groups) k,
            lookup-push (key x) x groups k,
            e,
          )
          (append_assoc (lookup eq groups k) (x ∷ []) (keep (λ y. eq (key y) k) xs))
    | inr e ↦
        rw
          (
            e,
            lookup-group_from key xs (push eq (key x) x groups) k,
            lookup-push (key x) x groups k,
            e,
          )
          refl
  ]

  -- The values grouped under a key are those with the key, in order.
  pub lookup-group_by :
      (key : A → K) (xs : List A) (k : K)
      → lookup eq (group_by eq key xs) k ≡ keep (λ x. eq (key x) k) xs
  unfolding group_by lookup
  lookup-group_by key xs k = lookup-group_from key xs [] k

-- A sum over the values pushed.
module _ {K A : Type 0} (eq : K → K → Bool) (w : A → ℕ) where
  abbrev pub total_in : Groups K A → ℕ
  total_in groups = total (λ e. total w e.1) groups

  pub total_in-push :
      (key : K) (x : A) (groups : Groups K A)
      → total_in (push eq key x groups) ≡ total_in groups + w x
  unfolding push
  total_in-push key x [] = omega arith
  total_in-push key x ((k, xs) ∷ groups) =
      elim (eq k key)
        as (λ b.
          total_in (if b then (k, xs ++ x ∷ []) ∷ groups else (k, xs) ∷ push eq key x groups)
          ≡ total w xs + total_in groups + w x) [
            | true ↦ omega (arith, total-append w xs (x ∷ []))
            | false ↦ omega (arith, total_in-push key x groups)
          ]

  pub total_in-group_from :
      (key : A → K) (xs : List A) (groups : Groups K A)
      → total_in (group_from eq key xs groups) ≡ total_in groups + total w xs
  unfolding group_from
  total_in-group_from key [] groups = omega arith
  total_in-group_from key (x ∷ xs) groups =
      omega (
        arith,
        total_in-push (key x) x groups,
        total_in-group_from key xs (push eq (key x) x groups),
      )
