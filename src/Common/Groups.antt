-- ===== src/Common/Groups.antt =====
-- `defaultdict(list)`: lists under keys, the keys in the order of their first values.
pub mod Laws
use zcc_analysis.Common.{
  ℕ, zero, suc, ◌+◌, ◌≡◌, refl, arith, ap, sym, ◌∙◌, Bool, true, false, List, [], ◌∷◌, ◌++◌,
  append-nil, append_assoc, if◌then◌else◌, All, All-append, keep, length, length-append, ◌↔◌,
}

abbrev pub Groups : Type 0 → Type 0 → Type 0
Groups K A = List (K × List A)

module _ {K A : Type 0} (eq : K → K → Bool) where
  -- `groups[key].append(x)`
  unfoldable pub push : K → A → Groups K A → Groups K A
  push key x [] = (key, x ∷ []) ∷ []
  push key x ((k, xs) ∷ groups) =
      let rest = push key x groups in
      if eq k key then (k, xs ++ x ∷ []) ∷ groups else (k, xs) ∷ rest

  -- `groups.get(key, [])`
  unfoldable pub lookup : Groups K A → K → List A
  lookup [] key = []
  lookup ((k, xs) ∷ groups) key = if eq k key then xs else lookup groups key

  -- `for x in xs: groups[key(x)].append(x)`
  unfoldable pub group_from : (A → K) → List A → Groups K A → Groups K A
  unfolding push
  group_from key [] groups = groups
  group_from key (x ∷ xs) groups = group_from key xs (push (key x) x groups)

  unfoldable pub group_by : (A → K) → List A → Groups K A
  unfolding group_from
  group_by key xs = group_from key xs []

  -- What holds of every value under its key.
  abbrev pub AllIn : (K → A → Type 0) → Groups K A → Type 0
  AllIn P groups = All (λ e. All (P e.0) e.1) groups

  -- No entry has the key.
  abbrev pub IsFresh : K → Groups K A → Type 0
  IsFresh key groups = All (λ e. eq e.0 key ≡ false) groups

  -- No two entries have one key.
  abbrev pub IsKeyed : Groups K A → Type 0
  IsKeyed [] = Unit
  IsKeyed (e ∷ groups) = IsFresh e.0 groups × IsKeyed groups
