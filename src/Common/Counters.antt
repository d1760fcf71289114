-- ===== src/Common/Counters.antt =====
-- Python dicts in insertion order: counters, and dicts of sets.
use zcc_analysis.Common.{
  str_eq_iff, length, keep, ℕ, ◌+◌, ◌≡◌, arith, true, false, List, [], ◌∷◌, ◌++◌, if◌then◌else◌,
}
use zcc_analysis.Common.{Str, str_eq, mem_str}

abbrev pub Counter : Type 0
Counter = List (Str × ℕ)

-- `counts.get(key, 0)`
unfoldable pub get : Counter → Str → ℕ
unfolding str_eq
get [] key = 0
get ((k, n) ∷ counts) key = if str_eq k key then n else get counts key

-- `counts[key] = counts.get(key, 0) + gain`
unfoldable pub add : Counter → Str → ℕ → Counter
unfolding str_eq
add [] key gain = (key, gain) ∷ []
add ((k, n) ∷ counts) key gain =
    let rest = add counts key gain in if str_eq k key then (k, n + gain) ∷ counts else (k, n) ∷ rest

-- `sets.setdefault(key, set()).add(x)`
unfoldable pub add_to_set : List (Str × List Str) → Str → Str → List (Str × List Str)
unfolding str_eq mem_str
add_to_set [] key x = (key, x ∷ []) ∷ []
add_to_set ((k, xs) ∷ sets) key x =
    let rest = add_to_set sets key x in
    if str_eq k key then (k, if mem_str x xs then xs else xs ++ x ∷ []) ∷ sets else (k, xs) ∷ rest

abbrev pub sum : Counter → ℕ
sum [] = 0
sum ((k, n) ∷ counts) = n + sum counts

pub sum-add :
    (counts : Counter) (key : Str) (gain : ℕ) → sum (add counts key gain) ≡ sum counts + gain
unfolding add
sum-add [] key gain = omega arith
sum-add ((k, n) ∷ counts) key gain =
    elim (str_eq k key)
      as (λ b.
        sum (if b then (k, n + gain) ∷ counts else (k, n) ∷ add counts key gain)
        ≡ n + sum counts + gain) [
          | true ↦ omega arith
          | false ↦ omega (arith, sum-add counts key gain)
        ]

pub get-add :
    (counts : Counter) (key other : Str) (gain : ℕ)
    → get (add counts key gain) other ≡ get counts other + (if str_eq key other then gain else 0)
unfolding get add
get-add [] key other gain = ground arith
get-add ((k, n) ∷ counts) key other gain = ground (
  arith,
  get-add counts key other gain,
  str_eq_iff k key,
  str_eq_iff k other,
  str_eq_iff key other,
)

module _ {A : Type 0} (key : A → Str) where
  -- `for x in xs: counts[key(x)] += 1`
  unfoldable pub tally : List A → Counter → Counter
  unfolding add
  tally [] counts = counts
  tally (x ∷ xs) counts = tally xs (add counts (key x) 1)

  pub sum-tally : (xs : List A) (counts : Counter) → sum (tally xs counts) ≡ sum counts + length xs
  unfolding tally
  sum-tally [] counts = omega arith
  sum-tally (x ∷ xs) counts =
      omega (arith, sum-add counts (key x) 1, sum-tally xs (add counts (key x) 1))

  pub get-tally :
      (xs : List A) (counts : Counter) (k : Str)
      → get (tally xs counts) k ≡ get counts k + length (keep (λ x. str_eq (key x) k) xs)
  unfolding tally
  get-tally [] counts k = omega arith
  get-tally (x ∷ xs) counts k =
      ground (arith, get-add counts (key x) k 1, get-tally xs (add counts (key x) 1) k)
