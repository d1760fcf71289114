-- ===== src/Bundle/Names/Lexical.antt =====
-- A name that `_safe_target` accepts stays below its root, read component by component.
use zcc_analysis.Common.{ℕ, zero, suc, ◌≡◌, ◌≢◌, arith, Bool, true, false, ◌||◌, Option, none, some}
use zcc_analysis.Common.{List, [], ◌∷◌, Str, str_eq, codes}
use zcc_analysis.Bundle.Names.{
  safe_target, components, dot_dot, has_dot_dot, is_empty, slash, backslash,
}

-- How deep below the root a walk along the components ends, `none` if it climbs above the root. An
-- empty component and a single dot are no step.
unfoldable pub walk : ℕ → List Str → Option ℕ
unfolding str_eq
walk depth [] = some depth
walk depth (p ∷ ps) = elim (str_eq p dot_dot) [
  | true ↦ elim depth [ zero ↦ none | suc d ↦ walk d ps ]
  | false ↦ elim (is_empty p || str_eq p (codes ".")) [
    | true ↦ walk depth ps
    | false ↦ walk (suc depth) ps
  ]
]

walk-ne-none : (depth : ℕ) (ps : List Str) → has_dot_dot ps ≡ false → walk depth ps ≢ none
unfolding walk has_dot_dot
walk-ne-none depth [] h = ground arith
walk-ne-none depth (p ∷ ps) h = ground (arith, walk-ne-none depth ps, walk-ne-none (suc depth) ps)

module _ (inside : Str → Str → Bool) (root : Str) where
  accepted_first :
      (c : ℕ) (s : Str) → safe_target inside root (c ∷ s) ≡ none → (c ≢ slash) × (c ≢ backslash)
  unfolding safe_target
  accepted_first c s h = (ground arith, ground arith)

  accepted_second : (c d : ℕ) (s : Str) → safe_target inside root (c ∷ d ∷ s) ≡ none → d ≢ b':'
  unfolding safe_target
  accepted_second c d s h = ground arith

-- What an accepted name looks like, beside the answer of the file system.
pub record IsContained (inside : Str → Str → Bool) (root name : Str) : Type 0 where
  pub below : walk 0 (components name) ≢ none
  pub relative : (c : ℕ) (s : Str) → name ≡ c ∷ s → (c ≢ slash) × (c ≢ backslash)
  pub driveless : (c d : ℕ) (s : Str) → name ≡ c ∷ d ∷ s → d ≢ b':'
  pub resolved : inside root name ≡ true

-- A name that is accepted is relative to its root, names no drive, never climbs above it on the way, and resolves
-- below it on the file system.
pub safe_target-IsContained :
    (inside : Str → Str → Bool) (root name : Str)
    → safe_target inside root name ≡ none
    → IsContained inside root name
safe_target-IsContained inside root name h = record {
  below = walk-ne-none 0 (components name) (unfold safe_target in ground arith);
  relative = λ c s e. accepted_first inside root c s (rw e at h);
  driveless = λ c d s e. accepted_second inside root c d s (rw e at h);
  resolved = unfold safe_target in ground arith;
}
