-- ===== src/Common/Integers.antt =====
-- Differences of native numbers, under the library's names of the integers.
use Prim.Native.Nat.{ℕ, zero, suc}
use mathlib.Core.Path.{◌≡◌, refl}

-- `negsuc n` is `-(n + 1)`.
pub data ℤ : Type 0 where
  pos : ℕ → ℤ
  negsuc : ℕ → ℤ

unfoldable pub negate : ℤ → ℤ
negate (pos zero) = pos zero
negate (pos (suc n)) = negsuc n
negate (negsuc n) = pos (suc n)

-- `b - a`
unfoldable pub minus : ℕ → ℕ → ℤ
minus zero b = pos b
minus (suc a) zero = negsuc a
minus (suc a) (suc b) = minus a b

pub negate-minus : (a b : ℕ) → negate (minus a b) ≡ minus b a
unfolding negate minus
negate-minus zero zero = refl
negate-minus zero (suc b) = refl
negate-minus (suc a) zero = refl
negate-minus (suc a) (suc b) = negate-minus a b
