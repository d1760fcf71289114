-- ===== src/Common/Order.antt =====
-- The order of Python texts: that of the first code points that differ.

use mathlib.Core.Path.{◌≡◌, refl}
use mathlib.Core.Bool.{Bool, true, false, ◌&&◌, ◌||◌}
use mathlib.Core.List.{[], ◌∷◌}
use native.Mathlib.Omega.{arith}
use zcc_analysis.Common.Tests.{ltb, ◌==◌}
use zcc_analysis.Common.Words.{Str}

-- `s <= t`
unfoldable pub str_le : Str → Str → Bool
str_le [] t = true
str_le (a ∷ s) [] = false
str_le (a ∷ s) (b ∷ t) = ltb a b || a == b && str_le s t

pub str_le_total : (s t : Str) → str_le s t ≡ false → str_le t s ≡ true
unfolding str_le
str_le_total [] t h = cc
str_le_total (a ∷ s) [] h = refl
str_le_total (a ∷ s) (b ∷ t) h = ground (arith, str_le_total s t)

pub str_le_antisymm : (s t : Str) → str_le s t ≡ true → str_le t s ≡ true → s ≡ t
unfolding str_le
str_le_antisymm [] [] h k = refl
str_le_antisymm [] (b ∷ t) h k = cc
str_le_antisymm (a ∷ s) [] h k = cc
str_le_antisymm (a ∷ s) (b ∷ t) h k = ground (arith, str_le_antisymm s t)

pub str_le_trans : (s t u : Str) → str_le s t ≡ true → str_le t u ≡ true → str_le s u ≡ true
unfolding str_le
str_le_trans [] t u h k = refl
str_le_trans (a ∷ s) [] u h k = cc
str_le_trans (a ∷ s) (b ∷ t) [] h k = cc
str_le_trans (a ∷ s) (b ∷ t) (c ∷ u) h k = ground (arith, str_le_trans s t u)
