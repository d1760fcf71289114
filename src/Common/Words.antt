-- ===== src/Common/Words.antt =====
-- Python `str` and `bytes` as lists of numbers: code points, or byte values.
use Prim.Native.Nat.{ℕ}
use Prim.Native.Char.{code}
use Prim.Native.String.{String}
use mathlib.Core.Path.{◌≡◌, refl}
use mathlib.Core.Logic.{◌↔◌}
use mathlib.Core.Bool.{Bool, true, false, ◌&&◌, ◌||◌}
use mathlib.Core.List.{List, [], ◌∷◌}
use native.Mathlib.Omega.{arith}
use zcc_analysis.Common.Tests.{◌==◌}

-- A text is the list of its code points.
abbrev pub Str : Type 0
Str = List ℕ

abbrev pub codes : String → Str
codes String.[] = []
codes (String.◌∷◌ c s) = code c ∷ codes s

-- `s == t`
unfoldable pub str_eq : Str → Str → Bool
str_eq [] [] = true
str_eq (a ∷ s) (b ∷ t) = a == b && str_eq s t
str_eq _ _ = false

pub str_eq_self : (s : Str) → str_eq s s ≡ true
unfolding str_eq
str_eq_self [] = refl
str_eq_self (a ∷ s) = ground (arith, str_eq_self s)

pub eq_of_str_eq : (s t : Str) → str_eq s t ≡ true → s ≡ t
unfolding str_eq
eq_of_str_eq [] [] h = refl
eq_of_str_eq [] (b ∷ t) h = cc
eq_of_str_eq (a ∷ s) [] h = cc
eq_of_str_eq (a ∷ s) (b ∷ t) h = ground (arith, eq_of_str_eq s t)

pub str_eq_iff : (s t : Str) → (str_eq s t ≡ true) ↔ (s ≡ t)
str_eq_iff s t = (eq_of_str_eq s t, λ e. rw e (str_eq_self t))

-- `s.startswith(p)`
unfoldable pub starts_with : Str → Str → Bool
starts_with s [] = true
starts_with [] (b ∷ p) = false
starts_with (a ∷ s) (b ∷ p) = a == b && starts_with s p

-- `needle in s`
unfoldable pub contains : Str → Str → Bool
unfolding starts_with
contains needle [] = starts_with [] needle
contains needle (a ∷ s) = starts_with (a ∷ s) needle || contains needle s

-- `x in xs`, on texts.
unfoldable pub mem_str : Str → List Str → Bool
unfolding str_eq
mem_str x [] = false
mem_str x (y ∷ ys) = str_eq x y || mem_str x ys
