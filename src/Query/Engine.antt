-- ===== src/Query/Engine.antt =====
-- What query.py takes from Python's library: the regular-expression engine, the Unicode tables of
-- `str`, `int` and `datetime.strptime`. A time is its number of microseconds from 0001-01-01 UTC.
use zcc_analysis.Common.{ℕ, Bool, true, false, Option, [], ◌∷◌, Str}
use zcc_analysis.Common.{if◌then◌else◌}

-- A Python `int`; `negsuc n` is -(n + 1).
pub data ℤ : Type 0 where
  pos : ℕ → ℤ
  negsuc : ℕ → ℤ

-- A compiled `re.Pattern`: its source and the one flag that the program sets.
pub record Pattern : Type 0 where
  pub source : Str
  pub ignore_case : Bool

pub record Engine : Type 0 where
  -- whether `re.compile` accepts the source
  pub valid : Str → Bool
  -- `bool(pattern.search(text))`
  pub search : Pattern → Str → Bool
  -- `re.escape`
  pub escape : Str → Str
  -- `str.lower`, `str.upper`, and the characters of `str.isspace` and `\s`
  pub lower : Str → Str
  pub upper : Str → Str
  pub is_space : ℕ → Bool
  -- `int(text)`, where it does not raise, and `str(n)`
  pub parse_int : Str → Option ℤ
  pub show_int : ℤ → Str
  -- `datetime.strptime(text, format)`, where it does not raise
  pub strptime : Str → Str → Option ℕ
  -- the two groups of `_DUR_RE.match(text)`: the number and the unit
  pub match_duration : Str → Option (ℕ × Str)

module _ (E : Engine) where
  -- `s.lstrip()`
  unfoldable pub strip_left : Str → Str
  strip_left [] = []
  strip_left (c ∷ s) = elim (E.is_space c) [ true ↦ strip_left s | false ↦ c ∷ s ]

  -- `s.rstrip()`
  unfoldable pub strip_right : Str → Str
  strip_right [] = []
  strip_right (c ∷ s) = elim (strip_right s) [
    | [] ↦ if E.is_space c then [] else c ∷ []
    | d ∷ t ↦ c ∷ d ∷ t
  ]

  -- `s.strip()`
  unfoldable pub strip : Str → Str
  unfolding strip_left strip_right
  strip s = strip_right (strip_left s)
