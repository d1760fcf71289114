-- ===== src/Tests/Engine.antt =====
-- A small engine for concrete queries: ASCII letters, decimal numbers, a pattern that stands for
-- itself, and timestamps that are decimal numbers of seconds.
use zcc_analysis.Common.{ℕ, ◌+◌, ◌-◌, ◌*◌, Bool, true, false, not, ◌&&◌, ◌||◌, Option, none, some}
use zcc_analysis.Common.{[], ◌∷◌, map, Str, codes, str_eq, contains, leb, ◌==◌, if◌then◌else◌}
use zcc_analysis.Query.Engine.{Engine, ℤ, pos}

abbrev pub lower_char : ℕ → ℕ
lower_char c = if leb b'A' c && leb c b'Z' then c + 32 else c

abbrev pub upper_char : ℕ → ℕ
upper_char c = if leb b'a' c && leb c b'z' then c - 32 else c

abbrev pub is_digit : ℕ → Bool
is_digit c = leb b'0' c && leb c b'9'

-- A run of digits, read onto what stands before it, and what follows.
abbrev pub digits : ℕ → Str → ℕ × Str
digits n [] = (n, [])
digits n (c ∷ s) = elim (is_digit c) [ true ↦ digits (n * 10 + (c - b'0')) s | false ↦ (n, c ∷ s) ]

abbrev pub decimal : Str → Option ℕ
decimal [] = none
decimal (c ∷ s) = elim (digits 0 (c ∷ s)).1 [ [] ↦ some (digits 0 (c ∷ s)).0 | d ∷ t ↦ none ]

abbrev pub seconds : Option ℕ → Option ℕ
seconds none = none
seconds (some n) = some (n * 1_000_000)

abbrev pub integer : Option ℕ → Option ℤ
integer none = none
integer (some n) = some (pos n)

-- Digits, and then a unit.
abbrev pub duration : Str → Option (ℕ × Str)
duration [] = none
duration (c ∷ s) = if is_digit c then some (digits 0 (c ∷ s)) else none

abbrev pub ascii : Engine
ascii = record {
  valid = λ p. not (str_eq p (codes "("));
  search = λ p text. contains p.source text;
  escape = λ s. s;
  lower = map lower_char;
  upper = map upper_char;
  is_space = λ c. c == 32 || leb 9 c && leb c 13;
  parse_int = λ s. integer (decimal s);
  show_int = λ n. codes "5";
  strptime = λ s f. seconds (decimal s);
  match_duration = duration;
}
