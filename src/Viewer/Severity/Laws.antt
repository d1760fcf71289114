-- ===== src/Viewer/Severity/Laws.antt =====
-- The stronger of two signals colours a line, and the level filters share out the lines.
use zcc_analysis.Common.{ℕ, ◌+◌, ◌≡◌, inl, inr, refl, arith, max, true, false, Bool-cases, ◌||◌}
use zcc_analysis.Common.{List, [], ◌∷◌, ◌++◌, Str, str_eq, eq_of_str_eq, mem_str, keep, length, All}
use zcc_analysis.Viewer.Severity.{
  Severity, unmarked, medium, critical, rank, Entry, error_levels, warning_levels, documented,
  documented_why, from_level, level_why, choose, line_severity, err_and_war, err_only, war_only,
  RawLine, in_levels, filter_by_level, Counts, tally, count_from, severity_counts,
}

-- The reason is a text exactly where there is a severity.
abbrev pub HasReason : Severity × Str → Type 0
HasReason (unmarked, why) = why ≡ []
HasReason (s, []) = ⊥
HasReason (s, c ∷ why) = Unit

level_why-rank : (s : Severity) (upper : Str) → rank (level_why s upper).0 ≡ rank s
unfolding level_why
level_why-rank unmarked upper = refl
level_why-rank medium upper = refl
level_why-rank critical upper = refl

level_why-HasReason : (s : Severity) (upper : Str) → HasReason (level_why s upper)
unfolding level_why
level_why-HasReason unmarked upper = refl
level_why-HasReason medium [] = tt
level_why-HasReason medium (c ∷ u) = tt
level_why-HasReason critical [] = tt
level_why-HasReason critical (c ∷ u) = tt

choose-rank :
    (d s : Severity) (why upper : Str) → rank (choose d why s upper).0 ≡ max (rank d) (rank s)
unfolding choose level_why rank
choose-rank unmarked unmarked why upper = refl
choose-rank unmarked medium why upper = refl
choose-rank unmarked critical why upper = refl
choose-rank medium unmarked why upper = refl
choose-rank medium medium why upper = refl
choose-rank medium critical why upper = refl
choose-rank critical unmarked why upper = refl
choose-rank critical medium why upper = refl
choose-rank critical critical why upper = refl

choose-HasReason :
    (d s : Severity) (es : List Entry) (upper : Str)
    → HasReason (choose d (documented_why d es) s upper)
unfolding choose documented_why rank level_why
choose-HasReason unmarked s es upper = level_why-HasReason s upper
choose-HasReason medium critical es [] = tt
choose-HasReason medium critical es (c ∷ u) = tt
choose-HasReason medium unmarked es upper = tt
choose-HasReason medium medium es upper = tt
choose-HasReason critical unmarked es upper = tt
choose-HasReason critical medium es upper = tt
choose-HasReason critical critical es upper = tt

-- The severity of a line is the stronger of the catalog's and the level's, whichever that is, and
-- the reason is empty exactly where the line is not marked.
pub line_severity-max :
    (es : List Entry) (upper : Str)
    → (rank (line_severity es upper).0 ≡ max (rank (documented es)) (rank (from_level upper)))
      × HasReason (line_severity es upper)
unfolding line_severity
line_severity-max es upper = (
  choose-rank (documented es) (from_level upper) _ upper,
  choose-HasReason (documented es) (from_level upper) es upper,
)

-- What holds of every text of a list holds of one that is in it.
mem_str-All : (P : Str → Type 0) (x : Str) (ys : List Str) → mem_str x ys ≡ true → All P ys → P x
unfolding mem_str
mem_str-All P x [] h k = cc
mem_str-All P x (y ∷ ys) h k = elim (Bool-cases (str_eq x y)) [
  | inl e ↦ rw (eq_of_str_eq x y e) k.0
  | inr e ↦ mem_str-All P x ys (rw e at h) k.1
]

error_not_warning : (u : Str) → mem_str u error_levels ≡ true → mem_str u warning_levels ≡ false
unfolding mem_str str_eq
error_not_warning u h =
    mem_str-All (λ y. mem_str y warning_levels ≡ false) u error_levels h
      (refl, (refl, (refl, (refl, (refl, (refl, (refl, tt)))))))

mem_str-append :
    (x : Str) (ys zs : List Str) → mem_str x (ys ++ zs) ≡ (mem_str x ys || mem_str x zs)
unfolding mem_str
mem_str-append x [] zs = refl
mem_str-append x (y ∷ ys) zs = ground (arith, mem_str-append x ys zs)

module _ (upper : Str → Str) where
  -- A level is an error, a warning, or neither.
  both_levels :
      (line : RawLine)
      → in_levels upper (error_levels ++ warning_levels) line
        ≡ (in_levels upper error_levels line || in_levels upper warning_levels line)
  unfolding in_levels
  both_levels line = mem_str-append (upper line.level) error_levels warning_levels

  levels_apart :
      (line : RawLine)
      → in_levels upper error_levels line ≡ true
      → in_levels upper warning_levels line ≡ false
  unfolding in_levels
  levels_apart line = error_not_warning (upper line.level)

  length-keep_levels :
      (ls : List RawLine)
      → length (keep (in_levels upper (error_levels ++ warning_levels)) ls)
        ≡ length (keep (in_levels upper error_levels) ls)
          + length (keep (in_levels upper warning_levels) ls)
  length-keep_levels [] = refl
  length-keep_levels (l ∷ ls) = ground (arith, both_levels l, levels_apart l, length-keep_levels ls)

  -- What the scopes of the errors and of the warnings show, the scope of both shows: a record is
  -- under one of the two at most, and the numbers of the two add up.
  pub filter_by_level-shares :
      (ls : List RawLine)
      → length (filter_by_level upper ls err_and_war)
        ≡ length (filter_by_level upper ls err_only) + length (filter_by_level upper ls war_only)
  unfolding filter_by_level
  filter_by_level-shares ls = length-keep_levels ls

-- All that a tally counts.
abbrev pub counted : Counts → ℕ
counted c = c.critical_lines + c.medium_lines + c.other_lines

counted-tally : (s : Severity) (c : Counts) → counted (tally s c) ≡ counted c + 1
unfolding tally
counted-tally unmarked c = omega arith
counted-tally medium c = omega arith
counted-tally critical c = omega arith

counted-count_from :
    (c : Counts) (ls : List RawLine) → counted (count_from c ls) ≡ counted c + length ls
unfolding count_from
counted-count_from c [] = omega arith
counted-count_from c (l ∷ ls) =
    omega (arith, counted-count_from (tally l.severity c) ls, counted-tally l.severity c)

-- Each line is tallied once.
pub severity_counts-length : (ls : List RawLine) → counted (severity_counts ls) ≡ length ls
unfolding severity_counts
severity_counts-length ls = omega (
  arith,
  counted-count_from (record { critical_lines = 0; medium_lines = 0; other_lines = 0 }) ls,
)
