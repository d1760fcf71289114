-- ===== src/Viewer/Severity.antt =====
-- `line_severity`, `filter_by_level` and `severity_counts`: the two signals that colour a record, and
-- the level filter. The catalog's matches for a body and `str.upper` are arguments.
pub mod Laws
use zcc_analysis.Common.{
  ℕ, zero, suc, ◌+◌, Bool, true, false, ◌&&◌, Option, none, some, List, [], ◌∷◌, ◌++◌,
}
use zcc_analysis.Common.{Str, codes, str_eq, mem_str, keep, any, leb, if◌then◌else◌}

pub data Severity : Type 0 where
  unmarked medium critical : Severity

-- `_SEVERITY_RANK`
unfoldable pub rank : Severity → ℕ
rank unmarked = 0
rank medium = 1
rank critical = 2

-- The fields of a `CatalogEntry` that are read here.
pub record Entry : Type 0 where
  pub severity : Str
  pub code : Str
  pub label : Str

abbrev pub error_levels : List Str
error_levels =
    codes "ERR"
    ∷ codes "CRT"
    ∷ codes "ERROR"
    ∷ codes "CRITICAL"
    ∷ codes "CRIT"
    ∷ codes "FATAL"
    ∷ codes "FTL"
    ∷ []

abbrev pub warning_levels : List Str
warning_levels = codes "WAR" ∷ codes "WRN" ∷ codes "WARN" ∷ codes "WARNING" ∷ []

-- `"..." in severities`
unfoldable pub has_severity : Str → List Entry → Bool
unfolding str_eq
has_severity s es = any (λ e. str_eq e.severity s) es

unfoldable pub documented : List Entry → Severity
unfolding has_severity
documented es =
    if has_severity (codes "critical") es
    then critical
    else if has_severity (codes "warning") es
    then medium
    else unmarked

-- `entry.severity`, as a severity of a line is spelled in the catalog.
abbrev pub spelling : Severity → Str
spelling critical = codes "critical"
spelling _ = codes "warning"

-- `next((entry for entry in matches if entry.severity == ...), None)`
unfoldable pub first_with : Str → List Entry → Option Entry
unfolding str_eq
first_with s [] = none
first_with s (e ∷ es) = if str_eq e.severity s then some e else first_with s es

-- `a or b`
unfoldable pub or_text : Str → Str → Str
or_text [] b = b
or_text (c ∷ a) b = c ∷ a

unfoldable pub label_of : Option Entry → Str
unfolding or_text
label_of none = []
label_of (some e) = or_text e.code e.label

unfoldable pub with_label : Str → Str
with_label [] = []
with_label (c ∷ l) = codes ": " ++ (c ∷ l)

unfoldable pub documented_why : Severity → List Entry → Str
unfolding first_with label_of with_label
documented_why unmarked es = []
documented_why s es =
    codes "documented " ++ (spelling s ++ with_label (label_of (first_with (spelling s) es)))

unfoldable pub from_level : Str → Severity
unfolding mem_str
from_level upper =
    if mem_str upper error_levels
    then critical
    else if mem_str upper warning_levels
    then medium
    else unmarked

-- `f"{upper} record"`, where the level has a severity.
unfoldable pub level_why : Severity → Str → Severity × Str
level_why unmarked upper = (unmarked, [])
level_why s upper = (s, upper ++ codes " record")

-- The stronger signal; the catalog wins a tie.
unfoldable pub choose : Severity → Str → Severity → Str → Severity × Str
unfolding rank level_why
choose unmarked why s upper = level_why s upper
choose d why s upper = if leb (rank s) (rank d) then (d, why) else level_why s upper

-- `line_severity`, on the catalog's matches for the body and the level in upper case.
unfoldable pub line_severity : List Entry → Str → Severity × Str
unfolding documented documented_why from_level choose
line_severity es upper =
    choose (documented es) (documented_why (documented es) es) (from_level upper) upper

-- `LEVEL_SCOPES`
pub data Scope : Type 0 where
  all_records err_and_war err_only war_only : Scope

-- A record, as the filter reads it: its number and its level.
pub record RawLine : Type 0 where
  pub line_no : ℕ
  pub level : Str
  pub severity : Severity

module _ (upper : Str → Str) where
  unfoldable pub in_levels : List Str → RawLine → Bool
  unfolding mem_str
  in_levels levels line = mem_str (upper line.level) levels

  unfoldable pub filter_by_level : List RawLine → Scope → List RawLine
  unfolding in_levels
  filter_by_level lines all_records = lines
  filter_by_level lines err_only = keep (in_levels error_levels) lines
  filter_by_level lines war_only = keep (in_levels warning_levels) lines
  filter_by_level lines err_and_war = keep (in_levels (error_levels ++ warning_levels)) lines

-- The tally of `severity_counts`.
pub record Counts : Type 0 where
  pub critical_lines : ℕ
  pub medium_lines : ℕ
  pub other_lines : ℕ

unfoldable pub tally : Severity → Counts → Counts
tally critical c = record c { critical_lines = c.critical_lines + 1 }
tally medium c = record c { medium_lines = c.medium_lines + 1 }
tally unmarked c = record c { other_lines = c.other_lines + 1 }

unfoldable pub count_from : Counts → List RawLine → Counts
unfolding tally
count_from c [] = c
count_from c (line ∷ lines) = count_from (tally line.severity c) lines

unfoldable pub severity_counts : List RawLine → Counts
unfolding count_from
severity_counts lines =
    count_from (record { critical_lines = 0; medium_lines = 0; other_lines = 0 }) lines
