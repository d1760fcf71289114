-- ===== src/Tests/Viewer.antt =====
-- The viewers' functions on a few lines.
use zcc_analysis.Common.{none, ℕ, ◌≡◌, refl, max, Bool, some, List, [], ◌∷◌}
use zcc_analysis.Common.{String, Str, codes, keep, length}
use zcc_analysis.Viewer.Index.{Line, surrounding_lines}
use zcc_analysis.Viewer.Index.Laws.{IsSorted, count, near, surrounding_lines-IsSorted}
use zcc_analysis.Viewer.Pages.{paginate}
use zcc_analysis.Viewer.Pages.Laws.{shown, paginate-covers}
use zcc_analysis.Viewer.Severity.{
  Entry, rank, documented, from_level, line_severity, critical, RawLine, severity_counts, unmarked,
}
use zcc_analysis.Viewer.Severity.Laws.{
  HasReason, line_severity-max, counted, severity_counts-length,
}

abbrev line : ℕ → Line
line n = record {
  ts = n;
  level = codes "ERR";
  body = codes "body";
  component = codes "tunnel";
  source_file = codes "a.log";
  line_no = n;
  session_id = none;
}

abbrev lines : List Line
lines = line 3 ∷ line 9 ∷ line 1 ∷ line 2 ∷ []

context : surrounding_lines lines (codes "a.log") (some 2) 1 ≡ line 1 ∷ line 2 ∷ line 3 ∷ []
unfolding surrounding_lines
context = refl

surrounding_lines-IsSorted_example :
    IsSorted (surrounding_lines lines (b'a' ∷ codes ".log") (some 2) 1)
    × ((p : Line → Bool)
        → count p (surrounding_lines lines (b'a' ∷ codes ".log") (some 2) 1)
          ≡ count p (keep (near (b'a' ∷ codes ".log") 2 1) lines))
surrounding_lines-IsSorted_example = surrounding_lines-IsSorted lines b'a' (codes ".log") 2 1

abbrev letters : Str
letters = codes "abcdefg"

third_page : (paginate letters 9 3).slice ≡ codes "g"
unfolding paginate
third_page = refl

paginate-covers_example : shown letters 3 (paginate letters 1 3).total_pages ≡ letters
paginate-covers_example = paginate-covers letters 3

abbrev entry : Entry
entry = record { severity = codes "critical"; code = codes "5008"; label = codes "x" }

critical_code :
    line_severity (entry ∷ []) (codes "INF") ≡ (critical, codes "documented critical: 5008")
unfolding line_severity
critical_code = refl

line_severity-max_example :
    (rank (line_severity (entry ∷ []) (codes "WAR")).0
      ≡ max (rank (documented (entry ∷ []))) (rank (from_level (codes "WAR"))))
    × HasReason (line_severity (entry ∷ []) (codes "WAR"))
line_severity-max_example = line_severity-max (entry ∷ []) (codes "WAR")

abbrev raw : String → RawLine
raw level = record { line_no = 1; level = codes level; severity = unmarked }

abbrev raws : List RawLine
raws = raw "err" ∷ raw "INF" ∷ raw "war" ∷ raw "CRT" ∷ []

severity_counts-length_example : counted (severity_counts raws) ≡ length raws
severity_counts-length_example = severity_counts-length raws
