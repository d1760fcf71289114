-- ===== src/Tests/Buckets.antt =====
-- Four lines and their report.

use zcc_analysis.Common.{
  ◌≡◌, refl, Bool, true, false, none, List, [], ◌∷◌, length, ◌==◌, Str, codes, any, String,
}
use zcc_analysis.Common.Counters.{get}
use zcc_analysis.Viewer.Index.{Line}
use zcc_analysis.Buckets.Rules.{Rule, component_services, component_subsystems}
use zcc_analysis.Buckets.Lines.{Via, Class, decide, default_of, classify_line}
use zcc_analysis.Buckets.Lines.Laws.{declared, classify_line-IsFirst}
use zcc_analysis.Buckets.Report.{Report, build_buckets}
use zcc_analysis.Buckets.Report.Laws.{IsCounted, build_buckets-IsCounted}

-- A text is a match of a pattern that has its first character.
abbrev has_first : Str → Str → Bool
has_first pattern [] = false
has_first pattern (c ∷ body) = any (λ d. c == d) pattern

abbrev line : String → String → Line
line body component = record {
  ts = 0;
  level = [];
  body = codes body;
  component = codes component;
  source_file = codes "f";
  line_no = 1;
  session_id = none;
}

abbrev lines : List Line
lines = line "~" "upm" ∷ line "B" "tray" ∷ line "~" "other" ∷ line "~~" "tunnel" ∷ []

abbrev report : Report
report = build_buckets has_first (λ pattern by text. text) (λ text. text) lines true 3

counts_of_report :
    report.unclassified_service
      ∷ report.unclassified_subsystem
      ∷ get report.by_service (codes "zdx")
      ∷ get report.by_service (codes "zcc_core")
      ∷ []
    ≡ 1 ∷ 2 ∷ 1 ∷ 1 ∷ []
unfolding build_buckets get
counts_of_report = refl

classify_line-IsFirst_example :
    let c : Class = classify_line has_first (codes "B") (codes "tray") in
    let s : Str × Via =
      decide
        (declared has_first (λ (r : Rule). r.service) (codes "B"))
        (default_of component_services (codes "tray")) in
    let t : Str × Via =
      decide
        (declared has_first (λ (r : Rule). r.subsystem) (codes "B"))
        (default_of component_subsystems (codes "tray")) in
    (c.service ≡ s.0) × (c.service_via ≡ s.1) × (c.subsystem ≡ t.0) × (c.subsystem_via ≡ t.1)
classify_line-IsFirst_example = classify_line-IsFirst has_first (codes "B") (codes "tray")

build_buckets-IsCounted_example :
    (report.total_lines ≡ length lines) × IsCounted true (codes "zdx") report
build_buckets-IsCounted_example =
    build_buckets-IsCounted has_first (λ pattern by text. text) (λ text. text) lines true 3
      (codes "zdx")
