-- ===== src/Tests/Build.antt =====
-- The index of a bundle with two tunnel logs and a file that is not read.
use zcc_analysis.Common.{
  ◌≡◌, refl, arith, Option, none, some, List, [], ◌∷◌, Str, codes, map, length,
}
use zcc_analysis.Common.Sorting.{IsSortedBy}
use zcc_analysis.Viewer.Index.{Line}
use zcc_analysis.Viewer.Build.{
  Found, Parts, LogIndex, component_of, iter_log_files, line_le, build_index,
}
use zcc_analysis.Viewer.Build.Limits.{IsWithin, IsCapped}
use zcc_analysis.Viewer.Build.Laws.{build_index-IsSortedBy, build_index-IsWithin}

-- A line whose first character is its time.
abbrev match : Str → Option Parts
match [] = none
match (c ∷ body) = some (record {
  ts = some c;
  tz = codes "(+05:30)";
  level = codes "INF";
  body = body;
  session_id = none;
  host = some (codes "h");
})

abbrev found : List Found
found =
    record {
      name = codes "ZSATunnel_1.log";
      size = some 300;
      text = some (codes "2b" ∷ codes "3c" ∷ []);
    }
    ∷ record {
      name = codes "ZSATunnel_2.log";
      size = some 400;
      text = some (codes "1a" ∷ [] ∷ codes "4d" ∷ []);
    }
    ∷ record { name = codes "ZSAHelper_1.log"; size = some 500; text = none }
    ∷ []

abbrev index : LogIndex
index = build_index match found none (some 10_000)

bodies_of_index :
    map (λ (ln : Line). ln.body) index.lines ≡ codes "a" ∷ codes "b" ∷ codes "c" ∷ codes "d" ∷ []
unfolding build_index component_of
bodies_of_index = refl

offset_of_index : index.bundle_tz_offset ≡ some (codes "+0530")
unfolding build_index component_of
offset_of_index = refl

-- A budget that one file uses up.
bodies_in_budget :
    map (λ (ln : Line). ln.body) (build_index match found none (some 450)).lines
    ≡ codes "a" ∷ codes "d" ∷ []
unfolding build_index component_of
bodies_in_budget = refl

-- With `max_lines`, the first lines of the newest file are kept.
bodies_in_cap :
    map (λ (ln : Line). ln.body) (build_index match found (some 1) none).lines ≡ codes "a" ∷ []
unfolding build_index component_of
bodies_in_cap = refl

build_index-IsSortedBy_example :
    IsSortedBy line_le (build_index match found (some 3) (some 10_000)).lines
    × IsCapped (some 3) (length (build_index match found (some 3) (some 10_000)).lines)
build_index-IsSortedBy_example = build_index-IsSortedBy match found (some 3) (some 10_000)

build_index-IsWithin_example : IsWithin 450 400 (build_index match found none (some 450))
unfolding iter_log_files
build_index-IsWithin_example =
    build_index-IsWithin match found none 450 400 (omega arith, (omega arith, tt))
