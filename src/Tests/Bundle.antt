-- ===== src/Tests/Bundle.antt =====
-- bundle.py on a small archive: a log, a name that climbs out, a link, a directory and a nested
-- archive, within limits of 100 bytes for all files and 40 for one.
use zcc_analysis.Bundle.Names.{is_symlink}
use zcc_analysis.Bundle.Members.{and_then, extract_member, nested_zips}
use zcc_analysis.Common.{ℕ, ◌+◌, ◌*◌, ◌^◌, ◌≡◌, ◌≢◌, refl, arith, true, false, none, some}
use zcc_analysis.Common.{List, [], ◌∷◌, ◌++◌, keep, String, codes, str_eq, if◌then◌else◌}
use zcc_analysis.Common.Outcome.{Outcome, ok, raised}
use zcc_analysis.Bundle.Names.{safe_target}
use zcc_analysis.Bundle.Archive.{
  Limits, Member, System, Extracted, Run, Error, out_of_fuel, member_exceeded, symlink, unsafe_name,
}
use zcc_analysis.Bundle.Names.{path_traversal}
use zcc_analysis.Bundle.Members.{extract_members}
use zcc_analysis.Bundle.Extract.{extract_zip, empty, open_bundle}
use zcc_analysis.Bundle.Extract.Bounds.{IsBounded, empty-IsBounded, extract_zip-IsBounded}
use zcc_analysis.Bundle.Extract.Contained.{IsConfined, IsListed, files_in, extract_members-IsListed}
use zcc_analysis.Bundle.Extract.Whole.{open_bundle_safe, open_bundle-ends}
use zcc_analysis.Bundle.Workers.{
  idle, counted, cleared, Pool, count_chunk, pass, write, Reach, here, next, IsSafe, in_hand,
  passed, Reach-IsSafe,
}

abbrev limits : Limits
limits = record {
  max_total_uncompressed = 100;
  max_member_uncompressed = 40;
  max_members = 9;
  max_compression_ratio = 20;
  max_zip_depth = 2;
}

abbrev member : String → ℕ → List ℕ → Member
member name attr chunks = record {
  filename = codes name;
  create_system = 3;
  external_attr = attr;
  file_size = 30;
  compress_size = 10;
  is_dir = false;
  chunks = chunks;
  broken = false;
}

abbrev regular : ℕ
regular = 8 * 2 ^ 28

abbrev link : ℕ
link = 10 * 2 ^ 28

abbrev outer : List Member
outer =
    member "a.log" regular (20 ∷ 10 ∷ [])
    ∷ member "../evil" regular (5 ∷ [])
    ∷ member "link" link (5 ∷ [])
    ∷ record (member "logs/" regular []) { is_dir = true }
    ∷ member "old.zip" regular (30 ∷ [])
    ∷ []

abbrev nested : List Member
nested = member "b.log" regular (7 ∷ []) ∷ []

abbrev system : System
system = record {
  join = λ d n. d ++ (b'/' ∷ n);
  suffix = λ p. if str_eq p (codes "/tmp/x/old.zip") then codes ".zip" else codes ".log";
  base_name = λ p. p;
  nested_dir = λ p. p ++ codes "_extracted";
  inside = λ root name. true;
  open_zip = λ p. if str_eq p (codes "/tmp/x/old.zip") then some nested else some outer;
  is_file = λ p. true;
  is_zipfile = λ p. true;
  fresh_root = codes "/tmp/x";
}

abbrev run : Run
run = extract_zip limits system 3 1 (codes "bundle.zip") system.fresh_root (empty limits system)

files_of_run :
    run.state.files
    ≡ codes "/tmp/x/a.log" ∷ codes "/tmp/x/old.zip" ∷ codes "/tmp/x/old.zip_extracted/b.log" ∷ []
unfolding extract_zip str_eq and_then extract_members extract_member is_symlink safe_target
    nested_zips
files_of_run = refl

skipped_of_run :
    run.state.skipped ≡ (codes "../evil", unsafe_name path_traversal) ∷ (codes "link", symlink) ∷ []
unfolding extract_zip str_eq and_then extract_members extract_member is_symlink safe_target
    nested_zips
skipped_of_run = refl

bundle_opens : open_bundle limits system (codes "bundle.zip") ≡ ok run.state
unfolding open_bundle extract_zip str_eq and_then extract_members extract_member is_symlink
    safe_target nested_zips
bundle_opens = refl

open_bundle_safe_example : IsBounded limits run.state × IsConfined limits system run.state
open_bundle_safe_example =
    open_bundle_safe limits system (codes "bundle.zip") run.state bundle_opens

open_bundle-ends_example :
    ◌≢◌ {A = Outcome Error Extracted}
      (open_bundle limits system (codes "loop.zip"))
      (raised out_of_fuel)
open_bundle-ends_example = open_bundle-ends limits system (codes "loop.zip")

-- A member whose stream is longer than its limit.
abbrev bomb : List Member
bomb = member "bomb" regular (30 ∷ 30 ∷ 30 ∷ []) ∷ []

abbrev bombed : System
bombed = record system { open_zip = λ p. some bomb }

bomb_stops :
    (extract_zip limits bombed 3 1 (codes "z") (codes "/tmp/x") (empty limits bombed)).error
    ≡ some (member_exceeded (codes "bomb"))
unfolding extract_zip and_then extract_members extract_member is_symlink safe_target
bomb_stops = refl

extract_zip-IsBounded_example :
    IsBounded limits
      (extract_zip limits bombed 3 1 (codes "z") (codes "/tmp/x") (empty limits bombed)).state
extract_zip-IsBounded_example =
    extract_zip-IsBounded limits bombed 3 1 (codes "z") (codes "/tmp/x") (empty limits bombed)
      (empty-IsBounded limits bombed)

members_return :
    (extract_members limits system (codes "/tmp/x") outer (empty limits system)).error ≡ none
unfolding extract_members and_then extract_member is_symlink safe_target
members_return = refl

extract_members-IsListed_example :
    IsListed limits system
      (codes "/tmp/x")
      outer
      (empty limits system)
      (extract_members limits system (codes "/tmp/x") outer (empty limits system)).state
    × (nested_zips limits system (codes "/tmp/x") outer
        ≡ keep
            (λ t. str_eq (system.suffix t) (codes ".zip"))
            (files_in limits system (codes "/tmp/x") outer))
extract_members-IsListed_example =
    extract_members-IsListed limits system (codes "/tmp/x") outer (empty limits system)
      members_return

abbrev start : Pool
start = record { workers = idle ∷ idle ∷ []; bytes_written = 0; on_disk = 0 }

-- Two workers that count, test and write in turn.
abbrev schedule :
    Reach 100 start
      (record { workers = idle ∷ cleared 30 ∷ []; bytes_written = 0 + 50 + 30; on_disk = 0 + 50 })
schedule =
    next
      (next
        (next
          (next (next here (count_chunk [] (idle ∷ []) 50 0 0))
            (count_chunk (counted 50 ∷ []) [] 30 (0 + 50) 0))
          (pass [] (counted 30 ∷ []) 50 (0 + 50 + 30) 0 (omega arith)))
        (pass (cleared 50 ∷ []) [] 30 (0 + 50 + 30) 0 (omega arith)))
      (write [] (cleared 30 ∷ []) 50 (0 + 50 + 30) 0)

start-IsSafe : IsSafe 100 start
unfolding in_hand passed
start-IsSafe = omega arith

Reach-IsSafe_example :
    IsSafe 100
      (record { workers = idle ∷ cleared 30 ∷ []; bytes_written = 0 + 50 + 30; on_disk = 0 + 50 })
Reach-IsSafe_example = Reach-IsSafe start-IsSafe schedule
