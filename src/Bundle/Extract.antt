-- ===== src/Bundle/Extract.antt =====
-- `_extract_zip`, which descends into nested archives, and `open_bundle` and `list_log_files` over it.
-- The fuel counts the levels; `open_bundle` gives one more than the deepest level that is opened.
pub mod Keeps
pub mod Bounds
pub mod Contained
pub mod Whole
use zcc_analysis.Common.{
  ℕ, zero, suc, ◌+◌, Bool, true, false, not, ◌&&◌, Option, none, some, List, [], ◌∷◌, ◌++◌,
}
use zcc_analysis.Common.{Str, codes, ltb, ◌==◌, if◌then◌else◌, length, keep, starts_with}
use zcc_analysis.Common.Outcome.{Outcome, ok, raised}
use zcc_analysis.Bundle.Archive.{
  Limits, Member, System, recursion_depth, not_a_zip, Error, not_a_regular_file, not_an_archive,
  corrupt_zip, too_many_members, out_of_fuel, Extracted, Run,
}
use zcc_analysis.Bundle.Members.{skip, and_then, extract_members, nested_zips}

abbrev pub Job : Type 0
Job = Str → Extracted → Run

module _ (job : Job) where
  -- One archive after the other, up to the first exception.
  unfoldable pub in_turn : List Str → Extracted → Run
  in_turn [] s = record { state = s; error = none }
  in_turn (z ∷ zs) s = and_then (job z s) λ t. in_turn zs t

  abbrev first_error : Option Error → Option Error → Option Error
  first_error none e = e
  first_error (some e) _ = some e

  -- The thread pool, in the schedule that runs the jobs one after the other: all of them run, and
  -- the first exception in the order of submission is raised when they are done.
  unfoldable pub in_pool : List Str → Extracted → Run
  in_pool [] s = record { state = s; error = none }
  in_pool (z ∷ zs) s =
      let r = job z s in
      let more = in_pool zs r.state in
      record { state = more.state; error = first_error r.error more.error }

  -- At depth 1 two or more archives go to the pool.
  unfoldable pub run_nested : ℕ → List Str → Extracted → Run
  unfolding in_turn in_pool
  run_nested depth zs s = if depth == 1 && ltb 1 (length zs) then in_pool zs s else in_turn zs s

module _ (limits : Limits) (sys : System) where
  -- The members of an archive that could be opened, and then the archives among them.
  unfoldable pub extract_opened : ℕ → Job → List Member → Str → Extracted → Run
  unfolding run_nested
  extract_opened depth job members dest s =
      if ltb limits.max_members (length members)
      then record { state = s; error = some (too_many_members (length members)) }
      else and_then (extract_members limits sys dest members s)
          (run_nested job depth (nested_zips limits sys dest members))

  -- An archive that `zipfile` refuses.
  unfoldable pub unopened : ℕ → Str → Extracted → Run
  unopened depth zip s =
      if depth == 1
      then record { state = s; error = some corrupt_zip }
      else record { state = skip (sys.base_name zip) not_a_zip s; error = none }

  unfoldable pub opened : ℕ → Job → Str → Str → Extracted → Option (List Member) → Run
  unfolding unopened extract_opened
  opened depth job zip dest s none = unopened depth zip s
  opened depth job zip dest s (some members) = extract_opened depth job members dest s

  unfoldable pub extract_zip : ℕ → ℕ → Str → Str → Extracted → Run
  unfolding opened
  extract_zip zero depth zip dest s = record { state = s; error = some out_of_fuel }
  extract_zip (suc fuel) depth zip dest s =
      if ltb limits.max_zip_depth depth
      then record { state = skip (sys.base_name zip) recursion_depth s; error = none }
      else opened depth (λ nz. extract_zip fuel (suc depth) nz (sys.nested_dir nz)) zip dest s
          (sys.open_zip zip)

  abbrev pub empty : Extracted
  empty = record { files = []; skipped = []; dirs = []; bytes_written = 0; disk = [] }

  abbrev pub enough_fuel : ℕ
  enough_fuel = suc limits.max_zip_depth

  -- The bundle, or the error after which the fresh directory was removed.
  unfoldable pub open_bundle : Str → Outcome Error Extracted
  open_bundle path =
      if not (sys.is_file path)
      then raised not_a_regular_file
      else if not (sys.is_zipfile path)
      then raised not_an_archive
      else (let r = extract_zip enough_fuel 1 path sys.fresh_root empty in
          elim r.error [ some e ↦ raised e | none ↦ ok r.state ])

-- `list_log_files`, over the paths of `rglob("*.log")` with their base names.
unfoldable pub list_log_files : (Str → Bool) → (Str → Str) → Bool → Bool → List Str → List Str
unfolding starts_with
list_log_files is_file base_name include_helper include_updater paths =
    keep
      (λ p.
        is_file p
        && ((if include_helper then true else not (starts_with (base_name p) (codes "ZSAHelper")))
            && (if include_updater
                then true
                else not (starts_with (base_name p) (codes "ZSAUpdater")))))
      paths
