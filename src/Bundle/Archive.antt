-- ===== src/Bundle/Archive.antt =====
-- The limits, the archives that `zipfile` shows, the file system as far as the code asks it, and the
-- state that an extraction builds up.
use zcc_analysis.Common.{ℕ, ◌*◌, Bool, Option, List, Str}
use zcc_analysis.Bundle.Names.{Reject}

pub record Limits : Type 0 where
  pub max_total_uncompressed : ℕ
  pub max_member_uncompressed : ℕ
  pub max_members : ℕ
  pub max_compression_ratio : ℕ
  pub max_zip_depth : ℕ

abbrev pub default_limits : Limits
default_limits = record {
  max_total_uncompressed = 2 * 1024 * 1024 * 1024;
  max_member_uncompressed = 512 * 1024 * 1024;
  max_members = 50_000;
  max_compression_ratio = 200;
  max_zip_depth = 2;
}

-- A `ZipInfo`, with what reading the member gives: the lengths of the chunks, and whether a read
-- raises after them.
pub record Member : Type 0 where
  pub filename : Str
  pub create_system : ℕ
  pub external_attr : ℕ
  pub file_size : ℕ
  pub compress_size : ℕ
  pub is_dir : Bool
  pub chunks : List ℕ
  pub broken : Bool

-- `pathlib`, the file system and `zipfile`. A path is the text that names it.
pub record System : Type 0 where
  -- `dest / name`
  pub join : Str → Str → Str
  -- `target.suffix.lower()`
  pub suffix : Str → Str
  -- `zip_path.name`
  pub base_name : Str → Str
  -- `nz.parent / (nz.stem + "_extracted")`
  pub nested_dir : Str → Str
  -- whether `(root / name).resolve().relative_to(root.resolve())` returns
  pub inside : Str → Str → Bool
  -- `ZipFile(path).infolist()`, or `none` for `BadZipFile`
  pub open_zip : Str → Option (List Member)
  -- `path.is_file()` and `zipfile.is_zipfile(path)`
  pub is_file : Str → Bool
  pub is_zipfile : Str → Bool
  -- `tempfile.mkdtemp(...)`
  pub fresh_root : Str

-- Why a member or an archive was passed over.
pub data Skip : Type 0 where
  recursion_depth not_a_zip symlink member_size compression_ratio : Skip
  unsafe_name : Reject → Skip

-- `BundleError`, `BundleSecurityError`, and an error out of `zipfile` in the middle of a member.
pub data Error : Type 0 where
  not_a_regular_file not_an_archive corrupt_zip : Error
  too_many_members : ℕ → Error
  total_exceeded : Error
  member_exceeded : Str → Error
  read_failed : Str → Error
  out_of_fuel : Error

-- A file that was opened for writing: where, under which name, and the bytes that it was given.
pub record Written : Type 0 where
  pub dest : Str
  pub member_name : Str
  pub size : ℕ

-- `ExtractedBundle`; `dirs` and `disk`, which the program does not keep, are the directories that it
-- has made and the files that it has written.
pub record Extracted : Type 0 where
  pub files : List Str
  pub skipped : List (Str × Skip)
  pub dirs : List Str
  pub bytes_written : ℕ
  pub disk : List Written

-- What a step of the extraction comes to: the state, also when it raises.
pub record Run : Type 0 where
  pub state : Extracted
  pub error : Option Error
