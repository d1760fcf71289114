-- ===== src/Bundle/Members.antt =====
-- The body of the loop over the members of one archive: the guards, and the copy of the stream.
use zcc_analysis.Common.{ℕ, ◌+◌, ◌*◌, Bool, ◌&&◌, Option, none, some, List, [], ◌∷◌, ◌++◌}
use zcc_analysis.Common.{Str, codes, str_eq, ltb, if◌then◌else◌}
use zcc_analysis.Bundle.Names.{safe_target, is_symlink}
use zcc_analysis.Bundle.Archive.{
  Limits, Member, System, Skip, symlink, member_size, compression_ratio, unsafe_name, Error,
  total_exceeded, member_exceeded, read_failed, Extracted, Run,
}

-- Where the copy of a stream ends: the shared count, the bytes on disk, and what it raised.
pub record Copied : Type 0 where
  pub total : ℕ
  pub on_disk : ℕ
  pub error : Option Error

abbrev pub skip : Str → Skip → Extracted → Extracted
skip name why s = record s { skipped = s.skipped ++ (name, why) ∷ [] }

-- The bytes of a copy, counted and on disk.
abbrev pub count : Str → Member → Extracted → Copied → Extracted
count dest zi s c = record s {
  bytes_written = c.total;
  disk = s.disk ++ record { dest = dest; member_name = zi.filename; size = c.on_disk } ∷ [];
}

-- `k`, unless an exception came first.
unfoldable pub and_then : Run → (Extracted → Run) → Run
and_then r k = elim r.error [ some e ↦ r | none ↦ k r.state ]

-- What the guards make of a member.
pub data Verdict : Type 0 where
  refused : Skip → Verdict
  directory file : Verdict

module _ (limits : Limits) where
  -- `while True: chunk = src.read(64 * 1024) ...`: a chunk is counted, then the limits are tested,
  -- then it is written.
  unfoldable pub copy : Str → Bool → List ℕ → ℕ → ℕ → ℕ → Copied
  copy name broken [] written total on_disk = record {
    total = total;
    on_disk = on_disk;
    error = if broken then some (read_failed name) else none;
  }
  copy name broken (n ∷ ns) written total on_disk =
      let next = copy name broken ns (written + n) (total + n) (on_disk + n) in
      if ltb limits.max_total_uncompressed (total + n)
      then record { total = total + n; on_disk = on_disk; error = some total_exceeded }
      else if ltb limits.max_member_uncompressed (written + n)
      then record { total = total + n; on_disk = on_disk; error = some (member_exceeded name) }
      else next

  module _ (sys : System) where
    -- The guards, in the order of the code. The ratio is compared without rounding.
    unfoldable pub judge : Str → Member → Verdict
    judge dest zi =
        if is_symlink zi.create_system zi.external_attr
        then refused symlink
        else elim (safe_target sys.inside dest zi.filename) [
          | some reason ↦ refused (unsafe_name reason)
          | none ↦
              if ltb limits.max_member_uncompressed zi.file_size
              then refused member_size
              else if ltb 0 zi.compress_size
                  && ltb (limits.max_compression_ratio * zi.compress_size) zi.file_size
              then refused compression_ratio
              else if zi.is_dir
              then directory
              else file
        ]

    -- A file: its stream is copied, and it is listed if the copy did not raise.
    unfoldable pub settle : Str → Member → Extracted → Copied → Run
    settle dest zi s c =
        let counted = count dest zi s c in
        elim c.error [
          | some e ↦ record { state = counted; error = some e }
          | none ↦ record {
            state = record counted { files = s.files ++ sys.join dest zi.filename ∷ [] };
            error = none;
          }
        ]

    unfoldable pub store : Str → Member → Extracted → Run
    unfolding copy settle
    store dest zi s = settle dest zi s (copy zi.filename zi.broken zi.chunks 0 s.bytes_written 0)

    unfoldable pub extract_member : Str → Member → Extracted → Run
    unfolding judge store
    extract_member dest zi s = elim (judge dest zi) [
      | refused why ↦ record { state = skip zi.filename why s; error = none }
      | directory ↦ record {
        state = record s { dirs = s.dirs ++ sys.join dest zi.filename ∷ [] };
        error = none;
      }
      | file ↦ store dest zi s
    ]

    -- `for zi in members`, up to the first exception.
    unfoldable pub extract_members : Str → List Member → Extracted → Run
    extract_members dest [] s = record { state = s; error = none }
    extract_members dest (zi ∷ rest) s =
        and_then (extract_member dest zi s) λ t. extract_members dest rest t

    -- `nested_zips`: the extracted members with the suffix `.zip`, in order.
    unfoldable pub nested_zips : Str → List Member → List Str
    unfolding judge str_eq
    nested_zips dest [] = []
    nested_zips dest (zi ∷ rest) =
        let more = nested_zips dest rest in
        let target = sys.join dest zi.filename in
        elim (judge dest zi) [
          | file ↦ if str_eq (sys.suffix target) (codes ".zip") then target ∷ more else more
          | _ ↦ more
        ]
