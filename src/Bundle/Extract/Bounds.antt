-- ===== src/Bundle/Extract/Bounds.antt =====
-- The limits on what reaches the disk, for one member.
use zcc_analysis.Common.{
  ℕ, ◌+◌, ◌≤◌, ◌≡◌, arith, List, [], ◌∷◌, ◌++◌, Bool, Str, All, All-append, none, Option-cases, inl,
  inr,
}
use zcc_analysis.Bundle.Archive.{Limits, Member, System, Skip, Written, Extracted, Run}
use zcc_analysis.Bundle.Extract.{extract_zip, empty}
use zcc_analysis.Bundle.Extract.Keeps.{extract_zip-keeps}
use zcc_analysis.Bundle.Members.{
  Copied, skip, copy, judge, Verdict, refused, directory, file, count, settle, store,
  extract_member,
}

-- The bytes of all files that were written.
unfoldable pub disk_total : List Written → ℕ
disk_total [] = 0
disk_total (w ∷ ws) = w.size + disk_total ws

disk_total-append :
    (xs : List Written) (w : Written) → disk_total (xs ++ w ∷ []) ≡ disk_total xs + w.size
unfolding disk_total
disk_total-append [] w = omega arith
disk_total-append (x ∷ xs) w = omega (arith, disk_total-append xs w)

abbrev IsSmall : Limits → Written → Type 0
IsSmall limits w = w.size ≤ limits.max_member_uncompressed

-- The count is ahead of the disk, and the disk is within the limits.
pub record IsBounded (limits : Limits) (s : Extracted) : Type 0 where
  pub counted : disk_total s.disk ≤ s.bytes_written
  pub capped : disk_total s.disk ≤ limits.max_total_uncompressed
  pub small : All (IsSmall limits) s.disk

-- A copy to a disk that holds `before` bytes already.
record IsWithin (limits : Limits) (before : ℕ) (c : Copied) : Type 0 where
  counted : before + c.on_disk ≤ c.total
  capped : before + c.on_disk ≤ limits.max_total_uncompressed
  small : c.on_disk ≤ limits.max_member_uncompressed

module _ (limits : Limits) where
  copy-IsWithin :
      (name : Str) (broken : Bool) (before : ℕ) (ns : List ℕ) (written total : ℕ)
      → before + written ≤ total
      → before + written ≤ limits.max_total_uncompressed
      → written ≤ limits.max_member_uncompressed
      → IsWithin limits before (copy limits name broken ns written total written)
  unfolding copy
  copy-IsWithin name broken before [] written total h1 h2 h3 = record {
    counted = h1;
    capped = h2;
    small = h3;
  }
  copy-IsWithin name broken before (n ∷ ns) written total h1 h2 h3 =
      ground (arith, copy-IsWithin name broken before ns (written + n) (total + n))

  count-IsBounded :
      (dest : Str) (zi : Member) (s : Extracted) (c : Copied)
      → IsBounded limits s
      → IsWithin limits (disk_total s.disk) c
      → IsBounded limits (count dest zi s c)
  count-IsBounded dest zi s c b w =
      let entry : Written = record { dest = dest; member_name = zi.filename; size = c.on_disk } in
      record {
        counted = omega (arith, disk_total-append s.disk entry, w.counted);
        capped = omega (arith, disk_total-append s.disk entry, w.capped);
        small = All-append (IsSmall limits) s.disk (entry ∷ []) b.small (w.small, tt);
      }

  module _ (sys : System) where
    settle-IsBounded :
        (dest : Str) (zi : Member) (s : Extracted) (c : Copied)
        → IsBounded limits s
        → IsWithin limits (disk_total s.disk) c
        → IsBounded limits (settle limits sys dest zi s c).state
    unfolding settle
    settle-IsBounded dest zi s c b w = elim (Option-cases c.error) [
      | inl e ↦
          rw (e, settle)
            (relist (sys.join dest zi.filename) (count dest zi s c)
              (count-IsBounded dest zi s c b w))
      | inr (x, e) ↦ rw (e, settle) (count-IsBounded dest zi s c b w)
    ]
      where
        relist :
            (f : Str) (t : Extracted)
            → IsBounded limits t
            → IsBounded limits (record t { files = t.files ++ f ∷ [] })
        relist f t h = record { counted = h.counted; capped = h.capped; small = h.small }

    extract_member-IsBounded :
        (dest : Str) (zi : Member) (s : Extracted)
        → IsBounded limits s
        → IsBounded limits (extract_member limits sys dest zi s).state
    unfolding extract_member store
    extract_member-IsBounded dest zi s b =
        elim (judge limits sys dest zi)
          as (λ (v : Verdict).
            IsBounded limits
              (let r : Run = elim v [
                | refused why ↦ record { state = skip zi.filename why s; error = none }
                | directory ↦ record {
                  state = record s { dirs = s.dirs ++ sys.join dest zi.filename ∷ [] };
                  error = none;
                }
                | file ↦
                    settle limits sys dest zi s
                      (copy limits zi.filename zi.broken zi.chunks 0 s.bytes_written 0)
              ] in
                r).state) [
                  | refused why ↦ record { counted = b.counted; capped = b.capped; small = b.small }
                  | directory ↦ record { counted = b.counted; capped = b.capped; small = b.small }
                  | file ↦ settle-IsBounded dest zi s _ b (
                      copy-IsWithin zi.filename zi.broken (disk_total s.disk) zi.chunks 0
                        s.bytes_written (omega (arith, b.counted)) (omega (arith, b.capped))
                        (omega arith))
                ]

    skip-IsBounded :
        (name : Str) (why : Skip) (s : Extracted)
        → IsBounded limits s
        → IsBounded limits (skip name why s)
    skip-IsBounded name why s b = record { counted = b.counted; capped = b.capped; small = b.small }

    pub empty-IsBounded : IsBounded limits (empty limits sys)
    unfolding disk_total
    empty-IsBounded = record { counted = omega arith; capped = omega arith; small = tt }

    -- However an archive is made, when its extraction returns or raises the bytes written to disk are
    -- at most the bytes that were counted, at most the total limit, and in no file more than the limit
    -- of a member.
    pub extract_zip-IsBounded :
        (fuel depth : ℕ) (zip dest : Str) (s : Extracted)
        → IsBounded limits s
        → IsBounded limits (extract_zip limits sys fuel depth zip dest s).state
    extract_zip-IsBounded =
        extract_zip-keeps limits sys (IsBounded limits) extract_member-IsBounded skip-IsBounded
