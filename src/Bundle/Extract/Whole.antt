-- ===== src/Bundle/Extract/Whole.antt =====
-- `open_bundle` as a whole: it ends, and what it returns is within the limits and confined.
use zcc_analysis.Common.{ℕ, zero, suc, ◌+◌, ◌<◌, ◌≡◌, ◌≢◌, arith, List, [], ◌∷◌, Bool, Str}
use zcc_analysis.Common.{Option, none, some, Option-cases, Bool-cases, inl, inr, ltb, length}
use zcc_analysis.Common.Outcome.{Outcome, ok, raised}
use zcc_analysis.Bundle.Archive.{Limits, Member, System, Extracted, Run, Error, out_of_fuel}
use zcc_analysis.Bundle.Members.{
  and_then, Copied, copy, settle, store, extract_member, extract_members, nested_zips,
}
use zcc_analysis.Bundle.Extract.{
  Job, in_turn, in_pool, run_nested, extract_opened, unopened, opened, extract_zip, empty,
  enough_fuel, open_bundle,
}
use zcc_analysis.Bundle.Extract.Bounds.{IsBounded, extract_zip-IsBounded, empty-IsBounded}
use zcc_analysis.Bundle.Extract.Contained.{IsConfined, extract_zip-IsConfined}

abbrev Ends : Run → Type 0
Ends r = r.error ≢ some out_of_fuel

and_then-Ends :
    (r : Run) (k : Extracted → Run) → Ends r → ((s : Extracted) → Ends (k s)) → Ends (and_then r k)
unfolding and_then
and_then-Ends r k h g = elim (Option-cases r.error) [
  | inl e ↦ rw (e, and_then) (g r.state)
  | inr (x, e) ↦ rw (e, and_then) h
]

module _ (limits : Limits) (sys : System) where
  copy-ends :
      (name : Str) (broken : Bool) (ns : List ℕ) (w t d : ℕ)
      → (copy limits name broken ns w t d).error ≢ some out_of_fuel
  unfolding copy
  copy-ends name broken [] w t d = ground arith
  copy-ends name broken (n ∷ ns) w t d =
      ground (arith, copy-ends name broken ns (w + n) (t + n) (d + n))

  settle-Ends :
      (dest : Str) (zi : Member) (s : Extracted) (c : Copied)
      → c.error ≢ some out_of_fuel
      → Ends (settle limits sys dest zi s c)
  unfolding settle
  settle-Ends dest zi s c h = ground arith

  extract_member-Ends :
      (dest : Str) (zi : Member) (s : Extracted) → Ends (extract_member limits sys dest zi s)
  unfolding extract_member store
  extract_member-Ends dest zi s = ground (
    arith,
    settle-Ends dest zi s (copy limits zi.filename zi.broken zi.chunks 0 s.bytes_written 0),
    copy-ends zi.filename zi.broken zi.chunks 0 s.bytes_written 0,
  )

  extract_members-Ends :
      (dest : Str) (ms : List Member) (s : Extracted) → Ends (extract_members limits sys dest ms s)
  unfolding extract_members
  extract_members-Ends dest [] s = ground arith
  extract_members-Ends dest (zi ∷ ms) s =
      and_then-Ends (extract_member limits sys dest zi s)
        (λ t. extract_members limits sys dest ms t) (extract_member-Ends dest zi s)
        λ t. extract_members-Ends dest ms t

  module _ (job : Job) (job_ends : (z : Str) (s : Extracted) → Ends (job z s)) where
    in_turn-Ends : (zs : List Str) (s : Extracted) → Ends (in_turn job zs s)
    unfolding in_turn
    in_turn-Ends [] s = ground arith
    in_turn-Ends (z ∷ zs) s =
        and_then-Ends (job z s) (λ t. in_turn job zs t) (job_ends z s) λ t. in_turn-Ends zs t

    in_pool-Ends : (zs : List Str) (s : Extracted) → Ends (in_pool job zs s)
    unfolding in_pool
    in_pool-Ends [] s = ground arith
    in_pool-Ends (z ∷ zs) s = ground (arith, job_ends z s, in_pool-Ends zs (job z s).state)

    opened-Ends :
        (depth : ℕ) (zip dest : Str) (s : Extracted) (o : Option (List Member))
        → Ends (opened limits sys depth job zip dest s o)
    unfolding opened extract_opened run_nested unopened
    opened-Ends depth zip dest s none = ground arith
    opened-Ends depth zip dest s (some ms) =
        elim (Bool-cases (ltb limits.max_members (length ms))) [
          | inl e ↦ rw e (ground arith)
          | inr e ↦ rw e (
              and_then-Ends (extract_members limits sys dest ms s)
                (run_nested job depth (nested_zips limits sys dest ms))
                (extract_members-Ends dest ms s) nested-ends)
        ]
      where
        nested-ends :
            (t : Extracted) → Ends (run_nested job depth (nested_zips limits sys dest ms) t)
        nested-ends t = ground (
          arith,
          in_pool-Ends (nested_zips limits sys dest ms) t,
          in_turn-Ends (nested_zips limits sys dest ms) t,
        )

  extract_zip-Ends :
      (fuel depth : ℕ) (zip dest : Str) (s : Extracted)
      → 0 < fuel
      → suc limits.max_zip_depth < fuel + depth
      → Ends (extract_zip limits sys fuel depth zip dest s)
  unfolding extract_zip
  extract_zip-Ends zero depth zip dest s pos h = elim pos [ ]
  extract_zip-Ends (suc fuel) depth zip dest s pos h =
      elim (Bool-cases (ltb limits.max_zip_depth depth)) [
        | inl e ↦ rw e (ground arith)
        | inr e ↦ rw e (
            opened-Ends (λ z t. extract_zip limits sys fuel (suc depth) z (sys.nested_dir z) t)
              (λ z t.
                extract_zip-Ends fuel (suc depth) z (sys.nested_dir z) t (ground arith)
                  (omega arith))
              depth zip dest s (sys.open_zip zip))
      ]

  -- A bundle that is opened is within the limits, and every file of it lies below the directory of
  -- its archive: the fresh directory, or one that a nested archive has of its own.
  pub open_bundle_safe :
      (path : Str) (s : Extracted)
      → open_bundle limits sys path ≡ ok s
      → IsBounded limits s × IsConfined limits sys s
  unfolding open_bundle
  open_bundle_safe path s h =
      let bounded =
        extract_zip-IsBounded limits sys (enough_fuel limits sys) 1 path sys.fresh_root
          (empty limits sys) (empty-IsBounded limits sys) in
      let confined =
        extract_zip-IsConfined limits sys (enough_fuel limits sys) 1 path sys.fresh_root
          (empty limits sys) tt in
      let r =
        extract_zip limits sys (enough_fuel limits sys) 1 path sys.fresh_root (empty limits sys) in
      let same : r.state ≡ s = ground arith in (rw same at bounded, rw same at confined)

  -- Archives that nest without end are opened to the last level of the limit: the extraction ends,
  -- with a bundle or with an error of the program.
  pub open_bundle-ends :
      (path : Str)
      → ◌≢◌ {A = Outcome Error Extracted} (open_bundle limits sys path) (raised out_of_fuel)
  unfolding open_bundle
  open_bundle-ends path = ground (
    arith,
    extract_zip-Ends (enough_fuel limits sys) 1 path sys.fresh_root (empty limits sys) (omega arith)
        (omega arith),
  )
