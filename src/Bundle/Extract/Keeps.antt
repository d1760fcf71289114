-- ===== src/Bundle/Extract/Keeps.antt =====
-- What every member and every skip keeps, a whole extraction keeps, whether it returns or raises.
use zcc_analysis.Common.{
  ℕ, zero, suc, Option, none, some, List, [], ◌∷◌, Str, Bool-cases, inl, inr, length, ltb, ◌==◌,
  ◌&&◌,
}
use zcc_analysis.Common.{true, false, if◌then◌else◌}
use zcc_analysis.Bundle.Archive.{
  Limits, Member, System, Skip, Extracted, Run, Error, recursion_depth, not_a_zip, too_many_members,
  corrupt_zip,
}
use zcc_analysis.Bundle.Members.{skip, and_then, extract_member, extract_members, nested_zips}
use zcc_analysis.Bundle.Extract.{
  Job, in_turn, in_pool, run_nested, extract_opened, unopened, opened, extract_zip,
}

module _ (P : Extracted → Type 0) where
  pub and_then-keeps :
      (r : Run) (k : Extracted → Run)
      → P r.state
      → ((t : Extracted) → P t → P (k t).state)
      → P (and_then r k).state
  unfolding and_then
  and_then-keeps r k h g =
      elim r.error
        as (λ (e : Option Error).
          P (let out : Run = elim e [ some x ↦ r | none ↦ k r.state ] in out).state) [
            | some x ↦ h
            | none ↦ g r.state h
          ]

module _ (limits : Limits) (sys : System) (P : Extracted → Type 0)
    (member_keeps : (dest : Str) (zi : Member) (s : Extracted)
      → P s
      → P (extract_member limits sys dest zi s).state)
    (skip_keeps : (name : Str) (why : Skip) (s : Extracted) → P s → P (skip name why s)) where
  extract_members-keeps :
      (dest : Str) (ms : List Member) (s : Extracted)
      → P s
      → P (extract_members limits sys dest ms s).state
  unfolding extract_members
  extract_members-keeps dest [] s h = h
  extract_members-keeps dest (zi ∷ ms) s h =
      and_then-keeps P (extract_member limits sys dest zi s)
        (λ t. extract_members limits sys dest ms t) (member_keeps dest zi s h)
        λ t ht. extract_members-keeps dest ms t ht

  module _ (job : Job) (job_keeps : (z : Str) (s : Extracted) → P s → P (job z s).state) where
    in_turn-keeps : (zs : List Str) (s : Extracted) → P s → P (in_turn job zs s).state
    unfolding in_turn
    in_turn-keeps [] s h = h
    in_turn-keeps (z ∷ zs) s h =
        and_then-keeps P (job z s) (λ t. in_turn job zs t) (job_keeps z s h)
          λ t ht. in_turn-keeps zs t ht

    in_pool-keeps : (zs : List Str) (s : Extracted) → P s → P (in_pool job zs s).state
    unfolding in_pool
    in_pool-keeps [] s h = h
    in_pool-keeps (z ∷ zs) s h = in_pool-keeps zs (job z s).state (job_keeps z s h)

    run_nested-keeps :
        (depth : ℕ) (zs : List Str) (s : Extracted) → P s → P (run_nested job depth zs s).state
    unfolding run_nested
    run_nested-keeps depth zs s h =
        elim (depth == 1 && ltb 1 (length zs))
          as (λ b. P (if b then in_pool job zs s else in_turn job zs s).state) [
            | true ↦ in_pool-keeps zs s h
            | false ↦ in_turn-keeps zs s h
          ]

    extract_opened-keeps :
        (depth : ℕ) (ms : List Member) (dest : Str) (s : Extracted)
        → P s
        → P (extract_opened limits sys depth job ms dest s).state
    unfolding extract_opened
    extract_opened-keeps depth ms dest s h =
        elim (ltb limits.max_members (length ms))
          as (λ b.
            P
              (if◌then◌else◌ {A = Run} b
                (record { state = s; error = some (too_many_members (length ms)) })
                (and_then (extract_members limits sys dest ms s)
                  (run_nested job depth (nested_zips limits sys dest ms)))).state) [
                    | true ↦ h
                    | false ↦
                        and_then-keeps P (extract_members limits sys dest ms s)
                          (run_nested job depth (nested_zips limits sys dest ms))
                          (extract_members-keeps dest ms s h)
                          (run_nested-keeps depth (nested_zips limits sys dest ms))
                  ]

  unopened-keeps :
      (depth : ℕ) (zip : Str) (s : Extracted) → P s → P (unopened limits sys depth zip s).state
  unfolding unopened
  unopened-keeps depth zip s h =
      elim (depth == 1)
        as (λ b.
          P
            (if◌then◌else◌ {A = Run} b (record { state = s; error = some corrupt_zip })
              (record { state = skip (sys.base_name zip) not_a_zip s; error = none })).state) [
                | true ↦ h
                | false ↦ skip_keeps (sys.base_name zip) not_a_zip s h
              ]

  level-keeps :
      (job : Job) (depth : ℕ) (zip dest : Str) (s : Extracted) (o : Option (List Member))
      → ((z : Str) (t : Extracted) → P t → P (job z t).state)
      → P s
      → P (opened limits sys depth job zip dest s o).state
  unfolding opened
  level-keeps job depth zip dest s none g h = unopened-keeps depth zip s h
  level-keeps job depth zip dest s (some ms) g h = extract_opened-keeps job g depth ms dest s h

  -- An extraction, whether it returns or raises, keeps what each member and each skip keeps.
  pub extract_zip-keeps :
      (fuel depth : ℕ) (zip dest : Str) (s : Extracted)
      → P s
      → P (extract_zip limits sys fuel depth zip dest s).state
  unfolding extract_zip
  extract_zip-keeps zero depth zip dest s h = h
  extract_zip-keeps (suc fuel) depth zip dest s h =
      elim (Bool-cases (ltb limits.max_zip_depth depth)) [
        | inl e ↦ rw e (skip_keeps (sys.base_name zip) recursion_depth s h)
        | inr e ↦ rw e (
            level-keeps _ depth zip dest s (sys.open_zip zip)
              (λ z t ht. extract_zip-keeps fuel (suc depth) z (sys.nested_dir z) t ht) h)
      ]
