-- ===== src/Bundle/Extract/Contained.antt =====
-- Where an extraction writes, and what it makes of its members.
use zcc_analysis.Common.{
  ℕ, ◌≤◌, ◌≡◌, ◌≢◌, refl, arith, List, [], ◌∷◌, ◌++◌, false, Str, All, All-append,
}
use zcc_analysis.Common.{
  none, some, Option-cases, inl, inr, ap, sym, ◌∙◌, append-nil, append_assoc, keep, str_eq, codes,
  if◌then◌else◌,
}
use zcc_analysis.Bundle.Names.{is_symlink}
use zcc_analysis.Bundle.Names.Lexical.{IsContained, safe_target-IsContained}
use zcc_analysis.Bundle.Archive.{Limits, Member, System, Skip, Written, Extracted, Run, Error}
use zcc_analysis.Bundle.Extract.{extract_zip}
use zcc_analysis.Bundle.Extract.Keeps.{extract_zip-keeps}
use zcc_analysis.Bundle.Members.{
  Copied, judge, Verdict, refused, directory, file, settle, store, extract_member, extract_members,
  and_then, nested_zips,
}

-- What the guards say of a member that they let through.
record Passed (limits : Limits) (sys : System) (dest : Str) (zi : Member) : Type 0 where
  contained : IsContained sys.inside dest zi.filename
  no_link : is_symlink zi.create_system zi.external_attr ≡ false
  fits : zi.file_size ≤ limits.max_member_uncompressed

module _ (limits : Limits) (sys : System) where
  judge-Passed :
      (dest : Str) (zi : Member) → judge limits sys dest zi ≡ file → Passed limits sys dest zi
  unfolding judge
  judge-Passed dest zi h = record {
    contained = safe_target-IsContained sys.inside dest zi.filename (ground arith);
    no_link = ground arith;
    fits = ground arith;
  }

  -- Every file of the disk stands below the directory that its archive is extracted to.
  abbrev pub IsConfined : Extracted → Type 0
  IsConfined s = All (λ (w : Written). IsContained sys.inside w.dest w.member_name) s.disk

  settle-IsConfined :
      (dest : Str) (zi : Member) (s : Extracted) (c : Copied)
      → IsContained sys.inside dest zi.filename
      → IsConfined s
      → IsConfined (settle limits sys dest zi s c).state
  unfolding settle
  settle-IsConfined dest zi s c h b =
      let all =
        All-append (λ (w : Written). IsContained sys.inside w.dest w.member_name) s.disk
          (record { dest = dest; member_name = zi.filename; size = c.on_disk } ∷ []) b (h, tt) in
      elim (Option-cases c.error) [ inl e ↦ rw (e, settle) all | inr (x, e) ↦ rw (e, settle) all ]

  extract_member-IsConfined :
      (dest : Str) (zi : Member) (s : Extracted)
      → IsConfined s
      → IsConfined (extract_member limits sys dest zi s).state
  unfolding extract_member store
  extract_member-IsConfined dest zi s b = by_verdict (judge limits sys dest zi) refl
    where
      by_verdict :
          (v : Verdict)
          → judge limits sys dest zi ≡ v
          → IsConfined (extract_member limits sys dest zi s).state
      by_verdict (refused why) e = rw (e, extract_member) b
      by_verdict directory e = rw (e, extract_member) b
      by_verdict file e =
          rw (e, extract_member)
            (settle-IsConfined dest zi s _ (judge-Passed dest zi e).contained b)

  -- However an archive is made, every file that its extraction writes has a relative name that never
  -- climbs above the directory of its archive and that resolves below it.
  pub extract_zip-IsConfined :
      (fuel depth : ℕ) (zip dest : Str) (s : Extracted)
      → IsConfined s
      → IsConfined (extract_zip limits sys fuel depth zip dest s).state
  extract_zip-IsConfined =
      extract_zip-keeps limits sys IsConfined extract_member-IsConfined (λ name why s b. b)

raised_first :
    (x : Error) (r : Run) (k : Extracted → Run) → r.error ≡ some x → (and_then r k).error ≢ none
unfolding and_then
raised_first x r k e h = ground arith

-- What a verdict makes of a member: a listed file or a directory, at its target, or a name that is
-- skipped with the reason.
abbrev pub as_file : Verdict → Str → List Str
as_file file target = target ∷ []
as_file directory target = []
as_file (refused why) target = []

abbrev pub as_directory : Verdict → Str → List Str
as_directory directory target = target ∷ []
as_directory file target = []
as_directory (refused why) target = []

abbrev pub as_skipped : Verdict → Str → List (Str × Skip)
as_skipped (refused why) name = (name, why) ∷ []
as_skipped directory name = []
as_skipped file name = []

module _ (limits : Limits) (sys : System) (dest : Str) where
  abbrev pub files_in : List Member → List Str
  files_in [] = []
  files_in (zi ∷ ms) = as_file (judge limits sys dest zi) (sys.join dest zi.filename) ++ files_in ms

  abbrev pub dirs_in : List Member → List Str
  dirs_in [] = []
  dirs_in (zi ∷ ms) =
      as_directory (judge limits sys dest zi) (sys.join dest zi.filename) ++ dirs_in ms

  abbrev pub skipped_in : List Member → List (Str × Skip)
  skipped_in [] = []
  skipped_in (zi ∷ ms) = as_skipped (judge limits sys dest zi) zi.filename ++ skipped_in ms

  -- The state `t` has these lists behind those of `s`.
  abbrev pub IsListed : List Member → Extracted → Extracted → Type 0
  IsListed ms s t =
      (t.files ≡ s.files ++ files_in ms)
      × (t.dirs ≡ s.dirs ++ dirs_in ms)
      × (t.skipped ≡ s.skipped ++ skipped_in ms)

  -- One member, by its verdict.
  Lists : Verdict → Member → Extracted → Extracted → Type 0
  Lists v zi s t =
      (t.files ≡ s.files ++ as_file v (sys.join dest zi.filename))
      × (t.dirs ≡ s.dirs ++ as_directory v (sys.join dest zi.filename))
      × (t.skipped ≡ s.skipped ++ as_skipped v zi.filename)

  settle-Lists :
      (zi : Member) (s : Extracted) (c : Copied)
      → (settle limits sys dest zi s c).error ≡ none
      → Lists file zi s (settle limits sys dest zi s c).state
  unfolding settle Lists
  settle-Lists zi s c h = elim (Option-cases c.error) [
    | inl e ↦ rw (e, settle) (refl, sym (append-nil s.dirs), sym (append-nil s.skipped))
    | inr (x, e) ↦ absurd (impossible x (rw (e, settle) at h))
  ]
    where
      impossible : (x : Error) → some x ≡ none → ⊥
      impossible x p = cc

  extract_member-Lists :
      (zi : Member) (s : Extracted)
      → (extract_member limits sys dest zi s).error ≡ none
      → Lists (judge limits sys dest zi) zi s (extract_member limits sys dest zi s).state
  unfolding extract_member store Lists
  extract_member-Lists zi s h = by_verdict (judge limits sys dest zi) refl
    where
      by_verdict :
          (v : Verdict)
          → judge limits sys dest zi ≡ v
          → Lists (judge limits sys dest zi) zi s (extract_member limits sys dest zi s).state
      by_verdict (refused why) e =
          rw (e, extract_member) (sym (append-nil s.files), sym (append-nil s.dirs), refl)
      by_verdict directory e =
          rw (e, extract_member) (sym (append-nil s.files), refl, sym (append-nil s.skipped))
      by_verdict file e = rw (e, extract_member) (settle-Lists zi s _ (rw (e, extract_member) at h))

  extract_members-lists :
      (ms : List Member) (s : Extracted)
      → (extract_members limits sys dest ms s).error ≡ none
      → IsListed ms s (extract_members limits sys dest ms s).state
  unfolding extract_members and_then Lists
  extract_members-lists [] s h =
      (sym (append-nil s.files), sym (append-nil s.dirs), sym (append-nil s.skipped))
  extract_members-lists (zi ∷ ms) s h =
      let r = extract_member limits sys dest zi s in
      let v = judge limits sys dest zi in
      elim (Option-cases r.error) [
        | inl e ↦
            let here = extract_member-Lists zi s e in
            let more = extract_members-lists ms r.state (rw (e, and_then) at h) in
            rw (e, and_then)
              (
                more.0
                    ∙ ap (λ l. l ++ files_in ms) here.0
                    ∙ append_assoc s.files (as_file v (sys.join dest zi.filename)) (files_in ms),
                more.1
                    ∙ ap (λ l. l ++ dirs_in ms) here.1
                    ∙ append_assoc s.dirs (as_directory v (sys.join dest zi.filename)) (dirs_in ms),
                more.2
                    ∙ ap (λ l. l ++ skipped_in ms) here.2
                    ∙ append_assoc s.skipped (as_skipped v zi.filename) (skipped_in ms),
              )
        | inr (x, e) ↦ absurd (raised_first x r (λ t. extract_members limits sys dest ms t) e h)
      ]

  nested_zips-files_in :
      (ms : List Member)
      → nested_zips limits sys dest ms
        ≡ keep (λ t. str_eq (sys.suffix t) (codes ".zip")) (files_in ms)
  unfolding nested_zips
  nested_zips-files_in [] = refl
  nested_zips-files_in (zi ∷ ms) =
      elim (judge limits sys dest zi)
        as (λ v.
          let target = sys.join dest zi.filename in
          let more = nested_zips limits sys dest ms in
          let found : List Str = elim v [
            | file ↦ if str_eq (sys.suffix target) (codes ".zip") then target ∷ more else more
            | _ ↦ more
          ] in
          found
          ≡ keep (λ t. str_eq (sys.suffix t) (codes ".zip")) (as_file v target ++ files_in ms)) [
            | file ↦ rw (nested_zips-files_in ms) refl
            | directory ↦ nested_zips-files_in ms
            | refused why ↦ nested_zips-files_in ms
          ]

  -- When the loop over the members returns, it has, in order and behind what was there before, listed
  -- as a file the target of every member that the guards let through, made as a directory the target
  -- of every directory, and listed as skipped the name of every other member with the reason of the
  -- guard that refused it. The archives to descend into are those of the listed files that have the
  -- suffix `.zip`, in the same order.
  pub extract_members-IsListed :
      (ms : List Member) (s : Extracted)
      → (extract_members limits sys dest ms s).error ≡ none
      → IsListed ms s (extract_members limits sys dest ms s).state
        × (nested_zips limits sys dest ms
            ≡ keep (λ t. str_eq (sys.suffix t) (codes ".zip")) (files_in ms))
  extract_members-IsListed ms s h = (extract_members-lists ms s h, nested_zips-files_in ms)
