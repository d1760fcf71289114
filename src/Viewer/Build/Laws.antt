-- ===== src/Viewer/Build/Laws.antt =====
-- The index is in the order of time, and keeps its two limits.
use zcc_analysis.Common.{
  ℕ, zero, suc, ◌≤◌, ◌≡◌, refl, arith, max, true, false, Option, none, some, List, [], ◌∷◌, length,
  Str, sym, subst, All,
}
use zcc_analysis.Common.Sorting.{
  sort_by, IsSortedBy, sort_by-IsSortedBy, sort_by-All, length-sort_by,
}
use zcc_analysis.Common.Counters.{get}
use zcc_analysis.Viewer.Build.{
  Found, LogFile, Parts, LogIndex, line_le, full, read_lines, over_budget, charge, count_file,
  read_files, build_index, newer, iter_log_files, empty_index,
}
use zcc_analysis.Viewer.Build.Order.{line_le_total, line_le_trans}
use zcc_analysis.Viewer.Build.Limits.{
  IsWithin, IsCapped, charge-IsWithin, read_files-length, component_bytes-read_lines,
}

module _ (match : Str → Option Parts) where
  -- What holds of the state is kept by the loop over the files.
  read_files-keeps :
      (P : LogIndex → Type 0) (Q : LogFile → Type 0) (max_lines budget : Option ℕ)
      → ((f : LogFile) (idx : LogIndex)
          → Q f
          → over_budget budget f idx ≡ false
          → P idx
          → P (charge f idx))
      → ((f : LogFile) (text : List Str) (idx : LogIndex)
          → P idx
          → P (count_file (read_lines match max_lines f 1 text idx)))
      → (fs : List LogFile) (idx : LogIndex) → All Q fs
      → P idx
      → P (read_files match max_lines budget fs idx)
  unfolding read_files
  read_files-keeps P Q max_lines budget pay read [] idx q h = h
  read_files-keeps P Q max_lines budget pay read (f ∷ fs) idx q h =
      let ih = λ (i : LogIndex). read_files-keeps P Q max_lines budget pay read fs i q.1 in
      let scanned =
        λ (text : List Str). count_file (read_lines match max_lines f 1 text (charge f idx)) in
      elim (over_budget budget f idx)
          as (λ b.
            over_budget budget f idx ≡ b
            → P (elim b [
              | true ↦ read_files match max_lines budget fs idx
              | false ↦ elim f.text [
                | none ↦ read_files match max_lines budget fs (charge f idx)
                | some text ↦ elim (full max_lines (scanned text)) [
                  | true ↦ scanned text
                  | false ↦ read_files match max_lines budget fs (scanned text)
                ]
              ]
            ])) [
              | true ↦ λ e. ih idx h
              | false ↦ λ e.
                  let paid = pay f idx q.0 e h in
                  elim f.text
                    as (λ o. P (elim o [
                      | none ↦ read_files match max_lines budget fs (charge f idx)
                      | some text ↦ elim (full max_lines (scanned text)) [
                        | true ↦ scanned text
                        | false ↦ read_files match max_lines budget fs (scanned text)
                      ]
                    ])) [
                      | none ↦ ih (charge f idx) paid
                      | some text ↦
                          let kept = read f text (charge f idx) paid in
                          elim (full max_lines (scanned text))
                            as (λ b. P (elim b [
                              | true ↦ scanned text
                              | false ↦ read_files match max_lines budget fs (scanned text)
                            ])) [ true ↦ kept | false ↦ ih (scanned text) kept ]
                    ]
            ]
        refl

  read_files-IsCapped :
      (max_lines budget : Option ℕ) (fs : List LogFile)
      → IsCapped max_lines (length (read_files match max_lines budget fs empty_index).lines)
  read_files-IsCapped none budget fs = tt
  read_files-IsCapped (some zero) budget fs = tt
  read_files-IsCapped (some (suc m)) budget fs =
      read_files-length match (suc m) budget fs empty_index (omega arith) (omega arith)

  -- The lines of an index are in the order of time, file and line number, and no
  -- more than max_lines, unless that is none or 0.
  pub build_index-IsSortedBy :
      (found : List Found) (max_lines budget : Option ℕ)
      → IsSortedBy line_le (build_index match found max_lines budget).lines
        × IsCapped max_lines (length (build_index match found max_lines budget).lines)
  unfolding build_index
  build_index-IsSortedBy found max_lines budget =
      let fs = sort_by newer (iter_log_files found) in
      let idx = read_files match max_lines budget fs empty_index in
      (
        sort_by-IsSortedBy line_le line_le_total line_le_trans idx.lines,
        subst (λ n. IsCapped max_lines n) (sym (length-sort_by line_le idx.lines))
            (read_files-IsCapped max_lines budget fs),
      )

  -- The bytes of each component are at most the budget, or the size of a largest
  -- file where that is more.
  pub build_index-IsWithin :
      (found : List Found) (max_lines : Option ℕ) (budget size : ℕ)
      → All (λ (f : LogFile). f.size ≤ size) (iter_log_files found)
      → IsWithin budget size (build_index match found max_lines (some budget))
  unfolding build_index get
  build_index-IsWithin found max_lines budget size h =
      let fs = sort_by newer (iter_log_files found) in
      read_files-keeps (IsWithin budget size) (λ f. f.size ≤ size) max_lines (some budget)
        (λ f idx q e w. charge-IsWithin budget size f idx q e w)
        (λ f text idx w component.
          subst (λ counts. get counts component ≤ max budget size)
            (sym (component_bytes-read_lines match max_lines f 1 text idx)) (w component))
        fs empty_index (sort_by-All newer (λ f. f.size ≤ size) (iter_log_files found) h)
        (λ component. omega arith)
