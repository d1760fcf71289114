-- ===== src/Viewer/Build/Limits.antt =====
-- The limits on lines and bytes, round by round.
use zcc_analysis.Common.{
  ℕ, zero, suc, ◌+◌, ◌≤◌, ◌<◌, ◌≡◌, refl, arith, max, true, false, ◌&&◌, Option, none, some, List,
  [], ◌∷◌, length, length-append, Str, str_eq, str_eq_iff, Bool-cases, ◌⊎◌, inl, inr, ap, sym, ◌∙◌,
  ltb, if◌then◌else◌,
}
use zcc_analysis.Common.Counters.{get-add, get}
use zcc_analysis.Viewer.Build.{
  LogFile, Parts, LogIndex, append_line, full, timed, read_lines, over_budget, charge, skip_line,
  line_of, count_file, read_files,
}

full-false :
    (max_lines : ℕ) (idx : LogIndex)
    → 0 < max_lines
    → full (some max_lines) idx ≡ false
    → length idx.lines < max_lines
unfolding full
full-false max_lines idx p h = ground (arith, p, h)

-- What a budget lets a component have, where no file is larger than `size`.
abbrev pub IsWithin : ℕ → ℕ → LogIndex → Type 0
IsWithin budget size idx = (component : Str) → get idx.component_bytes component ≤ max budget size

room_of :
    (budget n size : ℕ) → (ltb budget (n + size) && ltb 0 n) ≡ false → (n + size ≤ budget) ⊎ (n ≡ 0)
room_of budget n size e = ground (arith, e)

pub charge-IsWithin :
    (budget size : ℕ) (f : LogFile) (idx : LogIndex)
    → f.size ≤ size
    → over_budget (some budget) f idx ≡ false
    → IsWithin budget size idx
    → IsWithin budget size (charge f idx)
unfolding over_budget
charge-IsWithin budget size f idx h e w component =
    let n = get idx.component_bytes f.component in
    let before = w component in
    let after = get-add idx.component_bytes f.component component f.size in
    elim (Bool-cases (str_eq f.component component)) [
      | inr other ↦ omega (
        arith,
        before,
        after ∙ ap (λ b. get idx.component_bytes component + (if b then f.size else 0)) other,
      )
      | inl same ↦
          let here : get idx.component_bytes component ≡ n =
            ap (get idx.component_bytes) (sym ((str_eq_iff f.component component).0 same)) in
          let added =
            after ∙ ap (λ b. get idx.component_bytes component + (if b then f.size else 0)) same in
          let room : (n + f.size ≤ budget) ⊎ (n ≡ 0) = room_of budget n f.size e in
          elim room [
            | inl fits ↦ omega (arith, added, here, fits)
            | inr first ↦ omega (arith, added, here, first, h)
          ]
    ]

-- No limit, or at most that many lines.
abbrev pub IsCapped : Option ℕ → ℕ → Type 0
IsCapped none n = Unit
IsCapped (some zero) n = Unit
IsCapped (some (suc m)) n = n ≤ suc m

module _ (match : Str → Option Parts) where
  pub read_lines-length :
      (m : ℕ) (f : LogFile) (line_no : ℕ) (text : List Str) (idx : LogIndex)
      → 0 < m
      → length idx.lines < m
      → length (read_lines match (some m) f line_no text idx).lines ≤ m
  unfolding read_lines append_line
  read_lines-length m f line_no [] idx p h = omega (arith, h)
  read_lines-length m f line_no (raw ∷ text) idx p h =
      elim (timed match raw)
        as (λ o.
          let r : LogIndex = elim o [
            | none ↦ read_lines match (some m) f (suc line_no) text (skip_line idx)
            | some x ↦
                let next = append_line (line_of f line_no x.0 x.1) x.1 idx in
                if full (some m) next
                then next
                else read_lines match (some m) f (suc line_no) text next
          ] in
          length r.lines ≤ m) [
            | none ↦ read_lines-length m f (suc line_no) text (skip_line idx) p h
            | some x ↦
                let next = append_line (line_of f line_no x.0 x.1) x.1 idx in
                elim (full (some m) next)
                    as (λ b.
                      full (some m) next ≡ b
                      → length
                          (if b
                            then next
                            else read_lines match (some m) f (suc line_no) text next).lines
                        ≤ m) [
                          | true ↦ λ e.
                              omega
                                (arith, h, length-append idx.lines (line_of f line_no x.0 x.1 ∷ []))
                          | false ↦ λ e.
                              read_lines-length m f (suc line_no) text next p
                                (full-false m next p e)
                        ]
                  refl
          ]

  pub component_bytes-read_lines :
      (max_lines : Option ℕ) (f : LogFile) (line_no : ℕ) (text : List Str) (idx : LogIndex)
      → (read_lines match max_lines f line_no text idx).component_bytes ≡ idx.component_bytes
  unfolding read_lines append_line
  component_bytes-read_lines max_lines f line_no [] idx = refl
  component_bytes-read_lines max_lines f line_no (raw ∷ text) idx =
      elim (timed match raw)
        as (λ o.
          let r : LogIndex = elim o [
            | none ↦ read_lines match max_lines f (suc line_no) text (skip_line idx)
            | some x ↦
                let next = append_line (line_of f line_no x.0 x.1) x.1 idx in
                if full max_lines next
                then next
                else read_lines match max_lines f (suc line_no) text next
          ] in
          r.component_bytes ≡ idx.component_bytes) [
            | none ↦ component_bytes-read_lines max_lines f (suc line_no) text (skip_line idx)
            | some x ↦
                let next = append_line (line_of f line_no x.0 x.1) x.1 idx in
                elim (full max_lines next)
                  as (λ b.
                    (if b
                      then next
                      else read_lines match max_lines f (suc line_no) text next).component_bytes
                    ≡ idx.component_bytes) [
                      | true ↦ refl
                      | false ↦ component_bytes-read_lines max_lines f (suc line_no) text next
                    ]
          ]

  pub read_files-length :
      (m : ℕ) (budget : Option ℕ) (fs : List LogFile) (idx : LogIndex)
      → 0 < m
      → length idx.lines < m
      → length (read_files match (some m) budget fs idx).lines ≤ m
  unfolding read_files
  read_files-length m budget [] idx p h = omega (arith, h)
  read_files-length m budget (f ∷ fs) idx p h =
      let scanned =
        λ (text : List Str). count_file (read_lines match (some m) f 1 text (charge f idx)) in
      elim (over_budget budget f idx)
        as (λ b.
          let r : LogIndex = elim b [
            | true ↦ read_files match (some m) budget fs idx
            | false ↦ elim f.text [
              | none ↦ read_files match (some m) budget fs (charge f idx)
              | some text ↦ elim (full (some m) (scanned text)) [
                | true ↦ scanned text
                | false ↦ read_files match (some m) budget fs (scanned text)
              ]
            ]
          ] in
          length r.lines ≤ m) [
            | true ↦ read_files-length m budget fs idx p h
            | false ↦
                elim f.text
                  as (λ o.
                    let r : LogIndex = elim o [
                      | none ↦ read_files match (some m) budget fs (charge f idx)
                      | some text ↦ elim (full (some m) (scanned text)) [
                        | true ↦ scanned text
                        | false ↦ read_files match (some m) budget fs (scanned text)
                      ]
                    ] in
                    length r.lines ≤ m) [
                      | none ↦ read_files-length m budget fs (charge f idx) p h
                      | some text ↦
                          elim (full (some m) (scanned text))
                              as (λ b.
                                full (some m) (scanned text) ≡ b
                                → (let r : LogIndex = elim b [
                                  | true ↦ scanned text
                                  | false ↦ read_files match (some m) budget fs (scanned text)
                                ] in
                                    length r.lines ≤ m)) [
                                      | true ↦ λ e. read_lines-length m f 1 text (charge f idx) p h
                                      | false ↦ λ e.
                                          read_files-length m budget fs (scanned text) p
                                            (full-false m (scanned text) p e)
                                    ]
                            refl
                    ]
          ]
