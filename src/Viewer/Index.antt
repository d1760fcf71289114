-- ===== src/Viewer/Index.antt =====
-- The lines of `LogIndex`, its searches, and the scans of one file in raw_view.py. An instant is a count of
-- microseconds since `datetime.min`; `lower` and the regular expressions are Python's.
pub mod Laws
use zcc_analysis.Common.{
  ℕ, zero, suc, ◌+◌, ◌-◌, Bool, true, false, ◌&&◌, not, Option, none, some, List, [], ◌∷◌,
}
use zcc_analysis.Common.{Str, str_eq, contains, keep, leb, ltb, ◌==◌, if◌then◌else◌}

-- `IndexedLine`, the fields that the viewers read.
pub record Line : Type 0 where
  pub ts : ℕ
  pub level : Str
  pub body : Str
  pub component : Str
  pub source_file : Str
  pub line_no : ℕ
  pub session_id : Option Str

module _ (lower : Str → Str) where
  -- `LogIndex.search`
  unfoldable pub search : List Line → Str → List Line
  unfolding contains
  search lines query = keep (λ ln. contains (lower query) (lower ln.body)) lines

  -- `q_lower is not None and q_lower not in body.lower()` skips a line; an empty substring is no filter.
  unfoldable pub has_substring : Option Str → Line → Bool
  unfolding contains
  has_substring none ln = true
  has_substring (some []) ln = true
  has_substring (some (c ∷ q)) ln = contains (lower (c ∷ q)) (lower ln.body)

  -- A pattern that does not compile is no filter; nor is an empty one.
  unfoldable pub has_match : (Str → Option (Str → Bool)) → Option Str → Line → Bool
  has_match compile none ln = true
  has_match compile (some []) ln = true
  has_match compile (some (c ∷ r)) ln = elim (compile (c ∷ r)) [
    | none ↦ true
    | some found ↦ found ln.body
  ]

  unfoldable pub get_file_lines :
      (Str → Option (Str → Bool)) → List Line → Str → Option Str → Option Str → List Line
  unfolding str_eq has_substring has_match
  get_file_lines compile lines source_file substring regex =
      keep
        (λ ln.
          str_eq ln.source_file source_file
          && (has_substring substring ln && has_match compile regex ln))
        lines

-- `LogIndex.time_window`
unfoldable pub time_window : List Line → ℕ → ℕ → List Line
time_window lines start stop = keep (λ ln. leb start ln.ts && leb ln.ts stop) lines

-- `out.sort(key=lambda x: x.line_no)`, which keeps the order of equal keys.
unfoldable pub insert : Line → List Line → List Line
insert x [] = x ∷ []
insert x (y ∷ ys) =
    let rest = insert x ys in if leb x.line_no y.line_no then x ∷ y ∷ ys else y ∷ rest

unfoldable pub sort : List Line → List Line
unfolding insert
sort [] = []
sort (x ∷ xs) = insert x (sort xs)

-- `LogIndex.surrounding_lines`
unfoldable pub surrounding_lines : List Line → Str → Option ℕ → ℕ → List Line
unfolding str_eq sort
surrounding_lines lines [] line_no radius = []
surrounding_lines lines (c ∷ f) none radius = []
surrounding_lines lines (c ∷ f) (some line_no) radius = sort (
    keep
      (λ ln.
        str_eq ln.source_file (c ∷ f)
        && (leb line_no (ln.line_no + radius) && leb ln.line_no (line_no + radius)))
      lines)

-- `find_line_index`, from the index `i` on.
unfoldable pub find_from : ℕ → List Line → ℕ → Option ℕ
find_from i [] target = none
find_from i (ln ∷ lines) target =
    let rest = find_from (i + 1) lines target in if ln.line_no == target then some i else rest

unfoldable pub find_line_index : List Line → ℕ → Option ℕ
unfolding find_from
find_line_index lines target = find_from 0 lines target
