-- ===== src/Viewer/Build.antt =====
-- `_iter_log_files` and `build_index`: the log files of a bundle, and the index of their lines.
pub mod Order
pub mod Limits
pub mod Laws
use zcc_analysis.Common.{
  ℕ, zero, suc, ◌+◌, ◌-◌, ◌*◌, ◌/◌, ◌%◌, Bool, true, false, ◌&&◌, ◌||◌, not, Option, none, some,
  List, [], ◌∷◌, ◌++◌, length, drop, take, any, keep, Str, codes, str_eq, starts_with, ltb, leb,
  ◌==◌, if◌then◌else◌,
}
use zcc_analysis.Common.Order.{str_le}
use zcc_analysis.Common.Sorting.{sort_by}
use zcc_analysis.Common.Counters.{Counter, get, add, sum}
use zcc_analysis.Viewer.Index.{Line}

-- A file that `os.walk` finds: its name, its size, and its lines; none where asking for the size, or
-- opening, raises `OSError`.
pub record Found : Type 0 where
  pub name : Str
  pub size : Option ℕ
  pub text : Option (List Str)

-- A member of `seen_files`.
pub record LogFile : Type 0 where
  pub component : Str
  pub basename : Str
  pub size : ℕ
  pub text : Option (List Str)

-- `s.endswith(t)`
unfoldable pub ends_with : Str → Str → Bool
unfolding str_eq
ends_with s t = str_eq (drop (length s - length t) s) t

unfoldable pub has_prefix : Str → List Str → Bool
unfolding starts_with
has_prefix name prefixes = any (λ p. starts_with name p) prefixes

unfoldable pub component_of : Str → Option Str
unfolding has_prefix ends_with
component_of name =
    if not (ends_with name (codes ".log"))
    then none
    else if has_prefix name (codes "ZSAHelper" ∷ codes "ZSAUpdater" ∷ [])
    then none
    else if has_prefix name (codes "ZSATunnel" ∷ codes "TRPTunnel" ∷ [])
    then some (codes "tunnel")
    else if has_prefix name
        (codes "ZSAService" ∷ codes "com.zscaler.ZscalerService" ∷ codes "TRPService" ∷ [])
    then some (codes "service")
    else if has_prefix name (codes "ZSATrayManager" ∷ codes "ZSATray" ∷ codes "ZSATrayHelper" ∷ [])
    then some (codes "tray")
    else if has_prefix name (codes "ZSAUpm" ∷ [])
    then some (codes "upm")
    else none

unfoldable pub log_file : Found → Option LogFile
unfolding component_of
log_file f = elim f.size [
  | none ↦ none
  | some size ↦ elim (component_of f.name) [
    | none ↦ none
    | some component ↦
        if ltb size 200
        then none
        else some (record { component = component; basename = f.name; size = size; text = f.text })
  ]
]

unfoldable pub iter_log_files : List Found → List LogFile
unfolding log_file
iter_log_files [] = []
iter_log_files (f ∷ fs) = elim (log_file f) [
  | none ↦ iter_log_files fs
  | some l ↦ l ∷ iter_log_files fs
]

-- `seen_files.sort(key=basename, reverse=True)`, which keeps the order of equal names.
abbrev pub newer : LogFile → LogFile → Bool
newer a b = str_le b.basename a.basename

-- `key=lambda ln: (ln.ts, ln.source_file, ln.line_no)`
unfoldable pub line_le : Line → Line → Bool
unfolding str_le str_eq
line_le a b =
    if a.ts == b.ts
    then (if str_eq a.source_file b.source_file
        then leb a.line_no b.line_no
        else str_le a.source_file b.source_file)
    else ltb a.ts b.ts

-- What the pattern of a line finds, and what is found in its body; `ts` is none where `strptime`
-- raises ValueError.
pub record Parts : Type 0 where
  pub ts : Option ℕ
  pub tz : Str
  pub level : Str
  pub body : Str
  pub session_id : Option Str
  pub host : Option Str

-- `LogIndex`, and `component_bytes`.
pub record LogIndex : Type 0 where
  pub lines : List Line
  pub by_session_id : List (Str × List Line)
  pub by_host : List (Str × List Line)
  pub files_scanned : ℕ
  pub component_bytes : Counter
  pub lines_skipped : ℕ
  pub bundle_tz_offset : Option Str

abbrev pub empty_index : LogIndex
empty_index = record {
  lines = [];
  by_session_id = [];
  by_host = [];
  files_scanned = 0;
  component_bytes = [];
  lines_skipped = 0;
  bundle_tz_offset = none;
}

-- `table[key].append(ln)`, where an absent or empty key is no key.
unfoldable pub file_under : List (Str × List Line) → Str → Line → List (Str × List Line)
unfolding str_eq
file_under [] key ln = (key, ln ∷ []) ∷ []
file_under ((k, ls) ∷ table) key ln =
    let rest = file_under table key ln in
    if str_eq k key then (k, ls ++ ln ∷ []) ∷ table else (k, ls) ∷ rest

unfoldable pub file_if : List (Str × List Line) → Option Str → Line → List (Str × List Line)
unfolding file_under
file_if table none ln = table
file_if table (some []) ln = table
file_if table (some (c ∷ key)) ln = file_under table (c ∷ key) ln

-- The offset without its parentheses and colon; the first one that is not empty is kept.
unfoldable pub strip_parens : Str → Str
unfolding starts_with ends_with
strip_parens tz =
    if starts_with tz (codes "(") && ends_with tz (codes ")")
    then take (length tz - 2) (drop 1 tz)
    else tz

unfoldable pub note_tz : Option Str → Str → Option Str
unfolding strip_parens
note_tz (some tz) raw = some tz
note_tz none raw = elim (keep (λ c. not (c == b':')) (strip_parens raw)) [
  | [] ↦ none
  | c ∷ tz ↦ some (c ∷ tz)
]

unfoldable pub line_of : LogFile → ℕ → ℕ → Parts → Line
line_of f line_no ts m = record {
  ts = ts;
  level = m.level;
  body = m.body;
  component = f.component;
  source_file = f.basename;
  line_no = line_no;
  session_id = m.session_id;
}

unfoldable pub append_line : Line → Parts → LogIndex → LogIndex
unfolding file_if note_tz
append_line ln m idx = record idx {
  lines = idx.lines ++ ln ∷ [];
  by_session_id = file_if idx.by_session_id m.session_id ln;
  by_host = file_if idx.by_host m.host ln;
  bundle_tz_offset = note_tz idx.bundle_tz_offset m.tz;
}

-- `max_lines and len(idx.lines) >= max_lines`
unfoldable pub full : Option ℕ → LogIndex → Bool
full none idx = false
full (some max_lines) idx = not (max_lines == 0) && leb max_lines (length idx.lines)

abbrev pub skip_line : LogIndex → LogIndex
skip_line idx = record idx { lines_skipped = suc idx.lines_skipped }

-- `component_bytes[component] + size > tunnel_byte_budget and component_bytes[component] > 0`
unfoldable pub over_budget : Option ℕ → LogFile → LogIndex → Bool
unfolding get
over_budget none f idx = false
over_budget (some budget) f idx =
    ltb budget (get idx.component_bytes f.component + f.size)
    && ltb 0 (get idx.component_bytes f.component)

abbrev pub charge : LogFile → LogIndex → LogIndex
charge f idx = record idx { component_bytes = add idx.component_bytes f.component f.size }

abbrev pub count_file : LogIndex → LogIndex
count_file idx = record idx { files_scanned = suc idx.files_scanned }

-- The pattern of a line, with `strptime`, `_extract_session_id` and `_extract_host`: regular expressions.
module _ (match : Str → Option Parts) where
  -- A line that parses, with its time.
  unfoldable pub timed : Str → Option (ℕ × Parts)
  timed raw = elim (match raw) [
    | none ↦ none
    | some m ↦ elim m.ts [ none ↦ none | some ts ↦ some (ts, m) ]
  ]

  -- The loop over the lines of a file.
  unfoldable pub read_lines : Option ℕ → LogFile → ℕ → List Str → LogIndex → LogIndex
  unfolding timed line_of append_line full
  read_lines max_lines f line_no [] idx = idx
  read_lines max_lines f line_no (raw ∷ text) idx = elim (timed raw) [
    | none ↦ read_lines max_lines f (suc line_no) text (skip_line idx)
    | some (ts, m) ↦
        let next = append_line (line_of f line_no ts m) m idx in
        let rest = read_lines max_lines f (suc line_no) text next in
        if full max_lines next then next else rest
  ]

  -- The loop over the files.
  unfoldable pub read_files : Option ℕ → Option ℕ → List LogFile → LogIndex → LogIndex
  unfolding over_budget read_lines full add
  read_files max_lines budget [] idx = idx
  read_files max_lines budget (f ∷ fs) idx = elim (over_budget budget f idx) [
    | true ↦ read_files max_lines budget fs idx
    | false ↦ elim f.text [
      | none ↦ read_files max_lines budget fs (charge f idx)
      | some text ↦
          let done = count_file (read_lines max_lines f 1 text (charge f idx)) in
          elim (full max_lines done) [ true ↦ done | false ↦ read_files max_lines budget fs done ]
    ]
  ]

  -- Only `lines` is sorted.
  unfoldable pub build_index : List Found → Option ℕ → Option ℕ → LogIndex
  unfolding iter_log_files read_files sort_by line_le
  build_index found max_lines budget =
      let idx = read_files max_lines budget (sort_by newer (iter_log_files found)) empty_index in
      record idx { lines = sort_by line_le idx.lines }
