-- ===== src/Query/Atoms.antt =====
-- `_parse_atom_token`, `_parse_field` and the time filters: one atom of a query becomes a leaf.
pub mod Total
pub mod Time
use zcc_analysis.Common.{
  ℕ, zero, suc, ◌+◌, ◌-◌, ◌*◌, ◌≡◌, Bool, true, false, ◌&&◌, Option, none, some,
}
use zcc_analysis.Common.{
  List, [], ◌∷◌, ◌++◌, Str, codes, str_eq, starts_with, contains, length, drop,
}
use zcc_analysis.Common.{◌==◌, ltb, leb, if◌then◌else◌, String}
use zcc_analysis.Common.Outcome.{Outcome, ok, raised, ◌>>=◌}
use zcc_analysis.Query.Engine.{Engine, Pattern, ℤ, strip}
use zcc_analysis.Query.Events.{event_patterns, get_literal}
use zcc_analysis.Query.Tokens.{backslash}
use zcc_analysis.Query.Node

-- `s.endswith(d)`, for one character.
unfoldable pub ends_with : Str → ℕ → Bool
ends_with [] d = false
ends_with (c ∷ []) d = c == d
ends_with (c ∷ e ∷ s) d = ends_with (e ∷ s) d

-- `s[:-1]`
unfoldable pub but_last : Str → Str
but_last [] = []
but_last (c ∷ []) = []
but_last (c ∷ e ∷ s) = c ∷ but_last (e ∷ s)

-- `text.startswith(d) and text.endswith(d) and len(text) >= 2`
unfoldable pub is_delimited : ℕ → Str → Bool
unfolding starts_with ends_with
is_delimited d text = starts_with text (d ∷ []) && ends_with text d && leb 2 (length text)

-- `text[1:-1]`
unfoldable pub inner : Str → Str
unfolding but_last
inner text = but_last (drop 1 text)

-- `s.replace("\\" + c, c)`, which is `s.replace` of a backslash and `c` by `c`.
unfoldable pub unescape : ℕ → Str → Str
unescape d [] = []
unescape d (c ∷ []) = c ∷ []
unescape d (c ∷ e ∷ s) = elim (c == backslash && e == d) [
  | true ↦ d ∷ unescape d s
  | false ↦ c ∷ unescape d (e ∷ s)
]

-- `s.partition(sep)` where `sep` is in `s`: what stands before and after its first occurrence.
unfoldable pub partition : Str → Str → Option (Str × Str)
unfolding starts_with
partition sep [] = none
partition sep (c ∷ s) = elim (starts_with (c ∷ s) sep) [
  | true ↦ some ([], drop (length sep) (c ∷ s))
  | false ↦ elim (partition sep s) [ none ↦ none | some (a, b) ↦ some (c ∷ a, b) ]
]

abbrev pub second : ℕ
second = 1_000_000

-- `timedelta.max` and `datetime.max`, in microseconds.
abbrev pub max_timedelta : ℕ
max_timedelta = 1_000_000_000 * 86_400 * second - 1

abbrev pub max_datetime : ℕ
max_datetime = 3_652_059 * 86_400 * second - 1

-- `timedelta(...)` of so many seconds.
unfoldable pub timedelta : ℕ → Outcome Node.Raised ℕ
timedelta n = if leb (n * second) max_timedelta then ok (n * second) else raised Node.overflow_error

-- `centre - dur` and `centre + dur`
unfoldable pub minus : ℕ → ℕ → Outcome Node.Raised ℕ
minus t d = if leb d t then ok (t - d) else raised Node.overflow_error

unfoldable pub plus : ℕ → ℕ → Outcome Node.Raised ℕ
plus t d = if leb (t + d) max_datetime then ok (t + d) else raised Node.overflow_error

abbrev pub ts_formats : List String
ts_formats =
    "%Y-%m-%d %H:%M:%S" ∷ "%Y-%m-%dT%H:%M:%S" ∷ "%Y-%m-%d %H:%M" ∷ "%Y-%m-%dT%H:%M" ∷ "%Y-%m-%d"
    ∷ []

abbrev pub separators : List Str
separators = (177 ∷ []) ∷ codes "+-" ∷ codes "+/-" ∷ []

abbrev pub fail {ℓ} : {A : Type ℓ} → Node.QueryError → Outcome Node.Raised A
fail e = raised (Node.query_error e)

module _ (E : Engine) where
  -- `re.compile(pat, re.IGNORECASE)`
  unfoldable pub compile : Str → Outcome Node.Raised Pattern
  compile pat =
      if E.valid pat
      then ok (record { source = pat; ignore_case = true })
      else fail (Node.bad_regex pat)

  -- The first of the formats that reads the text.
  unfoldable pub first_format : Str → List String → Outcome Node.Raised ℕ
  first_format s [] = fail (Node.bad_timestamp s)
  first_format s (f ∷ fs) = elim (E.strptime s (codes f)) [
    | none ↦ first_format s fs
    | some t ↦ ok t
  ]

  unfoldable pub parse_ts : Str → Outcome Node.Raised ℕ
  unfolding strip first_format
  parse_ts s = first_format (strip E s) ts_formats

  -- The length in seconds of one of the unit.
  unfoldable pub unit_seconds : Str → Option ℕ
  unfolding starts_with
  unit_seconds unit =
      if starts_with unit (codes "s")
      then some 1
      else if starts_with unit (codes "m")
          && (if starts_with unit (codes "mo") then false else true)
      then some 60
      else if starts_with unit (codes "h")
      then some 3600
      else if starts_with unit (codes "d")
      then some 86_400
      else none

  unfoldable pub parse_duration : Str → Outcome Node.Raised ℕ
  unfolding unit_seconds timedelta
  parse_duration s = elim (E.match_duration s) [
    | none ↦ fail (Node.bad_duration s)
    | some (n, unit) ↦ elim (unit_seconds (E.lower unit)) [
      | none ↦ fail (Node.bad_duration_unit s)
      | some k ↦ timedelta (n * k)
    ]
  ]

  -- START..END, in either order.
  unfoldable pub parse_span : Str → Str → Outcome Node.Raised Node.Node
  unfolding parse_ts
  parse_span left right = do
    start ← parse_ts left
    end ← parse_ts right
    ok (if ltb end start then Node.time_range end start else Node.time_range start end)

  -- CENTRE±DUR
  unfoldable pub parse_around : Str → Str → Outcome Node.Raised Node.Node
  unfolding parse_ts parse_duration minus plus
  parse_around left right = do
    centre ← parse_ts left
    dur ← parse_duration right
    from ← minus centre dur
    to ← plus centre dur
    ok (Node.time_range from to)

  -- The loop over the separators, then the single timestamp.
  unfoldable pub parse_window : Str → List Str → Outcome Node.Raised Node.Node
  unfolding parse_around plus parse_ts partition
  parse_window val [] = do
    centre ← parse_ts val
    to ← plus centre second
    ok (Node.time_range centre to)
  parse_window val (sep ∷ seps) = elim (partition sep val) [
    | none ↦ parse_window val seps
    | some (left, right) ↦ parse_around left right
  ]

  unfoldable pub parse_time : Str → Outcome Node.Raised Node.Node
  unfolding strip partition parse_span parse_window
  parse_time raw =
      let val = strip E raw in
      elim (partition (codes "..") val) [
        | none ↦ parse_window val separators
        | some (left, right) ↦ parse_span left right
      ]

  -- `EventMatch(name)`
  unfoldable pub event_node : Str → Outcome Node.Raised Node.Node
  unfolding get_literal
  event_node name = elim (get_literal event_patterns name) [
    | none ↦ fail (Node.unknown_event name)
    | some pat ↦ ok (Node.event_match name (record { source = pat; ignore_case = true }))
  ]

  -- `ErrCodeMatch(n)`, whose pattern is compiled at its construction.
  unfoldable pub err_code_node : ℤ → Outcome Node.Raised Node.Node
  err_code_node n =
      let source =
        codes "(?:err[_ ]?code\\s*[:=]\\s*|error\\s+)" ++ (E.show_int n ++ codes "\\b") in
      if E.valid source
      then ok (Node.err_code_match n (record { source = source; ignore_case = true }))
      else raised Node.re_error

  -- `CodeMatch(code)`
  unfoldable pub code_node : Str → Outcome Node.Raised Node.Node
  code_node code =
      let source = codes "\\b" ++ (E.escape code ++ codes "\\b") in
      if E.valid source
      then ok (Node.code_match code (record { source = source; ignore_case = false }))
      else raised Node.re_error

  -- The fields that are not attributes of a line.
  unfoldable pub derived_field : Str → Str → Outcome Node.Raised Node.Node
  unfolding str_eq
  derived_field key val =
      if str_eq key (codes "contains")
      then ok (Node.text_match val)
      else if str_eq key (codes "re")
      then (compile val >>= λ p. ok (Node.regex_match p))
      else if str_eq key (codes "time")
      then parse_time val
      else if str_eq key (codes "event")
      then event_node (strip E val)
      else if str_eq key (codes "err_code")
      then elim (E.parse_int val) [
        | none ↦ fail (Node.not_an_integer val)
        | some n ↦ err_code_node n
      ]
      else if str_eq key (codes "code")
      then code_node (strip E val)
      else fail (Node.unknown_field key)

  -- `_DIRECT_FIELDS`
  unfoldable pub direct_field : Str → Str → Option Node.Node
  unfolding str_eq
  direct_field key val =
      if str_eq key (codes "component")
      then some (Node.field_equals Node.Field.component val)
      else if str_eq key (codes "level")
      then some (Node.field_equals Node.Field.level val)
      else if str_eq key (codes "pid")
      then some (Node.field_equals Node.Field.pid val)
      else if str_eq key (codes "tid")
      then some (Node.field_equals Node.Field.tid val)
      else if str_eq key (codes "session_id")
      then some (Node.field_contains Node.Field.session_id val)
      else if str_eq key (codes "host")
      then some (Node.field_contains Node.Field.host val)
      else if str_eq key (codes "source_file")
      then some (Node.field_contains Node.Field.source_file val)
      else none

  unfoldable pub parse_field : Str → Str → Outcome Node.Raised Node.Node
  parse_field key raw =
      let val = if is_delimited b'"' raw then inner raw else raw in
      elim (direct_field key val) [ none ↦ derived_field key val | some n ↦ ok n ]

  -- A word with no delimiters: `field:value`, or a text.
  unfoldable pub parse_word : Str → Outcome Node.Raised Node.Node
  parse_word text = elim (partition (codes ":") text) [
    | none ↦ ok (Node.text_match text)
    | some ([], val) ↦ ok (Node.text_match text)
    | some (k ∷ key, []) ↦ ok (Node.text_match text)
    | some (k ∷ key, v ∷ val) ↦ parse_field (E.lower (k ∷ key)) (v ∷ val)
  ]

  unfoldable pub parse_atom_token : Str → Outcome Node.Raised Node.Node
  parse_atom_token text =
      if is_delimited b'/' text
      then (compile (inner text) >>= λ p. ok (Node.regex_match p))
      else if is_delimited b'"' text
      then ok (Node.text_match (unescape backslash (unescape b'"' (inner text))))
      else parse_word text
