-- ===== src/Timeline/Session.antt =====
-- `reconstruct_session`: every line that mentions an identifier, in order, with what it is seen with.
pub mod Laws
use zcc_analysis.Common.{
  ℕ, zero, suc, ◌+◌, ◌-◌, ◌≤◌, ◌<◌, ◌≡◌, ◌≢◌, refl, sym, ap, subst, ◌∙◌, ◌↔◌, ◌⊎◌, inl, inr, Bool,
  true, false, not, ◌&&◌, ◌||◌, Option, none, some, List, [], ◌∷◌, ◌++◌, map, append-nil,
  append_assoc, arith, length, take, drop, get_elem?, keep, All, All-append, length-append,
  if◌then◌else◌, ltb, leb, ◌==◌, Bool-cases, Str, str_eq, str_eq_iff, codes, contains, any, String,
}
use zcc_analysis.Common.Groups.{Groups, group_by}
use zcc_analysis.Common.Counters.{Counter, tally, add_to_set}
use zcc_analysis.Common.Sorting.{sort_by}
use zcc_analysis.Common.Order.{str_le}
use zcc_analysis.Viewer.Index.{Line}
use zcc_analysis.Viewer.Build.{line_le}
use zcc_analysis.Timeline.Phases.{classify_phase}

-- Python's part: `re.search`, ignoring case; `re.match` of the two patterns of `guess_id_type`; the texts
-- that `finditer` captures; `re.escape`; `str.strip`, `str.lower` and `str.isdigit`.
pub record Python : Type 0 where
  pub search : Str → Str → Bool
  pub is_uuid : Str → Bool
  pub is_prefix : Str → Bool
  pub find_all : String → Str → List Str
  pub escape : Str → Str
  pub strip : Str → Str
  pub lower : Str → Str
  pub is_digit : Str → Bool

-- `ReconLine`
pub record ReconLine : Type 0 where
  pub ts : ℕ
  pub level : Str
  pub component : Str
  pub source_file : Str
  pub line_no : ℕ
  pub phase : Str
  pub body : Str
  pub related : Groups Str Str

-- `SessionRecon`
pub record Session : Type 0 where
  pub query_id : Str
  pub id_type : Str
  pub line_count : ℕ
  pub first_ts : Option ℕ
  pub last_ts : Option ℕ
  pub duration : Option ℕ
  pub files_touched : Counter
  pub components_touched : Counter
  pub phase_histogram : Counter
  pub related_id_summary : Groups Str Str
  pub lines : List ReconLine

-- The texts before and after the first comma.
unfoldable pub split_comma : Str → Str × Str
split_comma [] = ([], [])
split_comma (c ∷ s) =
    let rest = split_comma s in if c == b',' then ([], s) else (c ∷ rest.0, rest.1)

unfoldable pub last_ts_of : List ReconLine → Option ℕ
last_ts_of [] = none
last_ts_of (l ∷ []) = some l.ts
last_ts_of (l ∷ k ∷ lines) = last_ts_of (k ∷ lines)

unfoldable pub first_ts_of : List ReconLine → Option ℕ
first_ts_of [] = none
first_ts_of (l ∷ lines) = some l.ts

-- `(last_ts - first_ts)`, of times in order.
unfoldable pub duration_of : Option ℕ → Option ℕ → Option ℕ
duration_of none b = none
duration_of (some a) none = none
duration_of (some a) (some b) = some (b - a)

-- `out[name].append(…)` for each text found.
unfoldable pub related_entry : Str → List Str → Groups Str Str
related_entry name [] = []
related_entry name (v ∷ vs) = (name, v ∷ vs) ∷ []

-- `related_agg[k].add(v)`
unfoldable pub add_values : Str → List Str → Groups Str Str → Groups Str Str
unfolding add_to_set
add_values k [] agg = agg
add_values k (v ∷ vs) agg = add_values k vs (add_to_set agg k v)

unfoldable pub add_related : Groups Str Str → Groups Str Str → Groups Str Str
unfolding add_values
add_related [] agg = agg
add_related ((k, vs) ∷ related) agg = add_related related (add_values k vs agg)

-- The query leaves the set of its own type, and the sets are sorted.
unfoldable pub summarize : Str → Str → Groups Str Str → Groups Str Str
unfolding str_eq sort_by str_le
summarize id_type query [] = []
summarize id_type query ((k, vs) ∷ agg) =
    (k, sort_by str_le (if str_eq k id_type then keep (λ v. not (str_eq v query)) vs else vs))
    ∷ summarize id_type query agg

module _ (py : Python) where
  unfoldable pub guess_id_type : Str → Str
  unfolding split_comma
  guess_id_type query_id =
      let q = py.strip query_id in
      let halves = split_comma q in
      if length q == 0
      then codes "free"
      else if py.is_digit q
      then codes "tag_id"
      else if py.is_uuid q
      then codes "session_id"
      else if any (λ c. c == b',') q && (py.is_prefix halves.0 && py.is_prefix halves.1)
      then codes "mtunnel_id"
      else if py.is_prefix q
      then codes "broker_session"
      else codes "free"

  unfoldable pub extract_related_ids : Str → Groups Str Str
  unfolding related_entry
  extract_related_ids body =
      related_entry (codes "tag_id") (py.find_all "tag_id[=:\\s]+(\\d+)" body)
      ++ related_entry (codes "err_code") (py.find_all "err[_ ]?code[=:\\s]+(\\d+)" body)
      ++ related_entry (codes "mtunnel_id")
          (py.find_all "mtunnel_id[=:\\s]+([a-zA-Z0-9+/=_-]+,[a-zA-Z0-9+/=_-]+)" body)
      ++ related_entry (codes "conn_id") (py.find_all "conn_id[=:\\s]+([a-zA-Z0-9+/=_-]+)" body)
      ++ related_entry (codes "app") (py.find_all "app[_ ]?name[=:\\s]+([a-zA-Z0-9._-]+)" body)
      ++ related_entry (codes "broker") (
          py.find_all
            "broker[a-z0-9_-]*\\.(?:[a-z0-9_-]+\\.)*(?:zpath|zscaler|zpalb|zpaservice)\\.net" body)

  -- `pat.search(line.body)`, the name before the escaped query.
  abbrev pub labelled : Str → Str → Line → Bool
  labelled name q ln = py.search (name ++ codes "[=:\\s]+" ++ py.escape q ++ codes "\\b") ln.body

  abbrev pub in_body : Str → Line → Bool
  in_body q ln = contains (py.lower q) (py.lower ln.body)

  unfoldable pub in_session : Str → Line → Bool
  unfolding str_eq
  in_session q ln = elim ln.session_id [
    | none ↦ false
    | some [] ↦ false
    | some (c ∷ s) ↦ str_eq (py.lower (c ∷ s)) (py.lower q)
  ]

  -- `_build_matcher`
  unfoldable pub matcher : Str → Str → Line → Bool
  unfolding str_eq contains in_session
  matcher query_id id_type ln =
      let q = py.strip query_id in
      if str_eq id_type (codes "tag_id")
      then labelled (codes "tag_id") q ln
      else if str_eq id_type (codes "session_id")
      then in_session q ln || in_body q ln
      else if str_eq id_type (codes "mtunnel_id") || str_eq id_type (codes "broker_session")
      then in_body q ln
      else if str_eq id_type (codes "conn_id")
      then labelled (codes "conn_id") q ln
      else in_body q ln

  abbrev pub phase_of : Line → Str
  phase_of ln = classify_phase py.search ln.body

  abbrev pub recon_line : Line → ReconLine
  recon_line ln = record {
    ts = ln.ts;
    level = ln.level;
    component = ln.component;
    source_file = ln.source_file;
    line_no = ln.line_no;
    phase = phase_of ln;
    body = ln.body;
    related = extract_related_ids ln.body;
  }

  -- `related_agg`
  unfoldable pub relate : List Line → Groups Str Str → Groups Str Str
  unfolding add_related extract_related_ids
  relate [] agg = agg
  relate (ln ∷ lines) agg = relate lines (add_related (extract_related_ids ln.body) agg)

  -- The lines that match, in order.
  unfoldable pub matched : List Line → Str → Str → List Line
  unfolding matcher sort_by line_le
  matched lines query_id id_type = sort_by line_le (keep (matcher query_id id_type) lines)

  -- Of lines that match; the three counters are counted apart.
  unfoldable pub session_of : Str → Str → List Line → Session
  unfolding tally classify_phase relate summarize first_ts_of last_ts_of duration_of
  session_of query_id id_type lines =
      let recon = map recon_line lines in
      record {
        query_id = query_id;
        id_type = id_type;
        line_count = length recon;
        first_ts = first_ts_of recon;
        last_ts = last_ts_of recon;
        duration = duration_of (first_ts_of recon) (last_ts_of recon);
        files_touched = tally (λ (ln : Line). ln.source_file) lines [];
        components_touched = tally (λ (ln : Line). ln.component) lines [];
        phase_histogram = tally phase_of lines [];
        related_id_summary = summarize id_type query_id (relate lines []);
        lines = recon;
      }

  -- `guess_id_type(query_id) if id_type is None`
  unfoldable pub kind_of : Str → Option Str → Str
  unfolding guess_id_type
  kind_of query_id none = guess_id_type query_id
  kind_of query_id (some id_type) = id_type

  unfoldable pub reconstruct_session : List Line → Str → Option Str → Session
  unfolding kind_of matched session_of
  reconstruct_session lines query_id id_type =
      let kind = kind_of query_id id_type in session_of query_id kind (matched lines query_id kind)

unfoldable pub component_or_unknown : ReconLine → Str
component_or_unknown l = elim l.component [ [] ↦ codes "(unknown)" | c ∷ s ↦ c ∷ s ]

unfoldable pub group_lines_by_component : Session → Groups Str ReconLine
unfolding group_by component_or_unknown str_eq
group_lines_by_component recon = group_by str_eq component_or_unknown recon.lines
