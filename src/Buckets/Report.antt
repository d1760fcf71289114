-- ===== src/Buckets/Report.antt =====
-- `build_buckets` and the views of its report.
mod Known
pub mod Laws
use zcc_analysis.Common.{
  ℕ, zero, suc, ◌+◌, ◌-◌, ◌≤◌, ◌<◌, ◌≡◌, ◌≢◌, refl, sym, ap, subst, ◌∙◌, ◌↔◌, ◌⊎◌, inl, inr, Bool,
  true, false, not, ◌&&◌, ◌||◌, Option, none, some, List, [], ◌∷◌, ◌++◌, map, append-nil,
  append_assoc, arith, length, take, drop, get_elem?, keep, All, All-append, length-append,
  if◌then◌else◌, ltb, leb, ◌==◌, Bool-cases, Str, str_eq, str_eq_iff, codes, String,
}
use zcc_analysis.Common.Counters.{Counter, add}
use zcc_analysis.Common.Sorting.{sort_by}
use zcc_analysis.Viewer.Index.{Line}
use zcc_analysis.Buckets.Lines.{
  Via, by_rule, by_component, unresolved, Class, classify_line, line_shape,
}

-- `BucketedLine`
pub record Bucketed : Type 0 where
  pub ts : ℕ
  pub level : Str
  pub component : Str
  pub source_file : Str
  pub line_no : ℕ
  pub body : Str
  pub service : Str
  pub subsystem : Str
  pub service_via : Via
  pub subsystem_via : Via

-- A counter of pairs.
abbrev pub Pairs : Type 0
Pairs = List ((Str × Str) × ℕ)

unfoldable pub add_pair : Pairs → Str → Str → Pairs
unfolding str_eq
add_pair [] s t = ((s, t), 1) ∷ []
add_pair (p ∷ pairs) s t =
    let rest = add_pair pairs s t in
    if str_eq p.0.0 s && str_eq p.0.1 t then (p.0, p.1 + 1) ∷ pairs else p ∷ rest

-- `BucketReport`, with the counter of shapes that its list of shapes is made of.
pub record Report : Type 0 where
  pub total_lines : ℕ
  pub by_service : Counter
  pub by_subsystem : Counter
  pub by_pair : Pairs
  pub service_via_counts : Counter
  pub subsystem_via_counts : Counter
  pub unclassified_service : ℕ
  pub unclassified_subsystem : ℕ
  pub unclassified_both : ℕ
  pub shapes : Counter
  pub top_unclassified_shapes : Counter
  pub lines : List Bucketed

abbrev pub empty_report : Report
empty_report = record {
  total_lines = 0;
  by_service = [];
  by_subsystem = [];
  by_pair = [];
  service_via_counts = [];
  subsystem_via_counts = [];
  unclassified_service = 0;
  unclassified_subsystem = 0;
  unclassified_both = 0;
  shapes = [];
  top_unclassified_shapes = [];
  lines = [];
}

unfoldable pub via_name : Via → Str
via_name by_rule = codes "matched"
via_name by_component = codes "component"
via_name unresolved = codes "unresolved"

abbrev pub is_unknown : Str → Bool
is_unknown s = str_eq s (codes "unknown")

-- A count that goes up on a test.
abbrev pub count_if : Bool → ℕ → ℕ
count_if b n = if b then suc n else n

-- `Counter.most_common`: by count, equal counts as they came.
abbrev pub at_least : Str × ℕ → Str × ℕ → Bool
at_least a b = leb b.1 a.1

unfoldable pub most_common : ℕ → Counter → Counter
unfolding sort_by
most_common n counts = take n (sort_by at_least counts)

unfoldable pub bucketed : Line → Class → Bucketed
bucketed ln c = record {
  ts = ln.ts;
  level = ln.level;
  component = ln.component;
  source_file = ln.source_file;
  line_no = ln.line_no;
  body = ln.body;
  service = c.service;
  subsystem = c.subsystem;
  service_via = c.service_via;
  subsystem_via = c.subsystem_via;
}

-- A line with its class and its shape.
unfoldable pub count_line : Bool → Line → Class → Str → Report → Report
unfolding add add_pair via_name bucketed str_eq
count_line keep_lines ln c shape r = record r {
  total_lines = suc r.total_lines;
  by_service = add r.by_service c.service 1;
  by_subsystem = add r.by_subsystem c.subsystem 1;
  by_pair = add_pair r.by_pair c.service c.subsystem;
  service_via_counts = add r.service_via_counts (via_name c.service_via) 1;
  subsystem_via_counts = add r.subsystem_via_counts (via_name c.subsystem_via) 1;
  unclassified_service = count_if (is_unknown c.service) r.unclassified_service;
  unclassified_subsystem = count_if (is_unknown c.subsystem) r.unclassified_subsystem;
  unclassified_both = count_if (is_unknown c.service && is_unknown c.subsystem) r.unclassified_both;
  shapes = if is_unknown c.subsystem then add r.shapes shape 1 else r.shapes;
  lines = if keep_lines then r.lines ++ bucketed ln c ∷ [] else r.lines;
}

module _ (search : Str → Str → Bool) (sub : Str → Str → Str → Str) (strip : Str → Str) where
  -- The loop over the lines.
  unfoldable pub count_lines : Bool → List Line → Report → Report
  unfolding count_line classify_line line_shape
  count_lines keep_lines [] r = r
  count_lines keep_lines (ln ∷ lines) r = count_lines keep_lines lines (
      count_line keep_lines ln (classify_line search ln.body ln.component)
        (line_shape sub strip ln.body) r)

  unfoldable pub build_buckets : List Line → Bool → ℕ → Report
  unfolding count_lines most_common
  build_buckets lines keep_lines top_shapes =
      let r = count_lines keep_lines lines empty_report in
      record r { top_unclassified_shapes = most_common top_shapes r.shapes }

unfoldable pub is_axis : Option Str → Str → Bool
unfolding str_eq
is_axis none s = true
is_axis (some t) s = str_eq s t

unfoldable pub lines_for : Report → Option Str → Option Str → List Bucketed
unfolding is_axis
lines_for r service subsystem =
    keep (λ l. is_axis service l.service && is_axis subsystem l.subsystem) r.lines

-- `pairs_sorted`
abbrev pub pair_at_least : (Str × Str) × ℕ → (Str × Str) × ℕ → Bool
pair_at_least a b = leb b.1 a.1

unfoldable pub pairs_sorted : Report → Pairs
unfolding sort_by
pairs_sorted r = sort_by pair_at_least r.by_pair
