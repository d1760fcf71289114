-- ===== src/Buckets/Report/Laws.antt =====
-- A report accounts for every line: in each table once, and among the unclassified where no rule settled it.

use zcc_analysis.Common.{
  keep-append, ℕ, suc, ◌+◌, ◌≤◌, ◌≡◌, refl, sym, Bool, true, false, ◌&&◌, none, some, List, [], ◌∷◌,
  ◌++◌, arith, length, keep, length-append, if◌then◌else◌, Str, str_eq, codes, length-append,
}
use zcc_analysis.Common.Counters.{Counter, add, get, sum, sum-add, get-add}
use zcc_analysis.Viewer.Index.{Line}
use zcc_analysis.Buckets.Lines.{Class, classify_line, line_shape}
use zcc_analysis.Buckets.Report.{
  Bucketed, Report, via_name, is_unknown, count_if, bucketed, count_line, count_lines,
  build_buckets, is_axis, lines_for, empty_report,
}
use zcc_analysis.Buckets.Report.Known.{
  IsClass, classify_line-IsClass, pair_count, pair_count-add_pair,
}

-- A report's tables agree. `k` tells whether its lines are kept.
module _ (k : Bool) (service : Str) where
  abbrev on : ℕ → ℕ
  on n = if k then n else 0

  abbrev pub IsCounted : Report → Type 0
  IsCounted r =
      (sum r.by_service ≡ r.total_lines)
      × (sum r.by_subsystem ≡ r.total_lines)
      × (pair_count r.by_pair ≡ r.total_lines)
      × (sum r.service_via_counts ≡ r.total_lines)
      × (sum r.subsystem_via_counts ≡ r.total_lines)
      × (get r.by_service (codes "unknown") ≡ r.unclassified_service)
      × (get r.by_subsystem (codes "unknown") ≡ r.unclassified_subsystem)
      × (get r.service_via_counts (codes "unresolved") ≡ r.unclassified_service)
      × (get r.subsystem_via_counts (codes "unresolved") ≡ r.unclassified_subsystem)
      × (sum r.shapes ≡ r.unclassified_subsystem)
      × (r.unclassified_service + r.unclassified_subsystem ≤ r.total_lines + r.unclassified_both)
      × (length r.lines ≡ (if k then r.total_lines else 0))
      × (length (lines_for r (some service) none) ≡ (if k then get r.by_service service else 0))

  count_line-IsCounted :
      (ln : Line) (c : Class) (shape : Str) (r : Report)
      → IsClass c
      → IsCounted r
      → IsCounted (count_line k ln c shape r)
  unfolding count_line lines_for is_axis bucketed
  count_line-IsCounted ln c shape r h g = (
    omega (arith, g.0, sum-add r.by_service c.service 1),
    omega (arith, g.1, sum-add r.by_subsystem c.subsystem 1),
    omega (arith, g.2, pair_count-add_pair r.by_pair c.service c.subsystem),
    omega (arith, g.3, sum-add r.service_via_counts (via_name c.service_via) 1),
    omega (arith, g.4, sum-add r.subsystem_via_counts (via_name c.subsystem_via) 1),
    one_more r.by_service c.service (codes "unknown") r.unclassified_service (is_unknown c.service)
        refl g.5,
    one_more r.by_subsystem c.subsystem (codes "unknown") r.unclassified_subsystem
        (is_unknown c.subsystem) refl g.6,
    one_more r.service_via_counts (via_name c.service_via) (codes "unresolved")
        r.unclassified_service (is_unknown c.service) (sym h.0) g.7,
    one_more r.subsystem_via_counts (via_name c.subsystem_via) (codes "unresolved")
        r.unclassified_subsystem (is_unknown c.subsystem) (sym h.1) g.8,
    shaped (is_unknown c.subsystem) r.shapes shape r.unclassified_subsystem g.9,
    both (is_unknown c.service) (is_unknown c.subsystem) r.unclassified_service
        r.unclassified_subsystem r.total_lines r.unclassified_both g.10,
    kept k r.lines (bucketed ln c) r.total_lines g.11,
    found k r.lines (bucketed ln c) r.by_service g.12,
  )
    where
      one_more :
          (counts : Counter) (key other : Str) (n : ℕ) (b : Bool)
          → str_eq key other ≡ b
          → get counts other ≡ n
          → get (add counts key 1) other ≡ count_if b n
      one_more counts key other n true e d = ground (arith, get-add counts key other 1, e, d)
      one_more counts key other n false e d = ground (arith, get-add counts key other 1, e, d)

      shaped :
          (b : Bool) (counts : Counter) (key : Str) (n : ℕ)
          → sum counts ≡ n
          → sum (if b then add counts key 1 else counts) ≡ count_if b n
      shaped true counts key n e = omega (arith, e, sum-add counts key 1)
      shaped false counts key n e = e

      both :
          (a b : Bool) (m n total both : ℕ)
          → m + n ≤ total + both
          → count_if a m + count_if b n ≤ suc total + count_if (a && b) both
      both true true m n t u h = omega (arith, h)
      both true false m n t u h = omega (arith, h)
      both false true m n t u h = omega (arith, h)
      both false false m n t u h = omega (arith, h)

      kept :
          (b : Bool) (ls : List Bucketed) (l : Bucketed) (n : ℕ)
          → length ls ≡ (if b then n else 0)
          → length (if b then ls ++ l ∷ [] else ls) ≡ (if b then suc n else 0)
      kept true ls l n e = omega (arith, e, length-append ls (l ∷ []))
      kept false ls l n e = e

      found :
          (b : Bool) (ls : List Bucketed) (l : Bucketed) (counts : Counter)
          → length (keep (λ (x : Bucketed). str_eq x.service service && true) ls)
            ≡ (if b then get counts service else 0)
          → length (
              keep
                (λ (x : Bucketed). str_eq x.service service && true)
                (if b then ls ++ l ∷ [] else ls))
            ≡ (if b then get (add counts l.service 1) service else 0)
      found false ls l counts e = e
      found true ls l counts e = ground (
        arith,
        get-add counts l.service service 1,
        e,
        keep-append (λ (x : Bucketed). str_eq x.service service && true) ls (l ∷ []),
        length-append (keep (λ (x : Bucketed). str_eq x.service service && true) ls)
            (keep (λ (x : Bucketed). str_eq x.service service && true) (l ∷ [])),
      )

module _ (find : Str → Str → Bool) (sub : Str → Str → Str → Str) (strip : Str → Str) (k : Bool)
    (service : Str) where
  count_lines-IsCounted :
      (lines : List Line) (r : Report)
      → IsCounted k service r
      → IsCounted k service (count_lines find sub strip k lines r)
        × ((count_lines find sub strip k lines r).total_lines ≡ r.total_lines + length lines)
  unfolding count_lines count_line
  count_lines-IsCounted [] r h = (h, omega arith)
  count_lines-IsCounted (ln ∷ lines) r h =
      let c = classify_line find ln.body ln.component in
      let shape = line_shape sub strip ln.body in
      let rest = count_lines-IsCounted lines (count_line k ln c shape r) (
        count_line-IsCounted k service ln c shape r
          (classify_line-IsClass find ln.body ln.component) h) in
      (rest.0, omega (arith, rest.1))

-- A report counts every line once in each of its tables; the unclassified lines of an axis are those that are counted
-- as unknown, and those that nothing resolved; their shapes add up to the lines without a subsystem; and when
-- lines are kept they are all kept, and those of a service are as many as its table says.
pub build_buckets-IsCounted :
    (find : Str → Str → Bool) (sub : Str → Str → Str → Str) (strip : Str → Str) (lines : List Line)
    (k : Bool) (top : ℕ) (service : Str)
    → ((build_buckets find sub strip lines k top).total_lines ≡ length lines)
      × IsCounted k service (build_buckets find sub strip lines k top)
unfolding build_buckets get str_eq lines_for
build_buckets-IsCounted find sub strip lines k top service =
    let start : IsCounted k service empty_report = (
      refl,
      refl,
      refl,
      refl,
      refl,
      refl,
      refl,
      refl,
      refl,
      refl,
      omega arith,
      none_kept k,
      none_kept k,
    ) in
    let done = count_lines-IsCounted find sub strip k service lines empty_report start in
    (omega (arith, done.1), done.0)
  where
    none_kept : (b : Bool) → let nothing : ℕ = 0 in nothing ≡ (if b then nothing else nothing)
    none_kept true = refl
    none_kept false = refl
