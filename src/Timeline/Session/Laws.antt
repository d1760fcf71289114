-- ===== src/Timeline/Session/Laws.antt =====
-- A reconstruction has the lines that match, in order, and its counts are those of its lines.

use zcc_analysis.Common.{
  length-map, ℕ, ◌≤◌, ◌≡◌, refl, inl, inr, Bool, true, false, not, Option, none, some, List, [],
  ◌∷◌, map, arith, length, keep, All, Bool-cases, Str, str_eq, str_eq_iff, mem_str,
}
use zcc_analysis.Common.Groups.{Groups, lookup}
use zcc_analysis.Common.Counters.{get, sum, sum-tally, get-tally}
use zcc_analysis.Common.Sorting.{
  IsSortedBy, sort_by, sort_by-All, sort_by-IsSortedBy, length-keep-sort_by, length-sort_by,
}
use zcc_analysis.Common.Order.{str_le}
use zcc_analysis.Viewer.Index.{Line}
use zcc_analysis.Viewer.Build.{line_le}
use zcc_analysis.Viewer.Build.Order.{line_le_total, line_le_trans}
use zcc_analysis.Timeline.Session.{
  Python, ReconLine, Session, first_ts_of, last_ts_of, summarize, matcher, phase_of, recon_line,
  matched, session_of, kind_of, reconstruct_session,
}

-- An instant lies between two.
abbrev pub Spans : Option ℕ → Option ℕ → ℕ → Type 0
Spans none b t = ⊥
Spans (some a) none t = ⊥
Spans (some a) (some b) t = (a ≤ t) × (t ≤ b)

-- Each line is no later than those after it.
abbrev AreAscending : List ReconLine → Type 0
AreAscending [] = Unit
AreAscending (l ∷ lines) = All (λ k. l.ts ≤ k.ts) lines × AreAscending lines

-- The last time of a list that ascends.
last_ts_of-Spans :
    (a : ℕ) (l : ReconLine) (lines : List ReconLine)
    → AreAscending (l ∷ lines)
    → a ≤ l.ts
    → All (λ k. Spans (some a) (last_ts_of (l ∷ lines)) k.ts) (l ∷ lines)
unfolding last_ts_of
last_ts_of-Spans a l [] h le = ((le, omega arith), tt)
last_ts_of-Spans a l (k ∷ lines) h le =
    let rest = last_ts_of-Spans a k lines h.1 (omega (arith, le, h.0.0)) in
    (widen (last_ts_of (k ∷ lines)) rest.0, rest)
  where
    widen : (o : Option ℕ) → Spans (some a) o k.ts → Spans (some a) o l.ts
    widen none s = s
    widen (some b) s = omega (arith, s, le, h.0.0)

span_of-Spans :
    (lines : List ReconLine)
    → AreAscending lines
    → All (λ l. Spans (first_ts_of lines) (last_ts_of lines) l.ts) lines
unfolding first_ts_of
span_of-Spans [] h = tt
span_of-Spans (l ∷ lines) h = last_ts_of-Spans l.ts l lines h (omega arith)

ts_of_line_le : (a b : Line) → line_le a b ≡ true → a.ts ≤ b.ts
unfolding line_le
ts_of_line_le a b h = ground (arith, h)

module _ (py : Python) where
  sorted-AreAscending :
      (lines : List Line) → IsSortedBy line_le lines → AreAscending (map (recon_line py) lines)
  sorted-AreAscending [] h = tt
  sorted-AreAscending (ln ∷ lines) h = (later ln lines h.0, sorted-AreAscending lines h.1)
    where
      later :
          (ln : Line) (lines : List Line)
          → All (λ k. line_le ln k ≡ true) lines
          → All (λ k. ln.ts ≤ k.ts) (map (recon_line py) lines)
      later ln [] h = tt
      later ln (k ∷ lines) h = (ts_of_line_le ln k h.0, later ln lines h.1)

-- A text is not in a set that it was taken out of.
mem_str-All : (q : Str) (vs : List Str) → All (λ v. str_eq q v ≡ false) vs → mem_str q vs ≡ false
unfolding mem_str
mem_str-All q [] h = refl
mem_str-All q (v ∷ vs) h = rw (h.0, mem_str-All q vs h.1) refl

others-All :
    (q : Str) (vs : List Str) → All (λ v. str_eq q v ≡ false) (keep (λ v. not (str_eq v q)) vs)
others-All q [] = tt
others-All q (v ∷ vs) = elim (Bool-cases (str_eq v q)) [
  | inl e ↦ rw e (others-All q vs)
  | inr e ↦ rw e (ground (arith, str_eq_iff v q, str_eq_iff q v, e), others-All q vs)
]

summarize-excludes :
    (kind q : Str) (agg : Groups Str Str)
    → mem_str q (lookup str_eq (summarize kind q agg) kind) ≡ false
unfolding lookup summarize mem_str
summarize-excludes kind q [] = refl
summarize-excludes kind q ((k, vs) ∷ agg) = elim (Bool-cases (str_eq k kind)) [
  | inl e ↦ rw e (
      mem_str-All q (sort_by str_le (keep (λ v. not (str_eq v q)) vs)) (
        sort_by-All str_le (λ v. str_eq q v ≡ false) (keep (λ v. not (str_eq v q)) vs)
          (others-All q vs)))
  | inr e ↦ rw e (summarize-excludes kind q agg)
]

-- A reconstruction has the lines that match, each as often as the index, in the order of time, file and line number;
-- its first and last times span them; the counts of files, of components and of phases each add up to the
-- number of lines, and each phase is counted as often as it stands; and the query is not among
-- the identifiers related to it under its own type.
pub reconstruct_session-IsRecon :
    (py : Python) (lines : List Line) (query_id : Str) (id_type : Option Str) (phase : Str)
    (p : Line → Bool)
    → let kind : Str = kind_of py query_id id_type in
      let found : List Line = matched py lines query_id kind in
      let matching : List Line = keep (matcher py query_id kind) lines in
      let s : Session = reconstruct_session py lines query_id id_type in
      (s.lines ≡ map (recon_line py) found)
      × IsSortedBy line_le found
      × (length (keep p found) ≡ length (keep p matching))
      × (s.line_count ≡ length matching)
      × All (λ l. Spans s.first_ts s.last_ts l.ts) s.lines
      × (sum s.files_touched ≡ s.line_count)
      × (sum s.components_touched ≡ s.line_count)
      × (sum s.phase_histogram ≡ s.line_count)
      × (get s.phase_histogram phase ≡ length (keep (λ ln. str_eq (phase_of py ln) phase) matching))
      × (mem_str query_id (lookup str_eq s.related_id_summary kind) ≡ false)
unfolding reconstruct_session session_of matched get
reconstruct_session-IsRecon py lines query_id id_type phase p =
    let kind = kind_of py query_id id_type in
    let matching = keep (matcher py query_id kind) lines in
    let found = sort_by line_le matching in
    let order = sort_by-IsSortedBy line_le line_le_total line_le_trans matching in
    let count = length-map (recon_line py) found in
    let same = length-keep-sort_by line_le (λ ln. str_eq (phase_of py ln) phase) matching in
    (
      refl,
      order,
      length-keep-sort_by line_le p matching,
      omega (arith, count, length-sort_by line_le matching),
      span_of-Spans (map (recon_line py) found) (sorted-AreAscending py found order),
      omega (arith, sum-tally (λ (ln : Line). ln.source_file) found [], count),
      omega (arith, sum-tally (λ (ln : Line). ln.component) found [], count),
      omega (arith, sum-tally (phase_of py) found [], count),
      omega (arith, get-tally (phase_of py) found [] phase, same),
      summarize-excludes kind query_id _,
    )
