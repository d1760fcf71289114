-- ===== src/Ledger/Rows/Laws.antt =====
-- The tables split the flows: each flow is in the one row of its key.

use zcc_analysis.Common.{
  total, total-map, total-add, ℕ, ◌≤◌, ◌≡◌, refl, sym, ap, subst, ◌∙◌, Bool, none, some, List, [],
  ◌∷◌, map, arith, length, keep, All, Str, str_eq, str_eq_iff,
}
use Prim.Native.Nat.{min, max}
use zcc_analysis.Common.Groups.{Groups, lookup}
use zcc_analysis.Common.Groups.Laws.{lookup-IsKeyed, total_in}
use zcc_analysis.Common.Sorting.{sort_by, sort_by-All, total-sort_by}
use zcc_analysis.Ledger.Build.{Flow, Ledger}
use zcc_analysis.Ledger.Rows.{
  AggRow, row_bytes, flow_bytes, least, greatest, pick, row_of, made_row, row, buckets_from,
  rows_of, group_rows,
}
use zcc_analysis.Ledger.Rows.Buckets.{
  at, pick-positions, lookup-buckets_from, buckets_from-keeps, total_in-buckets_from, total-pick,
  length-pick,
}

least-some : (n : ℕ) (ns : List ℕ) → (k : ℕ) × (least (n ∷ ns) ≡ some k)
unfolding least
least-some n ns =
    elim (least ns)
      as (λ o. (k : ℕ) × ((elim o [ none ↦ some n | some k ↦ some (min n k) ]) ≡ some k)) [
        | none ↦ (n, refl)
        | some k ↦ (min n k, refl)
      ]

greatest-some : (n : ℕ) (ns : List ℕ) → (k : ℕ) × (greatest (n ∷ ns) ≡ some k)
unfolding greatest
greatest-some n ns =
    elim (greatest ns)
      as (λ o. (k : ℕ) × ((elim o [ none ↦ some n | some k ↦ some (max n k) ]) ≡ some k)) [
        | none ↦ (n, refl)
        | some k ↦ (max n k, refl)
      ]

-- The row of some flows: their number, their sums, their first and last times.
abbrev pub IsRowOf : List Flow → AggRow → Type 0
IsRowOf fl r =
    (r.flows ≡ length fl)
    × (r.client_bytes ≡ total (λ (f : Flow). f.client_bytes) fl)
    × (r.server_bytes ≡ total (λ (f : Flow). f.server_bytes) fl)
    × (least (map (λ (f : Flow). f.first_ts) fl) ≡ some r.first_ts)
    × (greatest (map (λ (f : Flow). f.last_ts) fl) ≡ some r.last_ts)

row_of-IsRowOf :
    (key : Str) (ids : List ℕ) (limit : ℕ) (fl : List Flow)
    → 1 ≤ length fl
    → (r : AggRow) × (row_of key ids limit fl ≡ some r)
      × IsRowOf fl r
      × (r.key ≡ key)
      × (r.flow_ids ≡ ids)
unfolding row_of
row_of-IsRowOf key ids limit [] h = ground (arith, h)
row_of-IsRowOf key ids limit (f ∷ fl) h =
    let first = least-some f.first_ts (map (λ (g : Flow). g.first_ts) fl) in
    let last = greatest-some f.last_ts (map (λ (g : Flow). g.last_ts) fl) in
    (
      made_row key ids limit (f ∷ fl) first.0 last.0,
      rw (row_of, first.1, last.1) refl,
      (refl, refl, refl, first.1, last.1),
      refl,
      refl,
    )

-- A row of a table by `key`: the indexes are those of the flows with its key, and it sums them.
abbrev pub IsShare : (Flow → Str) → List Flow → AggRow → Type 0
IsShare key flows r =
    let share = keep (λ f. str_eq (key f) r.key) flows in
    (pick flows r.flow_ids ≡ some share) × IsRowOf share r

-- What a bucket holds.
abbrev IsBucket : (Flow → Str) → List Flow → Str × List ℕ → Type 0
IsBucket key flows e =
    (pick flows e.1 ≡ some (keep (λ f. str_eq (key f) e.0) flows)) × (1 ≤ length e.1)

row-IsShare :
    (key : Flow → Str) (flows : List Flow) (limit : ℕ) (e : Str × List ℕ)
    → IsBucket key flows e
    → (r : AggRow) × (row flows e.0 e.1 limit ≡ some r) × IsShare key flows r × (r.flow_ids ≡ e.1)
unfolding row
row-IsShare key flows limit e h =
    let share = keep (λ f. str_eq (key f) e.0) flows in
    let made =
      row_of-IsRowOf e.0 e.1 limit share (omega (arith, h.1, length-pick flows e.1 share h.0)) in
    (made.0, rw (row, h.0) made.1, (rw (made.3, made.4) h.0, rw made.3 made.2), made.4)

rows_of-AreShares :
    (key : Flow → Str) (flows : List Flow) (limit : ℕ) (buckets : Groups Str ℕ)
    → All (IsBucket key flows) buckets
    → (rows : List AggRow) × (rows_of flows limit buckets ≡ some rows)
      × All (IsShare key flows) rows
      × (map (λ (r : AggRow). r.flow_ids) rows ≡ map (λ (e : Str × List ℕ). e.1) buckets)
unfolding rows_of
rows_of-AreShares key flows limit [] h = ([], refl, tt, refl)
rows_of-AreShares key flows limit (e ∷ buckets) h =
    let here = row-IsShare key flows limit e h.0 in
    let rest = rows_of-AreShares key flows limit buckets h.1 in
    (here.0 ∷ rest.0, rw (rows_of, here.1, rest.1) refl, (here.2, rest.2), rw (here.3, rest.3) refl)

-- The flows of the rows, counted or measured, are those of the ledger.
total-rows :
    (v : Flow → ℕ) (m : AggRow → ℕ) (flows : List Flow) (key : Flow → Str) (rows : List AggRow)
    → ((r : AggRow) (fl : List Flow) → IsRowOf fl r → m r ≡ total v fl)
    → All (IsShare key flows) rows
    → total m rows ≡ total (λ r. total (at v flows) r.flow_ids) rows
total-rows v m flows key [] f h = refl
total-rows v m flows key (r ∷ rows) f h = omega (
  arith,
  f r (keep (λ g. str_eq (key g) r.key) flows) h.0.1,
  total-pick v flows r.flow_ids (keep (λ g. str_eq (key g) r.key) flows) h.0.0,
  total-rows v m flows key rows f h.1,
)

total-ids :
    (w : ℕ → ℕ) (rows : List AggRow) (buckets : Groups Str ℕ)
    → map (λ (r : AggRow). r.flow_ids) rows ≡ map (λ (e : Str × List ℕ). e.1) buckets
    → total (λ (r : AggRow). total w r.flow_ids) rows ≡ total_in str_eq w buckets
total-ids w rows buckets h =
    total-map (λ (r : AggRow). r.flow_ids) (total w) rows
    ∙ ap (total (total w)) h
    ∙ sym (total-map (λ (e : Str × List ℕ). e.1) (total w) buckets)

bytes_of_row : (r : AggRow) (fl : List Flow) → IsRowOf fl r → row_bytes r ≡ total flow_bytes fl
bytes_of_row r fl h =
    omega
      (arith, h.1, h.2, total-add (λ (f : Flow). f.client_bytes) (λ (f : Flow). f.server_bytes) fl)

length-total : {A : Type 0} (xs : List A) → total (λ (x : A). 1) xs ≡ length xs
length-total [] = refl
length-total (x ∷ xs) = omega (arith, length-total xs)

buckets-AreBuckets :
    (key : Flow → Str) (flows : List Flow) → All (IsBucket key flows) (buckets_from key 0 flows [])
unfolding lookup
buckets-AreBuckets key flows =
    let kept = buckets_from-keeps key 0 flows [] tt tt in
    both (buckets_from key 0 flows [])
      (lookup-IsKeyed str_eq str_eq_iff (buckets_from key 0 flows []) kept.0) kept.1
  where
    both :
        (es : Groups Str ℕ)
        → All (λ e. lookup str_eq (buckets_from key 0 flows []) e.0 ≡ e.1) es
        → All (λ e. 1 ≤ length e.1) es
        → All (IsBucket key flows) es
    both [] f g = tt
    both (e ∷ es) f g = (
      (
        subst (λ ids. pick flows ids ≡ some (keep (λ x. str_eq (key x) e.0) flows))
            (sym (lookup-buckets_from key 0 flows [] e.0) ∙ f.0)
            (pick-positions flows (λ x. str_eq (key x) e.0) 0 flows refl),
        g.0,
      ),
      both es f.1 g.1,
    )

-- A table by any key is returned, whatever the ledger: the indexes of each row are those of the flows with its
-- key, in order, and it has their number, sums of bytes, first and last times. The rows together have as
-- many flows and bytes as the ledger.
pub group_rows-AreShares :
    (le : AggRow → AggRow → Bool) (key : Flow → Str) (limit : ℕ) (ledger : Ledger)
    → (rows : List AggRow) × (group_rows le key limit ledger ≡ some rows)
      × All (IsShare key ledger.flows) rows
      × (total (λ (r : AggRow). r.flows) rows ≡ length ledger.flows)
      × (total row_bytes rows ≡ total flow_bytes ledger.flows)
unfolding group_rows
group_rows-AreShares le key limit ledger =
    let flows = ledger.flows in
    let buckets = buckets_from key 0 flows [] in
    let made = rows_of-AreShares key flows limit buckets (buckets-AreBuckets key flows) in
    let sum : (v : Flow → ℕ) (m : AggRow → ℕ)
        → ((r : AggRow) (fl : List Flow) → IsRowOf fl r → m r ≡ total v fl)
        → total m (sort_by le made.0) ≡ total v flows =
      λ v m f. omega (
        arith,
        total-sort_by le m made.0,
        total-rows v m flows key made.0 f made.2,
        total-ids (at v flows) made.0 buckets made.3,
        total_in-buckets_from v flows key 0 flows [] refl,
      ) in
    (
      sort_by le made.0,
      rw (group_rows, made.1) refl,
      sort_by-All le (IsShare key flows) made.0 made.2,
      sum (λ f. 1) (λ r. r.flows) (λ r fl h. h.0 ∙ sym (length-total fl)) ∙ length-total flows,
      sum flow_bytes row_bytes bytes_of_row,
    )
