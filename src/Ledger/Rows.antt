-- ===== src/Ledger/Rows.antt =====
-- The tables of a ledger: `totals`, `by_destination`, `by_hour`, `by_proto` and `flows_for`.
mod Buckets
pub mod Laws
use zcc_analysis.Common.{
  total, ℕ, zero, suc, ◌+◌, ◌-◌, ◌≤◌, ◌<◌, ◌≡◌, ◌≢◌, refl, sym, ap, subst, ◌∙◌, ◌↔◌, ◌⊎◌, inl, inr,
  Bool, true, false, not, ◌&&◌, ◌||◌, Option, none, some, List, [], ◌∷◌, ◌++◌, map, append-nil,
  append_assoc, arith, length, take, drop, get_elem?, keep, All, All-append, length-append,
  if◌then◌else◌, ltb, leb, ◌==◌, Bool-cases, Str, str_eq, str_eq_iff, codes,
}
use Prim.Native.Nat.{min, max}
use mathlib.Core.Option
use zcc_analysis.Common.Groups.{Groups, push}
use zcc_analysis.Common.Sorting.{sort_by}
use zcc_analysis.Common.Counters.{Counter}
use zcc_analysis.Common.Order.{str_le}
use zcc_analysis.Packet.Text.{decimal}
use zcc_analysis.Ledger.Build.{Flow, Ledger}

abbrev pub flow_bytes : Flow → ℕ
flow_bytes f = f.client_bytes + f.server_bytes

-- `f"{self.dest}:{self.dest_port}" if self.dest_port else self.dest`
unfoldable pub with_port : Str → Option ℕ → Str
unfolding decimal
with_port dest none = dest
with_port dest (some zero) = dest
with_port dest (some (suc n)) = dest ++ b':' ∷ decimal (suc n)

unfoldable pub destination : Flow → Option Str
unfolding with_port
destination f = elim f.dest [
  | none ↦ none
  | some [] ↦ none
  | some (c ∷ dest) ↦ some (with_port (c ∷ dest) f.dest_port)
]

pub record AggRow : Type 0 where
  pub key : Str
  pub flows : ℕ
  pub client_bytes : ℕ
  pub server_bytes : ℕ
  pub first_ts : ℕ
  pub last_ts : ℕ
  pub flow_ids : List ℕ
  pub provenance : List (Str × ℕ)
  pub provenance_complete : Bool

abbrev pub row_bytes : AggRow → ℕ
row_bytes r = r.client_bytes + r.server_bytes

-- `min` and `max` of a list, none for an empty one.
unfoldable pub least : List ℕ → Option ℕ
least [] = none
least (n ∷ ns) = elim (least ns) [ none ↦ some n | some k ↦ some (min n k) ]

unfoldable pub greatest : List ℕ → Option ℕ
greatest [] = none
greatest (n ∷ ns) = elim (greatest ns) [ none ↦ some n | some k ↦ some (max n k) ]

unfoldable pub or_zero : Option ℕ → ℕ
or_zero none = 0
or_zero (some n) = n

-- `n or None`
unfoldable pub none_if_zero : ℕ → Option ℕ
none_if_zero zero = none
none_if_zero (suc n) = some (suc n)

pub record Totals : Type 0 where
  pub flows : ℕ
  pub tcp_flows : ℕ
  pub udp_flows : ℕ
  pub client_bytes : ℕ
  pub server_bytes : ℕ
  pub total_bytes : ℕ
  pub packets_tx : Option ℕ
  pub packets_rx : Option ℕ
  pub first_ts : Option ℕ
  pub last_ts : Option ℕ
  pub flows_without_destination : ℕ
  pub zero_byte_flows : ℕ
  pub carrier_counts : Counter
  pub source_files_duplicated : ℕ

-- How many flows pass a test.
abbrev pub count : (Flow → Bool) → List Flow → ℕ
count p flows = length (keep p flows)

unfoldable pub has_no_dest : Flow → Bool
has_no_dest f = elim f.dest [ none ↦ true | some d ↦ false ]

unfoldable pub totals : Ledger → Totals
unfolding str_eq least greatest or_zero none_if_zero has_no_dest
totals ledger =
    let clt = total (λ (f : Flow). f.client_bytes) ledger.flows in
    let srv = total (λ (f : Flow). f.server_bytes) ledger.flows in
    record {
      flows = length ledger.flows;
      tcp_flows = count (λ f. str_eq f.proto (codes "tcp")) ledger.flows;
      udp_flows = count (λ f. str_eq f.proto (codes "udp")) ledger.flows;
      client_bytes = clt;
      server_bytes = srv;
      total_bytes = clt + srv;
      packets_tx = none_if_zero (total (λ (f : Flow). or_zero f.packets_tx) ledger.flows);
      packets_rx = none_if_zero (total (λ (f : Flow). or_zero f.packets_rx) ledger.flows);
      first_ts = least (map (λ (f : Flow). f.first_ts) ledger.flows);
      last_ts = greatest (map (λ (f : Flow). f.last_ts) ledger.flows);
      flows_without_destination = count has_no_dest ledger.flows;
      zero_byte_flows = count (λ f. flow_bytes f == 0) ledger.flows;
      carrier_counts = ledger.carrier_counts;
      source_files_duplicated = ledger.source_files_duplicated;
    }

-- `[flows[i] for i in ids]`; none is the IndexError.
unfoldable pub pick : List Flow → List ℕ → Option (List Flow)
pick flows [] = some []
pick flows (i ∷ ids) = elim (get_elem? flows i) [
  | none ↦ none
  | some f ↦ Option.map (λ fs. f ∷ fs) (pick flows ids)
]

-- `flows_for`
abbrev pub flows_for : Ledger → AggRow → Option (List Flow)
flows_for ledger row = pick ledger.flows row.flow_ids

abbrev pub made_row : Str → List ℕ → ℕ → List Flow → ℕ → ℕ → AggRow
made_row key ids limit fl first last = record {
  key = key;
  flows = length fl;
  client_bytes = total (λ (f : Flow). f.client_bytes) fl;
  server_bytes = total (λ (f : Flow). f.server_bytes) fl;
  first_ts = first;
  last_ts = last;
  flow_ids = ids;
  provenance = map (λ (f : Flow). (f.source_file, f.line_no)) (take limit fl);
  provenance_complete = length (take limit fl) == length fl;
}

-- The row of some flows, of which there is one at least, as `min` and `max` raise on none.
unfoldable pub row_of : Str → List ℕ → ℕ → List Flow → Option AggRow
unfolding least greatest
row_of key ids limit fl = elim (least (map (λ (f : Flow). f.first_ts) fl)) [
  | none ↦ none
  | some first ↦
      Option.map (made_row key ids limit fl first) (greatest (map (λ (f : Flow). f.last_ts) fl))
]

-- `_row`
unfoldable pub row : List Flow → Str → List ℕ → ℕ → Option AggRow
unfolding pick row_of
row flows key ids limit = elim (pick flows ids) [ none ↦ none | some fl ↦ row_of key ids limit fl ]

-- `for i, f in enumerate(self.flows): buckets[key(f)].append(i)`, from `i` on.
unfoldable pub buckets_from : (Flow → Str) → ℕ → List Flow → Groups Str ℕ → Groups Str ℕ
unfolding push str_eq
buckets_from key i [] buckets = buckets
buckets_from key i (f ∷ flows) buckets =
    buckets_from key (suc i) flows (push str_eq (key f) i buckets)

unfoldable pub rows_of : List Flow → ℕ → Groups Str ℕ → Option (List AggRow)
unfolding row
rows_of flows limit [] = some []
rows_of flows limit (e ∷ buckets) = elim (row flows e.0 e.1 limit) [
  | none ↦ none
  | some r ↦ Option.map (λ rs. r ∷ rs) (rows_of flows limit buckets)
]

-- The keys of the sorts: `(-r.total_bytes, r.key)` and `r.key`.
unfoldable pub busier : AggRow → AggRow → Bool
unfolding str_le
busier a b = ltb (row_bytes b) (row_bytes a) || row_bytes a == row_bytes b && str_le a.key b.key

unfoldable pub key_le : AggRow → AggRow → Bool
unfolding str_le
key_le a b = str_le a.key b.key

-- Grouped by a key and sorted.
unfoldable pub group_rows :
    (AggRow → AggRow → Bool) → (Flow → Str) → ℕ → Ledger → Option (List AggRow)
unfolding rows_of buckets_from sort_by
group_rows le key limit ledger =
    Option.map (sort_by le) (rows_of ledger.flows limit (buckets_from key 0 ledger.flows []))

unfoldable pub destination_key : Flow → Str
unfolding destination
destination_key f = elim (destination f) [
  | none ↦ codes "(no destination on record)"
  | some [] ↦ codes "(no destination on record)"
  | some (c ∷ d) ↦ c ∷ d
]

-- `rows[:top] if top else rows`
unfoldable pub top_rows : Option ℕ → List AggRow → List AggRow
top_rows none rows = rows
top_rows (some zero) rows = rows
top_rows (some (suc n)) rows = take (suc n) rows

unfoldable pub by_destination : Option ℕ → ℕ → Ledger → Option (List AggRow)
unfolding group_rows busier destination_key top_rows
by_destination top limit ledger =
    Option.map (top_rows top) (group_rows busier destination_key limit ledger)

-- `hour` is `strftime("%Y-%m-%d %H:00 UTC")`.
unfoldable pub by_hour : (ℕ → Str) → ℕ → Ledger → Option (List AggRow)
unfolding group_rows key_le
by_hour hour limit ledger = group_rows key_le (λ f. hour f.last_ts) limit ledger

unfoldable pub by_proto : ℕ → Ledger → Option (List AggRow)
unfolding group_rows busier
by_proto limit ledger = group_rows busier (λ (f : Flow). f.proto) limit ledger
