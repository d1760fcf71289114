-- ===== src/Ledger/Build.antt =====
-- `build_ledger`: the flows of a store, one for each record that ends a connection.
pub mod Distinct
pub mod Laws
use zcc_analysis.Common.{
  ℕ, zero, suc, ◌+◌, ◌-◌, ◌≤◌, ◌<◌, ◌≡◌, ◌≢◌, refl, sym, ap, subst, ◌∙◌, ◌↔◌, ◌⊎◌, inl, inr, Bool,
  true, false, not, ◌&&◌, ◌||◌, Option, none, some, List, [], ◌∷◌, ◌++◌, map, append-nil,
  append_assoc, arith, length, take, drop, get_elem?, keep, All, All-append, length-append,
  if◌then◌else◌, ltb, leb, ◌==◌, Bool-cases, Str, str_eq, str_eq_iff, codes, any, mem_str,
}
use zcc_analysis.Common.Outcome.{Outcome, ok, raised, ◌>>=◌}
use zcc_analysis.Common.Groups.{Groups, push, lookup, group_by}
use zcc_analysis.Common.Sorting.{sort_by}
use zcc_analysis.Common.Counters.{Counter, add}
use zcc_analysis.Common.Order.{str_le}
use zcc_analysis.Viewer.Index.{Line}
use zcc_analysis.Ledger.Closes.{
  Carrier, tcp_conn_close, udp_conn_close, flow_destructor, Error, Parsed, Close, DestHost, Python,
  parse_close, dedupe_carriers,
}
use zcc_analysis.Ledger.Store.{
  Address, Store, Mention, address_eq, candidate_lines, record_text, lifetime_index,
}

pub record Flow : Type 0 where
  pub conn_id : Str
  pub proto : Str
  pub first_ts : ℕ
  pub last_ts : ℕ
  pub client_bytes : ℕ
  pub server_bytes : ℕ
  pub packets_tx : Option ℕ
  pub packets_rx : Option ℕ
  pub dest : Option Str
  pub dest_port : Option ℕ
  pub dest_source_file : Option Str
  pub dest_line_no : Option ℕ
  pub source_file : Str
  pub line_no : ℕ
  pub carrier : Carrier
  pub lifetime_lines : ℕ

pub record Ledger : Type 0 where
  pub flows : List Flow
  pub carrier_counts : Counter
  pub duplicate_carrier_conn_ids : ℕ
  pub unmatched_candidates : ℕ
  pub lines_after_last_close : ℕ
  pub lifetime_available : Bool
  pub conn_ids_reused : ℕ
  pub source_files_duplicated : ℕ

unfoldable pub carrier_name : Carrier → Str
carrier_name tcp_conn_close = codes "tcp_conn_close"
carrier_name udp_conn_close = codes "udp_conn_close"
carrier_name flow_destructor = codes "flow_destructor"

-- What the loop over the candidates leaves: `raw`, the counts and `unmatched_candidates`.
pub record Records : Type 0 where
  pub raw : List Close
  pub counts : Counter
  pub unmatched : ℕ

unfoldable pub add_record : Line → Option Parsed → Records → Records
unfolding add carrier_name
add_record ln none rs = record rs { unmatched = suc rs.unmatched }
add_record ln (some p) rs = record rs {
  raw =
      rs.raw
      ++ record { parsed = p; ts = ln.ts; source_file = ln.source_file; line_no = ln.line_no } ∷ [];
  counts = add rs.counts (carrier_name p.carrier) 1;
}

unfoldable pub read_records : Python → Store → List Line → Records → Outcome Error Records
unfolding record_text parse_close add_record
read_records py store [] rs = ok rs
read_records py store (ln ∷ lines) rs =
    parse_close py (record_text store ln)
    >>= (λ p. read_records py store lines (add_record ln p rs))

abbrev pub address_of : Close → Address
address_of r = (r.source_file, r.line_no)

-- The key of `raw.sort`.
unfoldable pub close_le : Close → Close → Bool
unfolding str_eq str_le
close_le a b =
    ltb a.ts b.ts
    || a.ts == b.ts
      && (if str_eq a.source_file b.source_file
          then leb a.line_no b.line_no
          else str_le a.source_file b.source_file)

-- `{r["conn_id"] for r in raw}`
unfoldable pub conn_ids : List Close → List Str
unfolding mem_str
conn_ids [] = []
conn_ids (r ∷ raw) =
    let ids = conn_ids raw in if mem_str r.parsed.conn_id ids then ids else r.parsed.conn_id ∷ ids

-- `while j < len(bounds) and ts > bounds[j]: j += 1`, on the closes from `j` on.
unfoldable pub advance : ℕ → List Close → List Close
advance ts [] = []
advance ts (c ∷ closes) = let rest = advance ts closes in if ltb c.ts ts then rest else c ∷ closes

-- `assigned` and `lines_after_last_close`.
pub record Assigned : Type 0 where
  pub assigned : Groups Address Mention
  pub after_last : ℕ

-- A line goes to the first of the closes that are left; with none, it is counted.
unfoldable pub assign : List Close → Mention → Assigned → Assigned
unfolding push address_eq
assign [] row a = record a { after_last = suc a.after_last }
assign (c ∷ closes) row a = record a { assigned = push address_eq (address_of c) row a.assigned }

-- The lines of one connection, oldest first, with the closes from `j` on.
unfoldable pub segment : List Close → List Mention → Assigned → Assigned
unfolding advance assign
segment closes [] a = a
segment closes (row ∷ rows) a =
    let left = advance row.ts closes in segment left rows (assign left row a)

-- The loop over the connections.
unfoldable pub assign_all : Groups Str Mention → Groups Str Close → Assigned → Assigned
unfolding segment lookup str_eq
assign_all lifetimes [] a = a
assign_all lifetimes (e ∷ closes_by_id) a =
    assign_all lifetimes closes_by_id (segment e.1 (lookup str_eq lifetimes e.0) a)

-- A destination: the text, its port, and the address of its evidence.
pub record Dest : Type 0 where
  pub dest : Option Str
  pub port : Option ℕ
  pub source_file : Option Str
  pub line_no : Option ℕ

abbrev pub no_dest : Option ℕ → Dest
no_dest port = record { dest = none; port = port; source_file = none; line_no = none }

-- The first of a flow's own lines that names a host.
unfoldable pub find_dest : Python → Option ℕ → List Mention → Dest
find_dest py port [] = no_dest port
find_dest py port (row ∷ own) =
    let rest = find_dest py port own in
    elim (py.dest_host row.body) [
      | none ↦ rest
      | some m ↦ record {
        dest = some m.host;
        port = elim m.port [
          | none ↦ none
          | some [] ↦ none
          | some (c ∷ p) ↦ some (py.number (c ∷ p))
        ];
        source_file = some row.source_file;
        line_no = some row.line_no;
      }
    ]

unfoldable pub dest_of : Python → Close → List Mention → Dest
unfolding find_dest
dest_of py r own = elim r.parsed.dest [
  | none ↦ find_dest py r.parsed.dest_port own
  | some [] ↦ record {
    dest = some [];
    port = r.parsed.dest_port;
    source_file = none;
    line_no = none;
  }
  | some (c ∷ d) ↦ record {
    dest = some (c ∷ d);
    port = r.parsed.dest_port;
    source_file = some r.source_file;
    line_no = some r.line_no;
  }
]

-- `own[0][0] if own else r["ts"]`
unfoldable pub first_of : Close → List Mention → ℕ
first_of r [] = r.ts
first_of r (row ∷ own) = row.ts

unfoldable pub flow_of : Python → Close → List Mention → Flow
unfolding dest_of first_of
flow_of py r own =
    let d = dest_of py r own in
    record {
      conn_id = r.parsed.conn_id;
      proto = r.parsed.proto;
      first_ts = first_of r own;
      last_ts = r.ts;
      client_bytes = r.parsed.client_bytes;
      server_bytes = r.parsed.server_bytes;
      packets_tx = r.parsed.packets_tx;
      packets_rx = r.parsed.packets_rx;
      dest = d.dest;
      dest_port = d.port;
      dest_source_file = d.source_file;
      dest_line_no = d.line_no;
      source_file = r.source_file;
      line_no = r.line_no;
      carrier = r.parsed.carrier;
      lifetime_lines = length own;
    }

unfoldable pub flows_of : Python → Groups Address Mention → List Close → List Flow
unfolding flow_of lookup address_eq
flows_of py assigned [] = []
flows_of py assigned (r ∷ raw) =
    flow_of py r (lookup address_eq assigned (address_of r)) ∷ flows_of py assigned raw

-- `sum(1 for v in closes_by_id.values() if len(v) > 1)`
unfoldable pub reused : Groups Str Close → ℕ
reused [] = 0
reused (e ∷ closes_by_id) = let n = reused closes_by_id in if ltb 1 (length e.1) then suc n else n

-- `lifetimes`
abbrev pub lifetimes_of : Store → Bool → List Close → Groups Str Mention
lifetimes_of store available raw = if available then lifetime_index store (conn_ids raw) else []

-- `raw`, without duplicates and sorted.
abbrev pub closes_of : Records → List Close
closes_of rs = sort_by close_le (dedupe_carriers rs.raw).0

-- `closes_by_id`
abbrev pub by_conn_id : List Close → Groups Str Close
by_conn_id raw = group_by str_eq (λ (r : Close). r.parsed.conn_id) raw

-- After the candidates are read.
unfoldable pub ledger_of : Python → Store → Bool → Records → Ledger
unfolding assign_all flows_of reused str_eq
ledger_of py store lifetime rs =
    let raw = closes_of rs in
    let available = lifetime && store.ids_indexed in
    let a =
      assign_all (lifetimes_of store available raw) (by_conn_id raw)
        (record { assigned = []; after_last = 0 }) in
    record {
      flows = flows_of py a.assigned raw;
      carrier_counts = rs.counts;
      duplicate_carrier_conn_ids = (dedupe_carriers rs.raw).1;
      unmatched_candidates = rs.unmatched;
      lines_after_last_close = a.after_last;
      lifetime_available = available;
      conn_ids_reused = reused (by_conn_id raw);
      source_files_duplicated = store.duplicate_source_files;
    }

unfoldable pub build_ledger : Python → (Str → Str → Bool) → Store → Bool → Outcome Error Ledger
unfolding candidate_lines read_records ledger_of
build_ledger py like store lifetime =
    read_records py store (candidate_lines like store)
      (record { raw = []; counts = []; unmatched = 0 })
    >>= (λ rs. ok (ledger_of py store lifetime rs))
