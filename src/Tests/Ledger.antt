-- ===== src/Tests/Ledger.antt =====
-- A ledger of three connections: two of them closed on TCP, one of which has a destructor as well, and
-- one on UDP.

use zcc_analysis.Common.{
  String, total, mem_str, ℕ, ◌+◌, ◌≡◌, refl, Bool, true, none, some, List, [], ◌∷◌, map, length,
  take, drop, keep, All, if◌then◌else◌, ltb, ◌==◌, Str, str_eq, codes,
}
use zcc_analysis.Common.Outcome.{Outcome, ok, raised}
use zcc_analysis.Common.Groups.{lookup, group_by}
use zcc_analysis.Common.Sorting.{sort_by}
use zcc_analysis.Viewer.Index.{Line}
use zcc_analysis.Ledger.Closes.{
  tcp_conn_close, Error, value_error, Close, Python, or_none, dedupe_carriers, tcp_close_ids,
}
use zcc_analysis.Ledger.Store.{Edge, Store, mention_le, lifetime_index}
use zcc_analysis.Ledger.Running.{Running, running_counter_report}
use zcc_analysis.Ledger.Store.Chunks.{lines_of}
use zcc_analysis.Ledger.Store.Laws.{lifetime_index-eq-query}
use zcc_analysis.Ledger.Build.{Flow, Ledger, Records, ledger_of, build_ledger, close_le, conn_ids}
use zcc_analysis.Ledger.Closes.Laws.{is_kept, dedupe_carriers-keep}
use zcc_analysis.Ledger.Rows.{AggRow, row_bytes, flow_bytes, busier, group_rows, destination_key}
use zcc_analysis.Ledger.Rows.Laws.{IsShare, group_rows-AreShares}

-- The first character of a text says what it is; the identifier is the second.
abbrev py : Python
py = record {
  tcp_close = λ text. elim text [
    | [] ↦ none
    | c ∷ rest ↦
        if c == b't'
        then some (record { conn = take 1 rest; clt = drop 1 rest; srv = rest })
        else none
  ];
  udp_close = λ text. elim text [
    | [] ↦ none
    | c ∷ rest ↦
        if c == b'u'
        then some (record { conn = take 1 rest; dst = drop 1 rest; tx = rest; txp = []; rx = [] })
        else none
  ];
  rx_packets = λ text. none;
  destructor = λ text. elim text [
    | [] ↦ none
    | c ∷ rest ↦
        if c == b'd'
        then some (record { kind = codes "TCP"; conn = take 1 rest; tx = rest; rx = rest })
        else none
  ];
  dest_host = λ text. elim text [
    | [] ↦ none
    | c ∷ rest ↦ if c == b'h' then some (record { host = drop 1 rest; port = none }) else none
  ];
  number = length;
  int = λ s. elim s [ [] ↦ raised value_error | c ∷ rest ↦ ok c ];
  is_digit = λ s. ltb 0 (length s);
  lower = λ s. codes "tcp";
}

abbrev line : ℕ → String → ℕ → Line
line ts body n = record {
  ts = ts;
  level = [];
  body = codes body;
  component = [];
  source_file = codes "f";
  line_no = n;
  session_id = none;
}

abbrev edge : String → ℕ → Edge
edge v n = record {
  source_file = codes "f";
  line_no = n;
  id_type = codes "conn_id";
  id_value = codes v;
}

abbrev store : Store
store = record {
  lines =
      line 5 "h1host" 1
      ∷ line 9 "t1abc" 2
      ∷ line 7 "u210.1:53" 3
      ∷ line 9 "d1" 4
      ∷ line 12 "h1late" 5
      ∷ line 20 "t3" 6
      ∷ [];
  conts = [];
  edges = edge "1" 1 ∷ edge "1" 2 ∷ edge "1" 5 ∷ edge "3" 6 ∷ [];
  ids_indexed = true;
  duplicate_source_files = 0;
}

-- A pattern finds every text that is not empty.
abbrev like : Str → Str → Bool
like pattern text = ltb 0 (length text)

abbrev read : Outcome Error Ledger
read = build_ledger py like store true

flows_of_read :
    elim read [
      | raised e ↦ []
      | ok ledger ↦
          map
            (λ (f : Flow). f.first_ts ∷ f.last_ts ∷ f.lifetime_lines ∷ destination_key f)
            ledger.flows
    ]
    ≡ (7 ∷ 7 ∷ 0 ∷ codes "10.1:53")
      ∷ (5 ∷ 9 ∷ 2 ∷ codes "host")
      ∷ (20 ∷ 20 ∷ 1 ∷ codes "(no destination on record)")
      ∷ []
unfolding build_ledger destination_key dedupe_carriers group_by sort_by close_le lifetime_index
    conn_ids or_none
flows_of_read = refl

counts_of_read :
    elim read [
      | raised e ↦ []
      | ok ledger ↦
          ledger.duplicate_carrier_conn_ids ∷ ledger.unmatched_candidates
          ∷ ledger.lines_after_last_close ∷ ledger.conn_ids_reused ∷ []
    ]
    ≡ 1 ∷ 2 ∷ 1 ∷ 0 ∷ []
unfolding build_ledger dedupe_carriers group_by sort_by close_le lifetime_index conn_ids or_none
counts_of_read = refl

-- What the loop over the candidates leaves.
abbrev tcp_record : ℕ → String → ℕ → ℕ → Close
tcp_record ts conn n bytes = record {
  parsed = record {
    carrier = tcp_conn_close;
    proto = codes "tcp";
    conn_id = codes conn;
    client_bytes = bytes;
    server_bytes = 2;
    packets_tx = none;
    packets_rx = none;
    dest = none;
    dest_port = none;
  };
  ts = ts;
  source_file = codes "f";
  line_no = n;
}

abbrev records : Records
records = record {
  raw = tcp_record 9 "1" 2 10 ∷ tcp_record 20 "3" 6 30 ∷ [];
  counts = [];
  unmatched = 0;
}

dedupe_carriers-keep_example :
    let kept : List Close = (dedupe_carriers records.raw).0 in
    (kept ≡ keep (is_kept (tcp_close_ids records.raw)) records.raw)
    × (length kept + (dedupe_carriers records.raw).1 ≡ length records.raw)
    × (tcp_close_ids kept ≡ tcp_close_ids records.raw)
    × (dedupe_carriers kept ≡ (kept, 0))
dedupe_carriers-keep_example = dedupe_carriers-keep records.raw

abbrev ledger : Ledger
ledger = ledger_of py store true records

group_rows-AreShares_example :
    (rows : List AggRow) × (group_rows busier destination_key 5 ledger ≡ some rows)
    × All (IsShare destination_key ledger.flows) rows
    × (total (λ (r : AggRow). r.flows) rows ≡ length ledger.flows)
    × (total row_bytes rows ≡ total flow_bytes ledger.flows)
group_rows-AreShares_example = group_rows-AreShares busier destination_key 5 ledger

abbrev two_ids : List Str
two_ids = codes "1" ∷ codes "3" ∷ []

lifetime_index-eq-query_example :
    lookup str_eq (lifetime_index store two_ids) (codes "1")
    ≡ (if mem_str (codes "1") two_ids then sort_by mention_le (lines_of store (codes "1")) else [])
unfolding str_eq
lifetime_index-eq-query_example =
    lifetime_index-eq-query store two_ids (codes "1") ((refl, tt), (tt, tt))

-- A body that two of the patterns select is counted twice.
abbrev both_patterns : Running
both_patterns =
    running_counter_report like (λ text. 7 ∷ []) (λ text. [])
      (record store { lines = line 5 "h" 1 ∷ [] })

counted_twice :
    both_patterns.tag_records ∷ both_patterns.tag_sum ∷ both_patterns.keepalive_records ∷ []
    ≡ 2 ∷ 14 ∷ 0 ∷ []
unfolding running_counter_report
counted_twice = refl
