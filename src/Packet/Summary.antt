-- ===== src/Packet/Summary.antt =====
-- `PcapSummary`: the state of a scan.
use zcc_analysis.Common.{
  ℕ, ◌+◌, ◌&&◌, Option, none, some, List, [], ◌∷◌, ◌++◌, if◌then◌else◌, Str, codes, str_eq,
}
use zcc_analysis.Packet.Blocks.{BlockError, ClockError}
use zcc_analysis.Common.Order.{str_le}
use zcc_analysis.Packet.Endpoints.{Table}
use zcc_analysis.Common.Counters.{Counter}

-- The first and last time of a flow, and its bytes.
pub record Interval : Type 0 where
  pub first_ts : ℕ
  pub last_ts : ℕ
  pub bytes : ℕ

-- What opening a file may raise.
pub data FileError : Type 0 where
  file_not_found os_error : FileError

pub data ParseError : Type 0 where
  packet_cap : ℕ → ParseError
  read_error : BlockError → ParseError
  time_error : ClockError → ParseError
  file_error : FileError → ParseError

-- `PcapSummary`, and the table of the highest sequence numbers.
pub record Summary : Type 0 where
  pub total_packets : ℕ
  pub ts_first : Option ℕ
  pub ts_last : Option ℕ
  pub dns_queries : Counter
  pub sni_hosts : Counter
  pub dest_ips : Counter
  pub sni_to_ips : List (Str × List Str)
  pub dns_answers : List (Str × List Str)
  pub dns_resolutions : List (Str × List Str)
  pub address_stats : Table
  pub transport_stats : Table
  pub dest_endpoints : Counter
  pub parse_errors : List ParseError
  pub bytes_per_endpoint : Counter
  pub tcp_resets : Counter
  pub tcp_reset_endpoints : Counter
  pub tcp_syns : Counter
  pub tcp_syn_acks : Counter
  pub tcp_retransmits : Counter
  pub dns_nxdomain : Counter
  pub tls_alerts : Counter
  pub tls_alert_endpoints : Counter
  pub flow_intervals : List (Str × Interval)
  pub seq_watermark : List (Str × Str × ℕ)

abbrev pub empty_summary : Summary
empty_summary = record {
  total_packets = 0;
  ts_first = none;
  ts_last = none;
  dns_queries = [];
  sni_hosts = [];
  dest_ips = [];
  sni_to_ips = [];
  dns_answers = [];
  dns_resolutions = [];
  address_stats = [];
  transport_stats = [];
  dest_endpoints = [];
  parse_errors = [];
  bytes_per_endpoint = [];
  tcp_resets = [];
  tcp_reset_endpoints = [];
  tcp_syns = [];
  tcp_syn_acks = [];
  tcp_retransmits = [];
  dns_nxdomain = [];
  tls_alerts = [];
  tls_alert_endpoints = [];
  flow_intervals = [];
  seq_watermark = [];
}

-- `flow_intervals[key]`, extended by a packet.
unfoldable pub extend : List (Str × Interval) → Str → ℕ → ℕ → List (Str × Interval)
unfolding str_eq
extend [] key ts size = (key, record { first_ts = ts; last_ts = ts; bytes = size }) ∷ []
extend ((k, i) ∷ flows) key ts size =
    let rest = extend flows key ts size in
    if str_eq k key
    then (k, record i { last_ts = ts; bytes = i.bytes + size }) ∷ flows
    else (k, i) ∷ rest

-- `f"{a} <-> {b}"`, the smaller side first.
unfoldable pub flow_key : Str → Str → Str
unfolding str_le
flow_key a b = if str_le a b then a ++ codes " <-> " ++ b else b ++ codes " <-> " ++ a

-- The watermark of a direction.
unfoldable pub watermark : List (Str × Str × ℕ) → Str → Str → Option ℕ
unfolding str_eq
watermark [] a b = none
watermark ((x, y, n) ∷ marks) a b = if str_eq x a && str_eq y b then some n else watermark marks a b

-- `seq_watermark[(a, b)] = n`
unfoldable pub set_watermark : List (Str × Str × ℕ) → Str → Str → ℕ → List (Str × Str × ℕ)
unfolding str_eq
set_watermark [] a b n = (a, b, n) ∷ []
set_watermark ((x, y, m) ∷ marks) a b n =
    let rest = set_watermark marks a b n in
    if str_eq x a && str_eq y b then (x, y, n) ∷ marks else (x, y, m) ∷ rest

unfoldable pub or_else : Option ℕ → ℕ → Option ℕ
or_else none ts = some ts
or_else (some first) ts = some first

abbrev pub start_packet : ℕ → Summary → Summary
start_packet ts s = record s {
  total_packets = s.total_packets + 1;
  ts_first = or_else s.ts_first ts;
  ts_last = some ts;
}
