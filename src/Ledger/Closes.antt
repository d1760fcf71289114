-- ===== src/Ledger/Closes.antt =====
-- The records that end a connection: `_parse_close` and `_dedupe_carriers`.
pub mod Laws
use zcc_analysis.Common.{
  ℕ, zero, suc, ◌+◌, ◌-◌, ◌≤◌, ◌<◌, ◌≡◌, ◌≢◌, refl, sym, ap, subst, ◌∙◌, ◌↔◌, ◌⊎◌, inl, inr, Bool,
  true, false, not, ◌&&◌, ◌||◌, Option, none, some, List, [], ◌∷◌, ◌++◌, map, append-nil,
  append_assoc, arith, length, take, drop, get_elem?, keep, All, All-append, length-append,
  if◌then◌else◌, ltb, leb, ◌==◌, Bool-cases, Str, str_eq, str_eq_iff, codes, any, mem_str,
}
use zcc_analysis.Common.Outcome.{Outcome, ok, raised, ◌>>=◌}
use mathlib.Core.Option

pub data Carrier : Type 0 where
  tcp_conn_close : Carrier
  udp_conn_close : Carrier
  flow_destructor : Carrier

-- `ValueError`, of `int`.
pub data Error : Type 0 where
  value_error : Error

-- What `_parse_close` returns.
pub record Parsed : Type 0 where
  pub carrier : Carrier
  pub proto : Str
  pub conn_id : Str
  pub client_bytes : ℕ
  pub server_bytes : ℕ
  pub packets_tx : Option ℕ
  pub packets_rx : Option ℕ
  pub dest : Option Str
  pub dest_port : Option ℕ

-- A parsed record with the line it stands on.
pub record Close : Type 0 where
  pub parsed : Parsed
  pub ts : ℕ
  pub source_file : Str
  pub line_no : ℕ

-- The named groups of the three patterns.
pub record TcpClose : Type 0 where
  pub conn : Str
  pub clt : Str
  pub srv : Str

pub record UdpClose : Type 0 where
  pub conn : Str
  pub dst : Str
  pub tx : Str
  pub txp : Str
  pub rx : Str

pub record Destructor : Type 0 where
  pub kind : Str
  pub conn : Str
  pub tx : Str
  pub rx : Str

pub record DestHost : Type 0 where
  pub host : Str
  pub port : Option Str

-- Python's part: what `search` of each pattern captures, `int` of a text that `\d+` matched and of any
-- text, `str.isdigit` and `str.lower`.
pub record Python : Type 0 where
  pub tcp_close : Str → Option TcpClose
  pub udp_close : Str → Option UdpClose
  pub rx_packets : Str → Option Str
  pub destructor : Str → Option Destructor
  pub dest_host : Str → Option DestHost
  pub number : Str → ℕ
  pub int : Str → Outcome Error ℕ
  pub is_digit : Str → Bool
  pub lower : Str → Str

-- `s.rpartition(c)`, without the separator.
unfoldable pub rpartition : ℕ → Str → Str × Str
rpartition c [] = ([], [])
rpartition c (a ∷ s) =
    let later = rpartition c s in
    if any (λ b. b == c) s then (a ∷ later.0, later.1) else if a == c then ([], s) else ([], a ∷ s)

-- `ip or dst or None`
unfoldable pub or_none : Str → Str → Option Str
or_none (c ∷ s) t = some (c ∷ s)
or_none [] (c ∷ t) = some (c ∷ t)
or_none [] [] = none

module _ (py : Python) where
  abbrev pub tcp_of : TcpClose → Parsed
  tcp_of m = record {
    carrier = tcp_conn_close;
    proto = codes "tcp";
    conn_id = m.conn;
    client_bytes = py.number m.clt;
    server_bytes = py.number m.srv;
    packets_tx = none;
    packets_rx = none;
    dest = none;
    dest_port = none;
  }

  abbrev pub udp_of : Str → UdpClose → Option ℕ → Parsed
  udp_of text m port = record {
    carrier = udp_conn_close;
    proto = codes "udp";
    conn_id = m.conn;
    client_bytes = py.number m.tx;
    server_bytes = py.number m.rx;
    packets_tx = some (py.number m.txp);
    packets_rx = Option.map py.number (py.rx_packets text);
    dest = or_none (rpartition b':' m.dst).0 m.dst;
    dest_port = port;
  }

  abbrev pub destructor_of : Destructor → Parsed
  destructor_of m = record {
    carrier = flow_destructor;
    proto = py.lower m.kind;
    conn_id = m.conn;
    client_bytes = py.number m.tx;
    server_bytes = py.number m.rx;
    packets_tx = none;
    packets_rx = none;
    dest = none;
    dest_port = none;
  }

  -- `int(port) if port.isdigit() else None`
  unfoldable pub port_of : UdpClose → Outcome Error (Option ℕ)
  unfolding rpartition
  port_of m =
      let port = (rpartition b':' m.dst).1 in
      if py.is_digit port then py.int port >>= (λ n. ok (some n)) else ok none

  unfoldable pub parse_close : Str → Outcome Error (Option Parsed)
  unfolding port_of
  parse_close text = elim (py.tcp_close text) [
    | some m ↦ ok (some (tcp_of m))
    | none ↦ elim (py.udp_close text) [
      | some m ↦ port_of m >>= (λ port. ok (some (udp_of text m port)))
      | none ↦ ok (Option.map destructor_of (py.destructor text))
    ]
  ]

unfoldable pub is_tcp_close : Close → Bool
is_tcp_close r = elim r.parsed.carrier [ tcp_conn_close ↦ true | _ ↦ false ]

unfoldable pub is_destructor : Close → Bool
is_destructor r = elim r.parsed.carrier [ flow_destructor ↦ true | _ ↦ false ]

-- `tcp_close_ids`
unfoldable pub tcp_close_ids : List Close → List Str
unfolding is_tcp_close
tcp_close_ids [] = []
tcp_close_ids (r ∷ records) =
    let ids = tcp_close_ids records in if is_tcp_close r then r.parsed.conn_id ∷ ids else ids

-- The loop: the kept records and how many were dropped.
unfoldable pub dedupe_with : List Str → List Close → List Close × ℕ
unfolding is_destructor mem_str
dedupe_with ids [] = ([], 0)
dedupe_with ids (r ∷ records) =
    let rest = dedupe_with ids records in
    if is_destructor r && mem_str r.parsed.conn_id ids
    then (rest.0, suc rest.1)
    else (r ∷ rest.0, rest.1)

unfoldable pub dedupe_carriers : List Close → List Close × ℕ
unfolding tcp_close_ids dedupe_with
dedupe_carriers records = dedupe_with (tcp_close_ids records) records
