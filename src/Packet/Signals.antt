-- ===== src/Packet/Signals.antt =====
-- What `scan_pcap` counts of a parsed packet.
pub mod Sums
pub mod Laws
use zcc_analysis.Common.{
  ℕ, zero, suc, ◌+◌, ◌*◌, ◌%◌, ◌/◌, ◌^◌, Bool, true, false, ◌&&◌, ◌||◌, not, Option, none, some,
  List, [], ◌∷◌, ◌++◌, length, ltb, leb, ◌==◌, if◌then◌else◌, Str, codes, str_eq, String,
}
use zcc_analysis.Common.Outcome.{◌>>=◌, Outcome, ok, raised}
use zcc_analysis.Packet.Bytes.{Bytes, Fault, Read}
use zcc_analysis.Packet.Frames.{Protocol, tcp, udp, or_none, Address}
use zcc_analysis.Packet.Full.{Parsed, parse_frame_full, extract_tcp_seq}
use zcc_analysis.Packet.Blocks.{
  Captured, BlockError, ClockError, bad_value, overflow, Stop, value_error, fault, clock_error,
  Yielded, read_pcapng,
}
use zcc_analysis.Packet.Names.{parse_dns_qname}
use zcc_analysis.Packet.Answers.{parse_dns_response, parse_dns_address_answers}
use zcc_analysis.Packet.Tls.{parse_tls_sni, parse_tls_alert, format_tls_alert, name_in}
use zcc_analysis.Packet.Text.{address, endpoint, decimal, has_bit}
use zcc_analysis.Packet.Endpoints.{Side, server_side, Table, bump, count_packet}
use zcc_analysis.Common.Counters.{Counter, add, add_to_set}
use zcc_analysis.Packet.Summary.{Summary, Interval, extend, flow_key, watermark, set_watermark}

-- `_DNS_RCODE_NAMES`
abbrev pub rcode_names : List (ℕ × String)
rcode_names =
    (0, "NOERROR")
    ∷ (1, "FORMERR")
    ∷ (2, "SERVFAIL")
    ∷ (3, "NXDOMAIN")
    ∷ (4, "NOTIMP")
    ∷ (5, "REFUSED")
    ∷ []

-- `_format_ipv6` is a parameter: it calls the ipaddress module.
module _ (format_ipv6 : Bytes → Str) where
  abbrev pub src_ip : Parsed → Str
  src_ip p = address format_ipv6 p.src

  abbrev pub dst_ip : Parsed → Str
  dst_ip p = address format_ipv6 p.dst

  abbrev pub src_endpoint : Parsed → Str
  src_endpoint p = endpoint (src_ip p) p.proto p.src_port

  abbrev pub dst_endpoint : Parsed → Str
  dst_endpoint p = endpoint (dst_ip p) p.proto p.dst_port

  unfoldable pub server_endpoint : Parsed → Str
  unfolding server_side endpoint
  server_endpoint p =
      let server =
        server_side (record { ip = src_ip p; port = p.src_port })
          (record { ip = dst_ip p; port = p.dst_port }) in
      endpoint server.ip p.proto server.port

  -- The counts of every parsed packet; `size` is the length of its frame.
  abbrev pub account : ℕ → ℕ → Parsed → Summary → Summary
  account ts size p s = record s {
    dest_ips = add s.dest_ips (dst_ip p) 1;
    dest_endpoints = add s.dest_endpoints (dst_endpoint p) 1;
    address_stats = count_packet s.address_stats (src_ip p) (dst_ip p) size;
    transport_stats = count_packet s.transport_stats (src_endpoint p) (dst_endpoint p) size;
    bytes_per_endpoint = add s.bytes_per_endpoint (server_endpoint p) p.total_len;
    flow_intervals =
        extend s.flow_intervals (flow_key (src_endpoint p) (dst_endpoint p)) ts p.total_len;
  }

  -- `f"{src_ip}:{sport} -> {dst_ip}:{dport}"`
  unfoldable pub reset_key : Parsed → Str
  unfolding decimal
  reset_key p =
      src_ip p
      ++ b':' ∷ (decimal p.src_port ++ codes " -> " ++ dst_ip p ++ b':' ∷ decimal p.dst_port)

  unfoldable pub count_reset : Parsed → Summary → Summary
  unfolding add server_endpoint reset_key
  count_reset p s =
      if has_bit p.flags 4
      then record s {
        tcp_resets = add s.tcp_resets (reset_key p) 1;
        tcp_reset_endpoints = add s.tcp_reset_endpoints (server_endpoint p) 1;
      }
      else s

  unfoldable pub count_handshake : Parsed → Summary → Summary
  unfolding add server_endpoint
  count_handshake p s =
      if has_bit p.flags 2
      then (if has_bit p.flags 16
          then record s { tcp_syn_acks = add s.tcp_syn_acks (server_endpoint p) 1 }
          else record s { tcp_syns = add s.tcp_syns (server_endpoint p) 1 })
      else s

  -- A segment with a payload against the watermark of its direction.
  unfoldable pub check_watermark : ℕ → Option ℕ → Parsed → Summary → Summary
  unfolding add server_endpoint set_watermark
  check_watermark seq_end none p s =
      if ltb (length s.seq_watermark) 10_000
      then record s {
        seq_watermark = set_watermark s.seq_watermark (src_endpoint p) (dst_endpoint p) seq_end;
      }
      else s
  check_watermark seq_end (some wm) p s =
      if leb seq_end wm
      then record s { tcp_retransmits = add s.tcp_retransmits (server_endpoint p) 1 }
      else record s {
        seq_watermark = set_watermark s.seq_watermark (src_endpoint p) (dst_endpoint p) seq_end;
      }

  unfoldable pub count_retransmit : Bytes → Parsed → Summary → Summary
  unfolding extract_tcp_seq watermark check_watermark
  count_retransmit frame p s = elim (extract_tcp_seq frame) [
    | none ↦ s
    | some seq ↦
        check_watermark ((seq + length p.payload) % 2 ^ 32)
          (watermark s.seq_watermark (src_endpoint p) (dst_endpoint p)) p s
  ]

  unfoldable pub count_alert : Option (ℕ × ℕ) → Parsed → Summary → Summary
  unfolding add server_endpoint format_tls_alert
  count_alert none p s = s
  count_alert (some (level, desc)) p s = record s {
    tls_alerts = add s.tls_alerts (format_tls_alert level desc) 1;
    tls_alert_endpoints = add s.tls_alert_endpoints (server_endpoint p) 1;
  }

  -- An empty name is not counted.
  unfoldable pub count_sni : Option Str → Parsed → Summary → Summary
  unfolding add add_to_set
  count_sni none p s = s
  count_sni (some []) p s = s
  count_sni (some (c ∷ sni)) p s = record s {
    sni_hosts = add s.sni_hosts (c ∷ sni) 1;
    sni_to_ips = add_to_set s.sni_to_ips (c ∷ sni) (dst_ip p);
  }

  -- The tests of a segment with a payload.
  unfoldable pub payload_signals : Bytes → Parsed → Summary → Read Summary
  unfolding count_retransmit parse_tls_alert count_alert parse_tls_sni count_sni
  payload_signals frame p s = do
    alert ← parse_tls_alert p.payload
    let alerted = count_alert alert p (count_retransmit frame p s)
    ok (if p.dst_port == 443 then count_sni (parse_tls_sni p.payload) p alerted else alerted)

  -- The branch `if proto == "tcp"`
  unfoldable pub tcp_signals : Bytes → Parsed → Summary → Read Summary
  unfolding count_reset count_handshake payload_signals
  tcp_signals frame p s =
      let flagged = count_handshake p (count_reset p s) in
      let with_payload = payload_signals frame p flagged in
      if length p.payload == 0 then ok flagged else with_payload

  unfoldable pub count_query : Option Str → Summary → Summary
  unfolding add
  count_query none s = s
  count_query (some []) s = s
  count_query (some (c ∷ q)) s = record s { dns_queries = add s.dns_queries (c ∷ q) 1 }

  -- `f"{qname}  [{rname}]"`, of a response that failed.
  unfoldable pub count_failure : Option (ℕ × Str) → Summary → Summary
  unfolding add name_in
  count_failure none s = s
  count_failure (some (rcode, [])) s = s
  count_failure (some (rcode, c ∷ qname)) s = if rcode == 0 then s else record s {
    dns_nxdomain =
        add s.dns_nxdomain
          ((c ∷ qname) ++ codes "  [" ++ name_in rcode_names rcode (codes "rcode-") ++ codes "]") 1;
  }

  unfoldable pub note_answers : List (Str × Address) → Summary → Summary
  unfolding add_to_set address
  note_answers [] s = s
  note_answers ((qname, a) ∷ answers) s = note_answers answers (record s {
    dns_answers = add_to_set s.dns_answers (address format_ipv6 a) qname;
    dns_resolutions = add_to_set s.dns_resolutions qname (address format_ipv6 a);
  })

  -- The branch of UDP port 53
  unfoldable pub dns_signals : Parsed → Summary → Read Summary
  unfolding parse_dns_qname parse_dns_response parse_dns_address_answers count_query count_failure
      note_answers
  dns_signals p s = do
    q ← parse_dns_qname p.payload
    resp ← parse_dns_response p.payload
    answers ← parse_dns_address_answers p.payload
    ok (note_answers answers (count_failure resp (count_query q s)))

  unfoldable pub signals : Bytes → Parsed → Summary → Read Summary
  unfolding tcp_signals dns_signals
  signals frame p s = elim p.proto [
    | tcp ↦ tcp_signals frame p s
    | udp ↦ if p.dst_port == 53 || p.src_port == 53 then dns_signals p s else ok s
  ]
