-- ===== src/Packet/Signals/Sums.antt =====
-- The sums that a scan keeps, and how the counts of every packet keep them.
use zcc_analysis.Common.{
  ℕ, suc, ◌+◌, ◌≤◌, ◌≡◌, ◌≢◌, refl, arith, true, false, ◌&&◌, none, some, List, [], ◌∷◌, length,
  if◌then◌else◌, Str, str_eq,
}
use zcc_analysis.Packet.Bytes.{Bytes}
use zcc_analysis.Packet.Full.{Parsed}
use zcc_analysis.Packet.Endpoints.Laws.{IsBalanced, total, count_packet-IsBalanced}
use zcc_analysis.Common.Counters.{sum, sum-add}
use zcc_analysis.Packet.Summary.{
  Summary, Interval, extend, watermark, set_watermark, start_packet, flow_key,
}
use zcc_analysis.Packet.Signals.{
  account, src_endpoint, src_ip, dst_endpoint, dst_ip, server_endpoint,
}

abbrev pub flow_bytes : List (Str × Interval) → ℕ
flow_bytes [] = 0
flow_bytes ((k, i) ∷ flows) = i.bytes + flow_bytes flows

flow_bytes-extend :
    (flows : List (Str × Interval)) (key : Str) (ts size : ℕ)
    → flow_bytes (extend flows key ts size) ≡ flow_bytes flows + size
unfolding extend
flow_bytes-extend [] key ts size = omega arith
flow_bytes-extend ((k, i) ∷ flows) key ts size =
    elim (str_eq k key)
      as (λ b.
        flow_bytes (
          if b
          then (k, record i { last_ts = ts; bytes = i.bytes + size }) ∷ flows
          else (k, i) ∷ extend flows key ts size)
        ≡ i.bytes + flow_bytes flows + size) [
          | true ↦ omega arith
          | false ↦ omega (arith, flow_bytes-extend flows key ts size)
        ]

-- Every parsed packet is counted once as a destination and once as an endpoint, its bytes once for
-- its server and once for its flow, and its frame once as sent and once as received.
abbrev pub IsCounted : Summary → Type 0
IsCounted s =
    (sum s.dest_ips ≤ s.total_packets)
    × (sum s.dest_endpoints ≡ sum s.dest_ips)
    × (sum s.bytes_per_endpoint ≡ flow_bytes s.flow_intervals)
    × (total (λ r. r.packets) s.address_stats ≡ sum s.dest_ips + sum s.dest_ips)
    × (total (λ r. r.packets) s.transport_stats ≡ total (λ r. r.packets) s.address_stats)
    × (total (λ r. r.tx_bytes) s.address_stats ≡ total (λ r. r.rx_bytes) s.address_stats)
    × (total (λ r. r.tx_bytes) s.transport_stats ≡ total (λ r. r.tx_bytes) s.address_stats)
    × (total (λ r. r.tx_bytes) s.transport_stats ≡ total (λ r. r.rx_bytes) s.transport_stats)

-- The rows balance, a reset or an alert is attributed to one server, and the table of watermarks
-- stays within its cap.
abbrev pub IsConsistent : Summary → Type 0
IsConsistent s =
    IsBalanced s.address_stats
    × IsBalanced s.transport_stats
    × (sum s.tcp_resets ≡ sum s.tcp_reset_endpoints)
    × (sum s.tls_alerts ≡ sum s.tls_alert_endpoints)
    × (length s.seq_watermark ≤ 10_000)

-- The packets read, those of them that parse, and of these the lengths of the IP packets and of the
-- frames.
pub record Tally : Type 0 where
  pub packets : ℕ
  pub parsed : ℕ
  pub ip_bytes : ℕ
  pub frame_bytes : ℕ

abbrev pub unparsed_one : Tally → Tally
unparsed_one n = record n { packets = suc n.packets }

abbrev pub parsed_one : ℕ → Parsed → Tally → Tally
parsed_one size p n = record {
  packets = suc n.packets;
  parsed = suc n.parsed;
  ip_bytes = n.ip_bytes + p.total_len;
  frame_bytes = n.frame_bytes + size;
}

-- The counts of a state come to a tally.
abbrev pub IsTallied : Tally → Summary → Type 0
IsTallied n s =
    (s.total_packets ≡ n.packets)
    × (sum s.dest_ips ≡ n.parsed)
    × (sum s.bytes_per_endpoint ≡ n.ip_bytes)
    × (total (λ r. r.tx_bytes) s.address_stats ≡ n.frame_bytes)

abbrev pub IsSound : Tally → Summary → Type 0
IsSound n s = IsCounted s × IsConsistent s × IsTallied n s

pub length-set_watermark :
    (marks : List (Str × Str × ℕ)) (a b : Str) (n : ℕ)
    → (length (set_watermark marks a b n) ≤ suc (length marks))
      × (watermark marks a b ≢ none → length (set_watermark marks a b n) ≡ length marks)
unfolding set_watermark watermark
length-set_watermark [] a b n = (omega arith, λ h. elim (h refl) [ ])
length-set_watermark ((x, y, m) ∷ marks) a b n =
    elim (str_eq x a && str_eq y b)
      as (λ t.
        (length (if t then (x, y, n) ∷ marks else (x, y, m) ∷ set_watermark marks a b n)
          ≤ suc (suc (length marks)))
        × ((if t then some m else watermark marks a b) ≢ none
            → length (if t then (x, y, n) ∷ marks else (x, y, m) ∷ set_watermark marks a b n)
              ≡ suc (length marks))) [
                | true ↦ (omega arith, λ h. refl)
                | false ↦
                    let ih = length-set_watermark marks a b n in
                    (omega (arith, ih.0), λ h. omega (arith, ih.1 h))
              ]

module _ (format_ipv6 : Bytes → Str) where
  pub account-IsSound :
      {n : Tally} (ts size : ℕ) (p : Parsed) (s : Summary)
      → IsSound n s
      → IsSound (parsed_one size p n) (account format_ipv6 ts size p (start_packet ts s))
  account-IsSound ts size p s (h, c, e) =
      let a =
        count_packet-IsBalanced s.address_stats (src_ip format_ipv6 p) (dst_ip format_ipv6 p) size
          c.0 in
      let t =
        count_packet-IsBalanced s.transport_stats (src_endpoint format_ipv6 p)
          (dst_endpoint format_ipv6 p) size c.1 in
      let ips = sum-add s.dest_ips (dst_ip format_ipv6 p) 1 in
      let ends = sum-add s.dest_endpoints (dst_endpoint format_ipv6 p) 1 in
      let bytes = sum-add s.bytes_per_endpoint (server_endpoint format_ipv6 p) p.total_len in
      let flows =
        flow_bytes-extend s.flow_intervals
          (flow_key (src_endpoint format_ipv6 p) (dst_endpoint format_ipv6 p)) ts p.total_len in
      (
        (
          omega (arith, ips, h.0),
          omega (arith, ips, ends, h.1),
          omega (arith, bytes, flows, h.2),
          omega (arith, ips, a.3, h.3),
          omega (arith, a.3, t.3, h.4),
          omega (arith, a.1, a.2, h.5),
          omega (arith, a.1, t.1, h.6),
          omega (arith, t.1, t.2, h.7),
        ),
        (a.0, t.0, c.2, c.3, c.4),
        (
          omega (arith, e.0),
          omega (arith, ips, e.1),
          omega (arith, bytes, e.2),
          omega (arith, a.1, e.3),
        ),
      )

  pub start-IsSound :
      {n : Tally} (ts : ℕ) (s : Summary)
      → IsSound n s
      → IsSound (unparsed_one n) (start_packet ts s)
  start-IsSound ts s (h, c, e) = (
    (omega (arith, h.0), h.1, h.2, h.3, h.4, h.5, h.6, h.7),
    c,
    (omega (arith, e.0), e.1, e.2, e.3),
  )
