-- ===== src/Packet/Scan.antt =====
-- `scan_pcap`: one round of its loop for each captured frame, and how it ends.
pub mod Laws
use zcc_analysis.Common.{
  ℕ, zero, suc, ◌+◌, ◌*◌, ◌%◌, ◌/◌, ◌^◌, Bool, true, false, ◌&&◌, ◌||◌, not, Option, none, some,
  List, [], ◌∷◌, ◌++◌, length, ltb, leb, ◌==◌, if◌then◌else◌, Str, codes, str_eq, String,
}
use zcc_analysis.Common.Outcome.{◌>>=◌, Outcome, ok, raised}
use zcc_analysis.Packet.Bytes.{Bytes, Fault, Read}
use zcc_analysis.Packet.Frames.{Protocol, tcp, udp, or_none, Address}
use zcc_analysis.Packet.Full.{Parsed, parse_frame_full, extract_tcp_seq}
use zcc_analysis.Packet.Blocks.{
  Captured, BlockError, ClockError, bad_value, overflow, Stop, value_error, fault, clock_error,
  Yielded, read_pcapng,
}
use zcc_analysis.Packet.Names.{parse_dns_qname}
use zcc_analysis.Packet.Answers.{parse_dns_response, parse_dns_address_answers}
use zcc_analysis.Packet.Tls.{parse_tls_sni, parse_tls_alert, format_tls_alert, name_in}
use zcc_analysis.Packet.Text.{address, endpoint, decimal, has_bit}
use zcc_analysis.Packet.Endpoints.{Side, server_side, Table, bump, count_packet}
use zcc_analysis.Common.Counters.{Counter, add, add_to_set}
use zcc_analysis.Packet.Summary.{
  Summary, ParseError, packet_cap, read_error, time_error, file_error, FileError, empty_summary,
  start_packet,
}
use zcc_analysis.Packet.Signals.{account, signals}

-- The exceptions that leave `scan_pcap`.
pub data Escape : Type 0 where
  escaped : Fault → Escape
  overflow_error : Escape

-- `_format_ipv6` is a parameter: it calls the ipaddress module.
module _ (format_ipv6 : Bytes → Str) where
  -- One round of the loop, below the packet cap.
  unfoldable pub scan_packet : Captured → Summary → Read Summary
  unfolding parse_frame_full signals
  scan_packet c s = elim (parse_frame_full c.frame) [
    | none ↦ ok (start_packet c.ts s)
    | some p ↦
        signals format_ipv6 c.frame p
          (account format_ipv6 c.ts (length c.frame) p (start_packet c.ts s))
  ]

  abbrev pub fail : ParseError → Summary → Summary
  fail e s = record s { parse_errors = s.parse_errors ++ e ∷ [] }

  -- The `except` clauses, on what ended the generator.
  unfoldable pub finish : Option Stop → Summary → Outcome Escape Summary
  finish none s = ok s
  finish (some (value_error e)) s = ok (fail (read_error e) s)
  finish (some (fault e)) s = raised (escaped e)
  finish (some (clock_error overflow)) s = raised overflow_error
  finish (some (clock_error e)) s = ok (fail (time_error e) s)

  unfoldable pub scan_packets : ℕ → Option Stop → List Captured → Summary → Outcome Escape Summary
  unfolding scan_packet finish
  scan_packets max_packets end [] s = finish end s
  scan_packets max_packets end (c ∷ cs) s =
      let scanned : Outcome Escape Summary = elim (scan_packet c s) [
        | raised e ↦ raised (escaped e)
        | ok t ↦ scan_packets max_packets end cs t
      ] in
      if leb max_packets s.total_packets then ok (fail (packet_cap max_packets) s) else scanned

  unfoldable pub scan_pcap :
      (ℕ → ℕ → Outcome ClockError ℕ) → ℕ → Outcome FileError Bytes → Outcome Escape Summary
  unfolding read_pcapng scan_packets
  scan_pcap fromtimestamp max_packets (raised e) = ok (fail (file_error e) empty_summary)
  scan_pcap fromtimestamp max_packets (ok fp) =
      let read = read_pcapng fromtimestamp fp in
      scan_packets max_packets read.1 read.0 empty_summary
