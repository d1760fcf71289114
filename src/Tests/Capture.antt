-- ===== src/Tests/Capture.antt =====
-- A capture file with one datagram, read and scanned.
use zcc_analysis.Common.{
  ℕ, ◌≤◌, ◌≡◌, refl, arith, ◌&&◌, Option, none, List, [], ◌∷◌, length, All, Str, codes, Bool, map,
  all, leb, take,
}
use zcc_analysis.Common.Outcome.{Outcome, ok, raised}
use zcc_analysis.Packet.Bytes.{Bytes}
use zcc_analysis.Packet.Frames.{Address, parse_frame, ipv4, udp}
use zcc_analysis.Packet.Full.{parse_frame_full, Parsed}
use zcc_analysis.Packet.Full.Agrees.{brief, parse_frame-eq-brief}
use zcc_analysis.Packet.Blocks.{little, Block, ClockError, blocks_of, read_pcapng, lock_endian}
use zcc_analysis.Packet.Blocks.RoundTrip.{put_blocks, blocks_of-put_blocks}
use zcc_analysis.Packet.Text.{printable_preview, address}
use zcc_analysis.Packet.Names.{parse_dns_qname}
use zcc_analysis.Packet.Answers.{name_or_empty, field16, parse_dns_address_answers}
use zcc_analysis.Packet.Answers.Sound.{AreAnswers, parse_dns_address_answers-AreAnswers}
use zcc_analysis.Packet.Scan.{scan_pcap, Escape}
use zcc_analysis.Packet.Summary.{Summary}
use zcc_analysis.Common.Counters.{Counter}
use zcc_analysis.Packet.Streams.{StreamMatch, follow_streams, starts_before}
use zcc_analysis.Packet.Streams.Keys.{heard}
use zcc_analysis.Packet.Streams.Laws.{IsStream, follow_streams-IsFollowed}
use zcc_analysis.Common.Sorting.{IsSortedBy}
use zcc_analysis.Packet.Names.{label_kind}
use zcc_analysis.Packet.Bytes.{word16}
use zcc_analysis.Tests.Packet.{frame}

-- A section header, an interface with the default resolution, and a packet.
abbrev header : Bytes
header = 0x4D ∷ 0x3C ∷ 0x2B ∷ 0x1A ∷ 1 ∷ 0 ∷ 0 ∷ 0 ∷ []

abbrev interface : Bytes
interface = 1 ∷ 0 ∷ 0 ∷ 0 ∷ 0 ∷ 0 ∷ 4 ∷ 0 ∷ []

abbrev packet : Bytes
packet = 0 ∷ 0 ∷ 0 ∷ 0 ∷ 0 ∷ 0 ∷ 0 ∷ 0 ∷ 5 ∷ 0 ∷ 0 ∷ 0 ∷ 44 ∷ 0 ∷ 0 ∷ 0 ∷ 44 ∷ 0 ∷ 0 ∷ 0 ∷ frame

abbrev blocks : List Block
blocks =
    record { btype = 0x0A0D0D0A; body = header; endian = little }
    ∷ record { btype = 1; body = interface; endian = little }
    ∷ record { btype = 6; body = packet; endian = little }
    ∷ []

abbrev file : Bytes
file = put_blocks little blocks

abbrev clock : ℕ → ℕ → Outcome ClockError ℕ
clock ts_ticks ticks = ok ts_ticks

abbrev format_ipv6 : Bytes → Str
format_ipv6 raw = raw

parse_frame-eq-brief_example : parse_frame frame ≡ brief (parse_frame_full frame)
parse_frame-eq-brief_example = parse_frame-eq-brief frame

preview_of_get : printable_preview (codes "GET /\t\r\n") 4 ≡ codes "GET"
unfolding printable_preview
preview_of_get = refl

blocks_of-put_blocks_example : blocks_of (put_blocks little blocks) ≡ (blocks, none)
unfolding lock_endian
blocks_of-put_blocks_example = blocks_of-put_blocks little blocks (
  (omega arith, omega arith, refl, refl, refl, λ e. cc),
  (
    (omega arith, omega arith, refl, refl, refl, λ e. cc),
    ((omega arith, omega arith, refl, refl, refl, λ e. cc), tt),
  ),
)

-- A response with one address for "a".
abbrev response : Bytes
response =
    0 ∷ 1 ∷ 0x81 ∷ 0x80 ∷ 0 ∷ 1 ∷ 0 ∷ 1 ∷ 0 ∷ 0 ∷ 0 ∷ 0 ∷ 1 ∷ b'a' ∷ 0 ∷ 0 ∷ 1 ∷ 0 ∷ 1 ∷ 0xC0 ∷ 12
    ∷ 0 ∷ 1 ∷ 0 ∷ 1 ∷ 0 ∷ 0 ∷ 0 ∷ 60 ∷ 0 ∷ 4 ∷ 10 ∷ 0 ∷ 0 ∷ 7 ∷ []

answers_of_response :
    parse_dns_address_answers response ≡ ok ((codes "a", ipv4 (10 ∷ 0 ∷ 0 ∷ 7 ∷ [])) ∷ [])
unfolding parse_dns_address_answers word16 label_kind
answers_of_response = refl

parse_dns_address_answers-AreAnswers_example :
    (name : Option Str) × (parse_dns_qname response ≡ ok name)
    × ((r : List (Str × Address)) × (parse_dns_address_answers response ≡ ok r)
        × AreAnswers (name_or_empty name) (field16 response 6) r)
parse_dns_address_answers-AreAnswers_example = parse_dns_address_answers-AreAnswers response

abbrev dest_ips_of : Outcome Escape Summary → Counter
dest_ips_of (ok s) = s.dest_ips
dest_ips_of (raised e) = []

scanned_ips :
    dest_ips_of (scan_pcap format_ipv6 clock 250_000 (ok file)) ≡ (codes "10.0.0.2", 1) ∷ []
unfolding scan_pcap
scanned_ips = refl

-- The streams of the file that mention port 53.
abbrev same : Str → Str
same s = s

abbrev all_digits : Str → Bool
all_digits s = all (λ c. leb b'0' c && leb c b'9') s

abbrev followed : List StreamMatch
followed =
    follow_streams same all_digits format_ipv6 same (read_pcapng clock file).0 (codes "53") 200 10
      500_000

followed_ports : map (λ (m : StreamMatch). m.flow.side_a.port) followed ≡ 53 ∷ []
unfolding read_pcapng follow_streams address
followed_ports = refl

follow_streams-IsFollowed_example :
    (length followed ≤ 10)
    × All
        (IsStream same all_digits format_ipv6 200
          (codes "53")
          (heard (take 500_000 (read_pcapng clock file).0)))
        (map (λ (m : StreamMatch). m.flow) followed)
    × IsSortedBy starts_before (map (λ (m : StreamMatch). m.flow) followed)
follow_streams-IsFollowed_example =
    follow_streams-IsFollowed same all_digits format_ipv6 same (read_pcapng clock file).0
      (codes "53") 200 10 500_000

abbrev sent : Parsed
sent = record {
  proto = udp;
  src = ipv4 (10 ∷ 0 ∷ 0 ∷ 1 ∷ []);
  dst = ipv4 (10 ∷ 0 ∷ 0 ∷ 2 ∷ []);
  src_port = 53;
  dst_port = 9;
  total_len = 30;
  flags = 0;
  payload = [];
}

abbrev replied : Parsed
replied = record sent { src = sent.dst; dst = sent.src; src_port = 9; dst_port = 53 }
