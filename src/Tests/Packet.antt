-- ===== src/Tests/Packet.antt =====
-- The packet parsers on a few messages.
use zcc_analysis.Packet.Names.{label_kind}
use zcc_analysis.Packet.Bytes.{word16}
use zcc_analysis.Common.{◌+◌, ◌≡◌, refl, arith, Option, some, [], ◌∷◌, ◌++◌}
use zcc_analysis.Common.{codes}
use zcc_analysis.Common.Outcome.{ok}
use zcc_analysis.Packet.Bytes.{Bytes}
use zcc_analysis.Packet.Frames.{Segment, udp, ipv4, parse_frame, parse_ethernet}
use zcc_analysis.Packet.Frames.Total.{parse_ethernet-ends}
use zcc_analysis.Packet.Names.{parse_dns_qname}
use zcc_analysis.Packet.Endpoints.{Side, Table, count_packet}
use zcc_analysis.Packet.Endpoints.Laws.{IsBalanced, total, count_packet-IsBalanced}

-- A UDP datagram with the payload 1, 2 from port 53 to port 9 of 10.0.0.2.
abbrev ethernet : Bytes
ethernet = 0 ∷ 0 ∷ 0 ∷ 0 ∷ 0 ∷ 0 ∷ 0 ∷ 0 ∷ 0 ∷ 0 ∷ 0 ∷ 0 ∷ 8 ∷ 0 ∷ []

abbrev ip_header : Bytes
ip_header =
    0x45 ∷ 0 ∷ 0 ∷ 30 ∷ 0 ∷ 0 ∷ 0 ∷ 0 ∷ 64 ∷ 17 ∷ 0 ∷ 0 ∷ 10 ∷ 0 ∷ 0 ∷ 1 ∷ 10 ∷ 0 ∷ 0 ∷ 2 ∷ []

abbrev datagram : Bytes
datagram = 0 ∷ 53 ∷ 0 ∷ 9 ∷ 0 ∷ 10 ∷ 0 ∷ 0 ∷ 1 ∷ 2 ∷ []

abbrev pub frame : Bytes
frame = ethernet ++ ip_header ++ datagram

segment_of_frame :
    parse_frame frame
    ≡ some (record {
      proto = udp;
      dst = ipv4 (10 ∷ 0 ∷ 0 ∷ 2 ∷ []);
      src_port = 53;
      dst_port = 9;
      payload = 1 ∷ 2 ∷ [];
    })
unfolding parse_frame
segment_of_frame = refl

parse_ethernet-ends_example : (r : Option Segment) × (parse_ethernet frame ≡ ok r)
parse_ethernet-ends_example = parse_ethernet-ends frame (omega arith)

-- A query for "a.Bc".
abbrev query : Bytes
query = 0 ∷ 1 ∷ 1 ∷ 0 ∷ 0 ∷ 1 ∷ 0 ∷ 0 ∷ 0 ∷ 0 ∷ 0 ∷ 0 ∷ 1 ∷ b'a' ∷ 2 ∷ b'B' ∷ b'c' ∷ 0 ∷ 0 ∷ 1 ∷ []

name_of_query : parse_dns_qname query ≡ ok (some (codes "a.bc"))
unfolding parse_dns_qname word16 label_kind
name_of_query = refl

abbrev client : Side
client = record { ip = codes "10.0.0.1"; port = 50_000 }

abbrev server : Side
server = record { ip = codes "10.0.0.2"; port = 443 }

abbrev table : Table
table = []

count_packet-IsBalanced_example :
    IsBalanced (count_packet table (codes "a") (codes "b") 60)
    × (total (λ r. r.tx_bytes) (count_packet table (codes "a") (codes "b") 60)
        ≡ total (λ r. r.tx_bytes) table + 60)
    × (total (λ r. r.rx_bytes) (count_packet table (codes "a") (codes "b") 60)
        ≡ total (λ r. r.rx_bytes) table + 60)
    × (total (λ r. r.packets) (count_packet table (codes "a") (codes "b") 60)
        ≡ total (λ r. r.packets) table + 2)
count_packet-IsBalanced_example = count_packet-IsBalanced table (codes "a") (codes "b") 60 tt
