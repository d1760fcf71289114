-- ===== src/Packet/Streams.antt =====
-- `follow_streams`: the flows of a capture, and those of them that a query matches.
pub mod Keys
pub mod Flows
pub mod Touch
pub mod Laws
use zcc_analysis.Common.{
  ℕ, zero, suc, ◌+◌, ◌-◌, Bool, true, false, ◌&&◌, ◌||◌, Option, none, some, List, [], ◌∷◌, ◌++◌,
  take, length, ltb, leb, ◌==◌, if◌then◌else◌, Str, str_eq, starts_with, contains, codes,
}
use zcc_analysis.Common.Sorting.{sort_by}
use zcc_analysis.Packet.Bytes.{Bytes, slice}
use zcc_analysis.Packet.Frames.{Protocol, tcp, udp}
use zcc_analysis.Packet.Full.{Parsed, parse_frame_full}
use zcc_analysis.Packet.Blocks.{Captured}
use zcc_analysis.Packet.Text.{address, decimal, format_tcp_flags, printable_preview}
use zcc_analysis.Packet.Endpoints.{Side, side_le}

-- `forward` is the direction "->", from the first side to the second.
pub record StreamPacket : Type 0 where
  pub ts : ℕ
  pub forward : Bool
  pub src : Side
  pub dst : Side
  pub proto : Protocol
  pub length : ℕ
  pub tcp_flags : Str
  pub payload_preview : Str

-- What a query matched.
pub data Hit : Type 0 where
  by_ip : Str → Str → Hit
  by_port : ℕ → ℕ → Hit
  by_payload : Str → Hit

-- A flow with its key; `matched_by` is none for a flow outside `matched_flows`.
pub record Flow : Type 0 where
  pub proto : Protocol
  pub side_a : Side
  pub side_b : Side
  pub first_ts : ℕ
  pub last_ts : ℕ
  pub packet_count : ℕ
  pub bytes_total : ℕ
  pub packets : List StreamPacket
  pub matched_by : Option Hit

pub record StreamMatch : Type 0 where
  pub stream_id : ℕ
  pub flow : Flow

-- `sorted([a, b])`
unfoldable pub canonical : Side → Side → Side × Side
unfolding side_le
canonical a b = if side_le a b then (a, b) else (b, a)

unfoldable pub side_eq : Side → Side → Bool
unfolding str_eq
side_eq a b = str_eq a.ip b.ip && a.port == b.port

unfoldable pub proto_eq : Protocol → Protocol → Bool
proto_eq tcp tcp = true
proto_eq udp udp = true
proto_eq _ _ = false

-- `text.find(q)`, of a text that contains `q`.
unfoldable pub find : Str → Str → ℕ
unfolding starts_with
find q [] = 0
find q (c ∷ text) = let rest = find q text in if starts_with (c ∷ text) q then 0 else suc rest

-- `str.lower`, `str.isdigit` and `_format_ipv6` are Python's.
module _ (lower : Str → Str) (is_digits : Str → Bool) (format_ipv6 : Bytes → Str) where
  abbrev pub src_side : Parsed → Side
  src_side p = record { ip = address format_ipv6 p.src; port = p.src_port }

  abbrev pub dst_side : Parsed → Side
  dst_side p = record { ip = address format_ipv6 p.dst; port = p.dst_port }

  unfoldable pub payload_hit : Str → Bytes → Option Hit
  unfolding printable_preview contains find
  payload_hit q payload =
      let preview = printable_preview payload 300 in
      let i = find q (lower preview) in
      if contains q (lower preview)
      then some (by_payload (slice (i - 20) (i + length q + 20) preview))
      else none

  -- How a packet matches the query.
  unfoldable pub hit : Str → Parsed → Option Hit
  unfolding contains str_eq decimal payload_hit
  hit q p =
      let src = address format_ipv6 p.src in
      let dst = address format_ipv6 p.dst in
      if contains q (lower src) || contains q (lower dst)
      then some (by_ip src dst)
      else if is_digits q && (str_eq q (decimal p.src_port) || str_eq q (decimal p.dst_port))
      then some (by_port p.src_port p.dst_port)
      else payload_hit q p.payload

  unfoldable pub packet_of : ℕ → Parsed → Side → StreamPacket
  unfolding side_eq format_tcp_flags printable_preview
  packet_of ts p side_a = record {
    ts = ts;
    forward = side_eq (src_side p) side_a;
    src = src_side p;
    dst = dst_side p;
    proto = p.proto;
    length = p.total_len;
    tcp_flags = format_tcp_flags p.flags;
    payload_preview = printable_preview p.payload 60;
  }

  unfoldable pub or_hit : Option Hit → Str → Parsed → Option Hit
  unfolding hit
  or_hit none q p = hit q p
  or_hit (some h) q p = some h

  -- A packet on its flow; at most `cap` packets are kept.
  unfoldable pub on_flow : ℕ → Str → ℕ → Parsed → Flow → Flow
  unfolding or_hit packet_of
  on_flow cap q ts p f = record f {
    last_ts = ts;
    packet_count = f.packet_count + 1;
    bytes_total = f.bytes_total + p.total_len;
    packets =
        if ltb (length f.packets) cap then f.packets ++ packet_of ts p f.side_a ∷ [] else f.packets;
    matched_by = or_hit f.matched_by q p;
  }

  unfoldable pub new_flow : ℕ → Parsed → Flow
  unfolding canonical
  new_flow ts p = record {
    proto = p.proto;
    side_a = (canonical (src_side p) (dst_side p)).0;
    side_b = (canonical (src_side p) (dst_side p)).1;
    first_ts = ts;
    last_ts = ts;
    packet_count = 0;
    bytes_total = 0;
    packets = [];
    matched_by = none;
  }

  -- Whether a flow has the key of a packet.
  unfoldable pub is_flow_of : Parsed → Flow → Bool
  unfolding proto_eq side_eq canonical
  is_flow_of p f =
      let key = canonical (src_side p) (dst_side p) in
      proto_eq f.proto p.proto && (side_eq f.side_a key.0 && side_eq f.side_b key.1)

  -- `flows`, in the order of their first packets.
  unfoldable pub touch : ℕ → Str → ℕ → Parsed → List Flow → List Flow
  unfolding on_flow new_flow is_flow_of
  touch cap q ts p [] = on_flow cap q ts p (new_flow ts p) ∷ []
  touch cap q ts p (f ∷ flows) =
      let rest = touch cap q ts p flows in
      if is_flow_of p f then on_flow cap q ts p f ∷ flows else f ∷ rest

  -- The loop over the packets.
  unfoldable pub flows_from : ℕ → Str → List Captured → List Flow → List Flow
  unfolding parse_frame_full touch
  flows_from cap q [] flows = flows
  flows_from cap q (c ∷ cs) flows = elim (parse_frame_full c.frame) [
    | none ↦ flows_from cap q cs flows
    | some p ↦ flows_from cap q cs (touch cap q c.ts p flows)
  ]

-- The flows that matched.
unfoldable pub matched : List Flow → List Flow
matched [] = []
matched (f ∷ flows) = elim f.matched_by [ none ↦ matched flows | some h ↦ f ∷ matched flows ]

abbrev pub starts_before : Flow → Flow → Bool
starts_before f g = leb f.first_ts g.first_ts

-- `enumerate`, from `i` on.
unfoldable pub numbered : ℕ → List Flow → List StreamMatch
numbered i [] = []
numbered i (f ∷ flows) = record { stream_id = i; flow = f } ∷ numbered (suc i) flows

-- `read` is what `_read_pcapng` yields before it ends or raises; `strip_lower` is
-- `query.strip().lower()`. Flows that start at one time stay in the order of their first packets, where
-- the program has the order of a set.
unfoldable pub follow_streams :
    (Str → Str)
    → (Str → Bool)
    → (Bytes → Str)
    → (Str → Str)
    → List Captured
    → Str
    → ℕ
    → ℕ
    → ℕ
    → List StreamMatch
unfolding flows_from matched sort_by numbered
follow_streams lower is_digits format_ipv6 strip_lower read query cap max_streams
      max_packets_scanned =
    let q = strip_lower query in
    let flows = flows_from lower is_digits format_ipv6 cap q (take max_packets_scanned read) [] in
    if length q == 0
    then []
    else numbered 0 (take max_streams (sort_by starts_before (matched flows)))
