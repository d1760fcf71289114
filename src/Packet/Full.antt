-- ===== src/Packet/Full.antt =====
-- `_parse_frame_full` and `_extract_tcp_seq`: a frame with both addresses, the length of the IP packet
-- and the TCP flags, and the sequence number of a TCP segment.
pub mod Agrees
use zcc_analysis.Common.{ℕ, suc, ◌+◌, ◌*◌, ◌/◌, ◌%◌, ◌&&◌, ◌||◌, Option, none, some, [], drop}
use zcc_analysis.Common.{length, ltb, leb, ◌==◌, if◌then◌else◌}
use zcc_analysis.Common.Outcome.{Outcome, ok, ◌>>=◌}
use zcc_analysis.Packet.Bytes.{Bytes, Read, byte, word16, slice}
use zcc_analysis.Packet.Frames.{Protocol, tcp, udp, Address, ipv4, ipv6, skip_extensions, or_none}

-- `(proto, src_ip, dst_ip, src_port, dst_port, total_len, tcp_flags_byte, l4_payload)`
pub record Parsed : Type 0 where
  pub proto : Protocol
  pub src : Address
  pub dst : Address
  pub src_port : ℕ
  pub dst_port : ℕ
  pub total_len : ℕ
  pub flags : ℕ
  pub payload : Bytes

unfoldable pub full_tcp : Address → Address → ℕ → Bytes → Read (Option Parsed)
unfolding word16 byte
full_tcp src dst total_len l4 = do
  sport ← word16 l4 0
  dport ← word16 l4 2
  flags ← byte l4 13
  b ← byte l4 12
  let thl = b / 16 * 4
  ok (
      some (record {
        proto = tcp;
        src = src;
        dst = dst;
        src_port = sport;
        dst_port = dport;
        total_len = total_len;
        flags = flags;
        payload = if leb 20 thl && leb thl (length l4) then drop thl l4 else [];
      }))

unfoldable pub full_udp : Address → Address → ℕ → Bytes → Read (Option Parsed)
unfolding word16
full_udp src dst total_len l4 = do
  sport ← word16 l4 0
  dport ← word16 l4 2
  ok (
      some (record {
        proto = udp;
        src = src;
        dst = dst;
        src_port = sport;
        dst_port = dport;
        total_len = total_len;
        flags = 0;
        payload = drop 8 l4;
      }))

unfoldable pub full_l4 : ℕ → Address → Address → ℕ → Bytes → Read (Option Parsed)
unfolding full_tcp full_udp
full_l4 proto_num src dst total_len l4 =
    if proto_num == 6 && leb 20 (length l4)
    then full_tcp src dst total_len l4
    else if proto_num == 17 && leb 8 (length l4)
    then full_udp src dst total_len l4
    else ok none

unfoldable pub full_ipv4 : Bytes → Read (Option Parsed)
unfolding byte word16 full_l4
full_ipv4 ip = if ltb (length ip) 20 then ok none else do
  ver_ihl ← byte ip 0
  proto_num ← byte ip 9
  total_len ← word16 ip 2
  let ihl = ver_ihl % 16 * 4
  let parsed =
      full_l4 proto_num (ipv4 (slice 12 16 ip)) (ipv4 (slice 16 20 ip)) total_len (drop ihl ip)
  if ver_ihl / 16 == 4 && (leb 20 ihl && leb ihl (length ip)) then parsed else ok none

unfoldable pub full_ipv6 : Bytes → Read (Option Parsed)
unfolding byte word16 full_l4 skip_extensions
full_ipv6 ip = if ltb (length ip) 40 then ok none else do
  first ← byte ip 0
  nxt ← byte ip 6
  payload_len ← word16 ip 4
  (proto_num, l4) ← skip_extensions (suc (length ip)) nxt (drop 40 ip)
  let parsed =
      full_l4 proto_num (ipv6 (slice 8 24 ip)) (ipv6 (slice 24 40 ip)) (40 + payload_len) l4
  if first / 16 == 6 then parsed else ok none

unfoldable pub full_ethernet : Bytes → Read (Option Parsed)
unfolding word16 full_ipv4 full_ipv6
full_ethernet frame = do
  outer ← word16 frame 12
  let tagged = outer == 0x8100 && leb 18 (length frame)
  etype ← (if tagged then word16 frame 16 else ok outer)
  let ip = drop (if tagged then 18 else 14) frame
  if etype == 0x0800 then full_ipv4 ip else if etype == 0x86DD then full_ipv6 ip else ok none

unfoldable pub parse_frame_full : Bytes → Option Parsed
unfolding full_ethernet or_none
parse_frame_full frame = if ltb (length frame) 14 then none else or_none (full_ethernet frame)

-- `int.from_bytes(t[4:8], "big")`, where `t` has eight bytes or more.
unfoldable pub seq_of : Bytes → Read (Option ℕ)
unfolding word16
seq_of t =
    if ltb (length t) 8
    then ok none
    else do hi ← word16 t 4; lo ← word16 t 6; ok (some (hi * 0x10000 + lo))

unfoldable pub seq_ipv4 : Bytes → Read (Option ℕ)
unfolding byte seq_of
seq_ipv4 ip = if ltb (length ip) 20 then ok none else do
  ver_ihl ← byte ip 0
  proto_num ← byte ip 9
  let ihl = ver_ihl % 16 * 4
  let seq = seq_of (drop ihl ip)
  if proto_num == 6 && (leb 20 ihl && leb (ihl + 8) (length ip)) then seq else ok none

-- No extension header is skipped here.
unfoldable pub seq_ipv6 : Bytes → Read (Option ℕ)
unfolding byte seq_of
seq_ipv6 ip = if ltb (length ip) 40 then ok none else do
  nxt ← byte ip 6
  let seq = seq_of (drop 40 ip)
  if nxt == 6 && leb 48 (length ip) then seq else ok none

unfoldable pub seq_ethernet : Bytes → Read (Option ℕ)
unfolding word16 seq_ipv4 seq_ipv6
seq_ethernet frame = do
  outer ← word16 frame 12
  let tagged = outer == 0x8100 && leb 18 (length frame)
  etype ← (if tagged then word16 frame 16 else ok outer)
  let ip = drop (if tagged then 18 else 14) frame
  if etype == 0x0800 then seq_ipv4 ip else if etype == 0x86DD then seq_ipv6 ip else ok none

unfoldable pub extract_tcp_seq : Bytes → Option ℕ
unfolding seq_ethernet or_none
extract_tcp_seq frame = if ltb (length frame) 14 then none else or_none (seq_ethernet frame)
