-- ===== src/Packet/Frames.antt =====
-- `_parse_frame`, `_parse_ipv4`, `_parse_ipv6` and `_parse_l4`: an Ethernet frame down to the payload of
-- TCP or UDP. An address is kept as its bytes.
pub mod Total
use zcc_analysis.Common.{
  ℕ, zero, suc, ◌+◌, ◌-◌, ◌*◌, ◌/◌, ◌%◌, Bool, true, false, ◌&&◌, ◌||◌, Option, none, some,
}
use zcc_analysis.Common.{List, [], ◌∷◌, drop, length, ltb, leb, ◌==◌, if◌then◌else◌}
use zcc_analysis.Common.Outcome.{Outcome, ok, raised, ◌>>=◌}
use zcc_analysis.Packet.Bytes.{Bytes, Fault, out_of_fuel, Read, byte, word16, slice}

pub data Protocol : Type 0 where
  tcp udp : Protocol

pub data Address : Type 0 where
  ipv4 ipv6 : Bytes → Address

-- `(proto, dst, src_port, dst_port, payload)`
pub record Segment : Type 0 where
  pub proto : Protocol
  pub dst : Address
  pub src_port : ℕ
  pub dst_port : ℕ
  pub payload : Bytes

unfoldable pub parse_tcp : Address → Bytes → Read (Option Segment)
unfolding word16
parse_tcp dst l4 = do
  sport ← word16 l4 0
  dport ← word16 l4 2
  b ← byte l4 12
  let thl = b / 16 * 4
  ok (
      some (record {
        proto = tcp;
        dst = dst;
        src_port = sport;
        dst_port = dport;
        payload = if ltb thl 20 || ltb (length l4) thl then [] else drop thl l4;
      }))

unfoldable pub parse_udp : Address → Bytes → Read (Option Segment)
unfolding word16
parse_udp dst l4 = do
  sport ← word16 l4 0
  dport ← word16 l4 2
  ok (
      some (record {
        proto = udp;
        dst = dst;
        src_port = sport;
        dst_port = dport;
        payload = drop 8 l4;
      }))

unfoldable pub parse_l4 : ℕ → Address → Bytes → Read (Option Segment)
unfolding parse_tcp parse_udp
parse_l4 proto_num dst l4 =
    if proto_num == 6 && leb 20 (length l4)
    then parse_tcp dst l4
    else if proto_num == 17 && leb 8 (length l4)
    then parse_udp dst l4
    else ok none

unfoldable pub parse_ipv4 : Bytes → Read (Option Segment)
unfolding byte parse_l4
parse_ipv4 buf = if ltb (length buf) 20 then ok none else do
  ver_ihl ← byte buf 0
  proto ← byte buf 9
  let ihl = ver_ihl % 16 * 4
  let segment = parse_l4 proto (ipv4 (slice 16 20 buf)) (drop ihl buf)
  if ver_ihl / 16 == 4 && (leb 20 ihl && leb ihl (length buf)) then segment else ok none

-- The extension headers that are skipped.
unfoldable pub is_extension : ℕ → Bool
is_extension nxt = nxt == 0 || (nxt == 43 || (nxt == 44 || (nxt == 50 || (nxt == 51 || nxt == 60))))

-- The `while` loop: the protocol and what is left behind the extension headers.
unfoldable pub skip_extensions : ℕ → ℕ → Bytes → Read (ℕ × Bytes)
unfolding is_extension byte
skip_extensions zero nxt l4 = raised out_of_fuel
skip_extensions (suc fuel) nxt l4 =
    let more = (do
      next ← byte l4 0
      units ← byte l4 1
      skip_extensions fuel next (drop ((units + 1) * 8) l4)) in
    if is_extension nxt && leb 2 (length l4) then more else ok (nxt, l4)

unfoldable pub parse_ipv6 : Bytes → Read (Option Segment)
unfolding byte parse_l4 skip_extensions
parse_ipv6 buf = if ltb (length buf) 40 then ok none else do
  first ← byte buf 0
  nxt ← byte buf 6
  (proto, l4) ← skip_extensions (suc (length buf)) nxt (drop 40 buf)
  if first / 16 == 6 then parse_l4 proto (ipv6 (slice 24 40 buf)) l4 else ok none

-- The Ethernet header, with or without a VLAN tag.
unfoldable pub parse_ethernet : Bytes → Read (Option Segment)
unfolding word16 parse_ipv4 parse_ipv6
parse_ethernet frame = do
  outer ← word16 frame 12
  let tagged = outer == 0x8100 && leb 18 (length frame)
  etype ← (if tagged then word16 frame 16 else ok outer)
  let body = drop (if tagged then 18 else 14) frame
  if etype == 0x0800 then parse_ipv4 body else if etype == 0x86DD then parse_ipv6 body else ok none

-- `except Exception: return None`
unfoldable pub or_none {ℓ} : {A : Type ℓ} → Read (Option A) → Option A
or_none (ok r) = r
or_none (raised e) = none

unfoldable pub parse_frame : Bytes → Option Segment
unfolding parse_ethernet or_none
parse_frame frame = if ltb (length frame) 14 then none else or_none (parse_ethernet frame)
