-- ===== src/Packet/Full/Agrees.antt =====
-- The two frame parsers agree.
use zcc_analysis.Common.{
  ℕ, suc, ◌+◌, ◌*◌, ◌/◌, ◌%◌, ◌≤◌, ◌≡◌, refl, arith, Bool, true, false, ◌&&◌, ◌||◌, [], Option,
  none, some, drop, length, ltb, leb, ◌==◌, if◌then◌else◌,
}
use zcc_analysis.Common.Outcome.{ok, raised, ◌>>=◌}
use zcc_analysis.Packet.Bytes.{Bytes, Read, byte, word16, slice}
use zcc_analysis.Packet.Reads.{byte-IsRead, word16-IsRead}
use zcc_analysis.Packet.Frames.{
  Segment, Address, ipv4, ipv6, parse_tcp, parse_udp, parse_l4, parse_ipv4, skip_extensions,
  parse_ipv6, parse_ethernet, or_none, parse_frame,
}
use zcc_analysis.Packet.Full.{
  Parsed, full_tcp, full_udp, full_l4, full_ipv4, full_ipv6, full_ethernet, parse_frame_full,
}

-- What `_parse_frame` keeps of it.
abbrev pub brief : Option Parsed → Option Segment
brief none = none
brief (some p) = some (record {
  proto = p.proto;
  dst = p.dst;
  src_port = p.src_port;
  dst_port = p.dst_port;
  payload = p.payload;
})

abbrev briefly : Read (Option Parsed) → Read (Option Segment)
briefly m = m >>= λ o. ok (brief o)

if-briefly :
    (c : Bool) {m n : Read (Option Segment)} (m' n' : Read (Option Parsed))
    → (c ≡ true → m ≡ briefly m')
    → (c ≡ false → n ≡ briefly n')
    → (if c then m else n) ≡ briefly (if c then m' else n')
if-briefly true m' n' h k = h refl
if-briefly false m' n' h k = k refl

>>=-briefly :
    {A : Type 0} (m : Read A) {f : A → Read (Option Segment)} (g : A → Read (Option Parsed))
    → ((a : A) → f a ≡ briefly (g a))
    → (m >>= f) ≡ briefly (m >>= g)
>>=-briefly (ok a) g h = h a
>>=-briefly (raised e) g h = refl

tcp_payload :
    (thl : ℕ) (l4 : Bytes)
    → (if ltb thl 20 || ltb (length l4) thl then [] else drop thl l4)
      ≡ (if leb 20 thl && leb thl (length l4) then drop thl l4 else [])
tcp_payload thl l4 = ground arith

parse_tcp-brief :
    (src dst : Address) (total_len : ℕ) (l4 : Bytes)
    → 20 ≤ length l4
    → parse_tcp dst l4 ≡ briefly (full_tcp src dst total_len l4)
unfolding parse_tcp full_tcp
parse_tcp-brief src dst total_len l4 h =
    let s = word16-IsRead l4 0 (omega (arith, h)) in
    let d = word16-IsRead l4 2 (omega (arith, h)) in
    let f = byte-IsRead l4 13 (omega (arith, h)) in
    let b = byte-IsRead l4 12 (omega (arith, h)) in
    rw (s.1, d.1, f.1, b.1, tcp_payload (b.0 / 16 * 4) l4) refl

parse_l4-brief :
    (proto_num : ℕ) (src dst : Address) (total_len : ℕ) (l4 : Bytes)
    → parse_l4 proto_num dst l4 ≡ briefly (full_l4 proto_num src dst total_len l4)
unfolding parse_l4 full_l4 parse_udp full_udp
parse_l4-brief proto_num src dst total_len l4 =
    if-briefly (proto_num == 6 && leb 20 (length l4)) _ _
      (λ long. parse_tcp-brief src dst total_len l4 (ground (arith, long)))
      (λ other.
        if-briefly (proto_num == 17 && leb 8 (length l4)) _ _
          (λ e. >>=-briefly (word16 l4 0) _ (λ s. >>=-briefly (word16 l4 2) _ (λ d. refl)))
          (λ e. refl))

parse_ipv4-brief : (ip : Bytes) → parse_ipv4 ip ≡ briefly (full_ipv4 ip)
unfolding parse_ipv4 full_ipv4
parse_ipv4-brief ip =
    if-briefly (ltb (length ip) 20) _ _ (λ e. refl)
      (λ long. >>=-briefly (byte ip 0) _ (λ ver_ihl. >>=-briefly (byte ip 9) _ (λ proto_num.
        let t = word16-IsRead ip 2 (ground (arith, long)) in
        rw t.1 (
          if-briefly
            (ver_ihl / 16 == 4 && (leb 20 (ver_ihl % 16 * 4) && leb (ver_ihl % 16 * 4) (length ip)))
            _ _
            (λ e.
              parse_l4-brief proto_num (ipv4 (slice 12 16 ip)) (ipv4 (slice 16 20 ip)) t.0
                (drop (ver_ihl % 16 * 4) ip))
            (λ e. refl)))))

parse_ipv6-brief : (ip : Bytes) → parse_ipv6 ip ≡ briefly (full_ipv6 ip)
unfolding parse_ipv6 full_ipv6
parse_ipv6-brief ip =
    if-briefly (ltb (length ip) 40) _ _ (λ e. refl)
      (λ long. >>=-briefly (byte ip 0) _ (λ first. >>=-briefly (byte ip 6) _ (λ nxt.
        let t = word16-IsRead ip 4 (ground (arith, long)) in
        rw t.1 (
          >>=-briefly (skip_extensions (suc (length ip)) nxt (drop 40 ip)) _ (λ found.
            if-briefly (first / 16 == 6) _ _
              (λ e.
                parse_l4-brief found.0 (ipv6 (slice 8 24 ip)) (ipv6 (slice 24 40 ip)) (40 + t.0)
                  found.1)
              (λ e. refl))))))

parse_ethernet-brief : (frame : Bytes) → parse_ethernet frame ≡ briefly (full_ethernet frame)
unfolding parse_ethernet full_ethernet
parse_ethernet-brief frame = >>=-briefly (word16 frame 12) _ (λ outer.
    >>=-briefly (if outer == 0x8100 && leb 18 (length frame) then word16 frame 16 else ok outer) _
      (λ etype.
        if-briefly (etype == 0x0800) _ _
          (λ e.
            parse_ipv4-brief
              (drop (if outer == 0x8100 && leb 18 (length frame) then 18 else 14) frame))
          (λ e.
            if-briefly (etype == 0x86DD) _ _
              (λ e.
                parse_ipv6-brief
                  (drop (if outer == 0x8100 && leb 18 (length frame) then 18 else 14) frame))
              (λ e. refl))))

or_none-briefly : (m : Read (Option Parsed)) → or_none (briefly m) ≡ brief (or_none m)
unfolding or_none
or_none-briefly (ok o) = refl
or_none-briefly (raised e) = refl

-- On every frame `_parse_frame` gives exactly what `_parse_frame_full` gives,
-- without the source address, the length and the flags.
pub parse_frame-eq-brief : (frame : Bytes) → parse_frame frame ≡ brief (parse_frame_full frame)
unfolding parse_frame parse_frame_full
parse_frame-eq-brief frame =
    elim (ltb (length frame) 14)
      as (λ short.
        (if short then none else or_none (parse_ethernet frame))
        ≡ brief (if short then none else or_none (full_ethernet frame))) [
          | true ↦ refl
          | false ↦ rw (parse_ethernet-brief frame) (or_none-briefly (full_ethernet frame))
        ]
