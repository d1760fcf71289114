-- ===== src/Packet/Frames/Total.antt =====
-- Every guard of the frame parsers comes before the bytes it protects.
use zcc_analysis.Common.{
  ℕ, zero, suc, ◌+◌, ◌*◌, ◌/◌, ◌%◌, ◌≤◌, ◌<◌, ◌≡◌, arith, ◌&&◌, Option, none, if◌then◌else◌, length,
  length-drop, drop, ltb, leb, ◌==◌,
}
use zcc_analysis.Common.Outcome.{ok}
use zcc_analysis.Packet.Bytes.{Bytes, byte, word16, slice}
use zcc_analysis.Packet.Reads.{IsRead, ok-IsRead, >>=-IsRead, if-IsRead, byte-IsRead, word16-IsRead}
use zcc_analysis.Packet.Frames.{
  Address, ipv4, ipv6, Segment, parse_tcp, parse_udp, parse_l4, parse_ipv4, is_extension,
  skip_extensions, parse_ipv6, parse_ethernet,
}

parse_l4-IsRead : (proto : ℕ) (dst : Address) (l4 : Bytes) → IsRead (parse_l4 proto dst l4)
unfolding parse_l4 parse_tcp parse_udp
parse_l4-IsRead proto dst l4 =
    if-IsRead (proto == 6 && leb 20 (length l4)) _ _
      (λ long. >>=-IsRead (word16 l4 0) _ (word16-IsRead l4 0 (ground (arith, long))) (λ sport.
        >>=-IsRead (word16 l4 2) _ (word16-IsRead l4 2 (ground (arith, long))) (λ dport.
          >>=-IsRead (byte l4 12) _ (byte-IsRead l4 12 (ground (arith, long))) (λ b. ok-IsRead _))))
      (λ other.
        if-IsRead (proto == 17 && leb 8 (length l4)) _ _
          (λ long. >>=-IsRead (word16 l4 0) _ (word16-IsRead l4 0 (ground (arith, long))) (λ sport.
            >>=-IsRead (word16 l4 2) _ (word16-IsRead l4 2 (ground (arith, long)))
              (λ dport. ok-IsRead _)))
          (λ e. ok-IsRead none))

parse_ipv4-IsRead : (buf : Bytes) → IsRead (parse_ipv4 buf)
unfolding parse_ipv4
parse_ipv4-IsRead buf =
    if-IsRead (ltb (length buf) 20) _ _ (λ short. ok-IsRead none)
      (λ long. >>=-IsRead (byte buf 0) _ (byte-IsRead buf 0 (ground (arith, long))) (λ ver_ihl.
        >>=-IsRead (byte buf 9) _ (byte-IsRead buf 9 (ground (arith, long))) (λ proto.
          if-IsRead
            (ver_ihl / 16 == 4
              && (leb 20 (ver_ihl % 16 * 4) && leb (ver_ihl % 16 * 4) (length buf)))
            _ _ (λ e. parse_l4-IsRead proto (ipv4 (slice 16 20 buf)) (drop (ver_ihl % 16 * 4) buf))
            (λ e. ok-IsRead none))))

-- Each extension header is at least eight bytes, so as many rounds as there are bytes are enough.
skip_extensions-IsRead :
    (fuel nxt : ℕ) (l4 : Bytes) → length l4 < fuel → IsRead (skip_extensions fuel nxt l4)
unfolding skip_extensions
skip_extensions-IsRead zero nxt l4 h = elim h [ ]
skip_extensions-IsRead (suc fuel) nxt l4 h =
    if-IsRead (is_extension nxt && leb 2 (length l4)) _ _
      (λ more. >>=-IsRead (byte l4 0) _ (byte-IsRead l4 0 (ground (arith, more))) (λ next.
        >>=-IsRead (byte l4 1) _ (byte-IsRead l4 1 (ground (arith, more))) (λ units.
          skip_extensions-IsRead fuel next (drop ((units + 1) * 8) l4)
            (shorter units (ground (arith, more))))))
      (λ e. ok-IsRead (nxt, l4))
  where
    shorter : (units : ℕ) → 2 ≤ length l4 → length (drop ((units + 1) * 8) l4) < fuel
    shorter units two = omega (arith, length-drop ((units + 1) * 8) l4, h, two)

parse_ipv6-IsRead : (buf : Bytes) → IsRead (parse_ipv6 buf)
unfolding parse_ipv6
parse_ipv6-IsRead buf =
    if-IsRead (ltb (length buf) 40) _ _ (λ short. ok-IsRead none)
      (λ long. >>=-IsRead (byte buf 0) _ (byte-IsRead buf 0 (ground (arith, long))) (λ first.
        >>=-IsRead (byte buf 6) _ (byte-IsRead buf 6 (ground (arith, long))) (λ nxt.
          >>=-IsRead (skip_extensions (suc (length buf)) nxt (drop 40 buf)) _
            (skip_extensions-IsRead (suc (length buf)) nxt (drop 40 buf)
              (omega (arith, length-drop 40 buf)))
            (λ found.
              if-IsRead (first / 16 == 6) _ _
                (λ e. parse_l4-IsRead found.0 (ipv6 (slice 24 40 buf)) found.1)
                (λ e. ok-IsRead none)))))

-- A frame of at least the 14 bytes of an Ethernet header is parsed without an
-- exception, whatever its bytes: no guard of the IPv4, IPv6, TCP and UDP
-- parsers is missing, and skipping the extension headers of IPv6 ends.
pub parse_ethernet-ends :
    (frame : Bytes) → 14 ≤ length frame → (r : Option Segment) × (parse_ethernet frame ≡ ok r)
unfolding parse_ethernet
parse_ethernet-ends frame h =
    >>=-IsRead (word16 frame 12) _ (word16-IsRead frame 12 (omega (arith, h))) (λ outer.
      >>=-IsRead (if outer == 0x8100 && leb 18 (length frame) then word16 frame 16 else ok outer) _
        (if-IsRead (outer == 0x8100 && leb 18 (length frame)) _ _
          (λ tagged. word16-IsRead frame 16 (ground (arith, tagged))) (λ e. ok-IsRead outer))
        (λ etype.
          if-IsRead (etype == 0x0800) _ _
            (λ e.
              parse_ipv4-IsRead
                (drop (if outer == 0x8100 && leb 18 (length frame) then 18 else 14) frame))
            (λ e.
              if-IsRead (etype == 0x86DD) _ _
                (λ e.
                  parse_ipv6-IsRead
                    (drop (if outer == 0x8100 && leb 18 (length frame) then 18 else 14) frame))
                (λ e. ok-IsRead none))))
