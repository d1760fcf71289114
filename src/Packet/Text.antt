-- ===== src/Packet/Text.antt =====
-- The texts that the packet reader makes: decimal numbers, addresses, endpoints, TCP flags and the
-- printable preview of a payload.
pub mod Preview
use zcc_analysis.Common.{
  ℕ, zero, suc, ◌+◌, ◌-◌, ◌*◌, ◌/◌, ◌%◌, Bool, ◌&&◌, ◌||◌, List, [], ◌∷◌, ◌++◌,
}
use zcc_analysis.Common.{Str, codes, take, ltb, leb, ◌==◌, if◌then◌else◌}
use zcc_analysis.Packet.Bytes.{Bytes}
use zcc_analysis.Packet.Frames.{Protocol, tcp, udp, Address, ipv4, ipv6}

-- `str(n)`; a number has fewer digits than its value and one.
unfoldable pub digits : ℕ → ℕ → Str → Str
digits zero n tail = tail
digits (suc fuel) n tail =
    let more = digits fuel (n / 10) ((b'0' + n % 10) ∷ tail) in
    if ltb n 10 then (b'0' + n) ∷ tail else more

unfoldable pub decimal : ℕ → Str
unfolding digits
decimal n = digits (suc n) n []

-- `".".join(str(b) for b in raw)`
unfoldable pub dotted : Bytes → Str
unfolding decimal
dotted [] = []
dotted (b ∷ []) = decimal b
dotted (b ∷ c ∷ raw) = decimal b ++ b'.' ∷ dotted (c ∷ raw)

-- The text of an address; that of an IPv6 address comes from the ipaddress module.
unfoldable pub address : (Bytes → Str) → Address → Str
unfolding dotted
address format_ipv6 (ipv4 raw) = dotted raw
address format_ipv6 (ipv6 raw) = format_ipv6 raw

unfoldable pub proto_name : Protocol → Str
proto_name tcp = codes "tcp"
proto_name udp = codes "udp"

-- `f"{ip}:{proto}/{port}"`
unfoldable pub endpoint : Str → Protocol → ℕ → Str
unfolding proto_name decimal
endpoint ip proto port = ip ++ b':' ∷ (proto_name proto ++ b'/' ∷ decimal port)

-- `flags & (1 << k)`, for the value `b` of the bit.
abbrev pub has_bit : ℕ → ℕ → Bool
has_bit flags b = flags / b % 2 == 1

unfoldable pub flag : Bool → Str → List Str
flag set name = if set then name ∷ [] else []

unfoldable pub join_spaces : List Str → Str
join_spaces [] = []
join_spaces (p ∷ []) = p
join_spaces (p ∷ q ∷ ps) = p ++ b' ' ∷ join_spaces (q ∷ ps)

unfoldable pub format_tcp_flags : ℕ → Str
unfolding flag join_spaces
format_tcp_flags flags =
    if flags == 0
    then []
    else join_spaces (
        flag (has_bit flags 2) (codes "SYN")
        ++ flag (has_bit flags 16) (codes "ACK")
        ++ flag (has_bit flags 8) (codes "PSH")
        ++ flag (has_bit flags 1) (codes "FIN")
        ++ flag (has_bit flags 4) (codes "RST")
        ++ flag (has_bit flags 32) (codes "URG"))

-- The character that a byte is shown as.
unfoldable pub shown : ℕ → ℕ
shown b = if leb 32 b && ltb b 127 then b else if b == 9 || (b == 10 || b == 13) then b' ' else b'.'

-- The loop, with the room that is left: one byte at least is shown.
unfoldable pub show_bytes : ℕ → Bytes → Str
unfolding shown
show_bytes room [] = []
show_bytes room (b ∷ bs) =
    let rest = show_bytes (room - 1) bs in shown b ∷ (if leb room 1 then [] else rest)

-- `s.rstrip()`, of a text whose only white space is the space.
unfoldable pub strip_spaces : Str → Str
strip_spaces [] = []
strip_spaces (c ∷ s) = elim (strip_spaces s) [
  | [] ↦ if c == b' ' then [] else c ∷ []
  | d ∷ t ↦ c ∷ d ∷ t
]

unfoldable pub printable_preview : Bytes → ℕ → Str
unfolding show_bytes strip_spaces
printable_preview payload limit = strip_spaces (show_bytes limit (take (limit * 2) payload))
