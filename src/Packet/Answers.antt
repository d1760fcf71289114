-- ===== src/Packet/Answers.antt =====
-- `_parse_dns_response` and `_parse_dns_address_answers`: what a DNS response says.
pub mod Sound
use zcc_analysis.Common.{
  ℕ, zero, suc, ◌+◌, ◌/◌, ◌%◌, Bool, ◌&&◌, ◌||◌, Option, none, some, List, [], ◌∷◌, length, ltb,
  leb, ◌==◌, if◌then◌else◌, Str,
}
use zcc_analysis.Common.Outcome.{Outcome, ok, ◌>>=◌}
use zcc_analysis.Packet.Bytes.{Bytes, Read, byte, slice}
use zcc_analysis.Packet.Frames.{Address, ipv4, ipv6}
use zcc_analysis.Packet.Blocks.{big, from_bytes}
use zcc_analysis.Packet.Names.{parse_dns_qname, dns_skip_name}

-- `_parse_dns_qname(payload) or ""`
unfoldable pub name_or_empty : Option Str → Str
name_or_empty none = []
name_or_empty (some s) = s

-- The address of a record, of a type and class, in its data.
unfoldable pub address_of : ℕ → ℕ → Bytes → Option Address
address_of rtype rclass rdata =
    if rclass == 1 && (rtype == 1 && length rdata == 4)
    then some (ipv4 rdata)
    else if rclass == 1 && (rtype == 28 && length rdata == 16)
    then some (ipv6 rdata)
    else none

unfoldable pub add_answer : Str → Option Address → List (Str × Address) → List (Str × Address)
add_answer [] a rest = rest
add_answer (c ∷ s) none rest = rest
add_answer (c ∷ s) (some a) rest = (c ∷ s, a) ∷ rest

module _ (payload : Bytes) where
  unfoldable pub parse_dns_response : Read (Option (ℕ × Str))
  unfolding byte parse_dns_qname name_or_empty
  parse_dns_response = if ltb (length payload) 12 then ok none else do
    qr ← byte payload 2
    code ← byte payload 3
    qname ← parse_dns_qname payload
    ok (if qr / 128 % 2 == 0 then none else some (code % 16, name_or_empty qname))

  -- `int.from_bytes(payload[i:i + 2], "big")`
  unfoldable pub field16 : ℕ → ℕ
  unfolding from_bytes
  field16 i = from_bytes big (slice i (i + 2) payload)

  -- The offset behind the questions that are left.
  unfoldable pub skip_questions : ℕ → ℕ → Read (Option ℕ)
  unfolding dns_skip_name
  skip_questions zero offset = ok (some offset)
  skip_questions (suc left) offset = dns_skip_name payload offset >>= λ found. elim found [
    | none ↦ ok none
    | some o ↦
        let more = skip_questions left (o + 4) in
        if ltb (length payload) (o + 4) then ok none else more
  ]

  -- The answers of the records that are left, from the offset of the next one.
  unfoldable pub answers_from : Str → ℕ → ℕ → Read (List (Str × Address))
  unfolding dns_skip_name field16 address_of add_answer
  answers_from qname zero offset = ok []
  answers_from qname (suc left) offset = dns_skip_name payload offset >>= λ found. elim found [
    | none ↦ ok []
    | some o ↦
        let rdlen = field16 (o + 8) in
        let rdata = slice (o + 10) (o + 10 + rdlen) payload in
        let more = (do
          rest ← answers_from qname left (o + 10 + rdlen)
          ok (add_answer qname (address_of (field16 o) (field16 (o + 2)) rdata) rest)) in
        if ltb (length payload) (o + 10) || ltb (length payload) (o + 10 + rdlen)
        then ok []
        else more
  ]

  unfoldable pub parse_dns_address_answers : Read (List (Str × Address))
  unfolding byte field16 parse_dns_qname name_or_empty skip_questions answers_from
  parse_dns_address_answers = if ltb (length payload) 12 then ok [] else do
    qr ← byte payload 2
    qname ← parse_dns_qname payload
    start ← skip_questions (field16 4) 12
    let answers : Read (List (Str × Address)) = elim start [
      | none ↦ ok []
      | some offset ↦ answers_from (name_or_empty qname) (field16 6) offset
    ]
    if qr / 128 % 2 == 0 then ok [] else answers
