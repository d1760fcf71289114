-- ===== src/Packet/Names.antt =====
-- `_parse_dns_qname` and `_dns_skip_name`: the names of a DNS message.
pub mod Bounds
use zcc_analysis.Common.{
  ℕ, zero, suc, ◌+◌, ◌-◌, ◌*◌, ◌/◌, ◌%◌, Bool, true, false, ◌&&◌, ◌||◌, Option, none, some,
}
use zcc_analysis.Common.{List, [], ◌∷◌, ◌++◌, map, length, ltb, leb, ◌==◌, if◌then◌else◌, Str}
use zcc_analysis.Common.Outcome.{Outcome, ok, raised, ◌>>=◌}
use zcc_analysis.Packet.Bytes.{Bytes, Fault, out_of_fuel, Read, byte, word16, slice}

-- A byte decoded as ASCII with `errors="replace"`, and its lower case.
unfoldable pub decode_lower : ℕ → ℕ
decode_lower c = if leb 128 c then 0xFFFD else if leb b'A' c && leb c b'Z' then c + 32 else c

-- `".".join(labels)`
unfoldable pub join_dots : List Str → Str
join_dots [] = []
join_dots (l ∷ []) = l
join_dots (l ∷ m ∷ ls) = l ++ (b'.' ∷ join_dots (m ∷ ls))

-- `s.rstrip(".")`
unfoldable pub strip_dots : Str → Str
strip_dots [] = []
strip_dots (c ∷ s) = elim (strip_dots s) [
  | [] ↦ if c == b'.' then [] else c ∷ []
  | d ∷ t ↦ c ∷ d ∷ t
]

unfoldable pub render : List Bytes → Str
unfolding decode_lower join_dots strip_dots
render labels = strip_dots (map decode_lower (join_dots labels))

-- The label that starts at an offset: the end of the name, a pointer, or a run of bytes.
pub data Label : Type 0 where
  end pointer text : Label

unfoldable pub label_kind : ℕ → Label
label_kind ln = if ln == 0 then end else if ln / 64 % 4 == 3 then pointer else text

module _ (payload : Bytes) where
  -- The loop, with `safety` rounds left; `none` where it returns `None`.
  unfoldable pub labels_from : ℕ → ℕ → Bool → Read (Option (List Bytes))
  unfolding byte
  labels_from zero o seen_ptr = ok (some [])
  labels_from (suc safety) o seen_ptr =
      let at_label = λ (ln : ℕ).
        let follow = (do
          low ← byte payload (o + 1)
          labels_from safety (ln % 64 * 256 + low) true) in
        let read : Read (Option (List Bytes)) = (do
          rest ← labels_from safety (o + 1 + ln) seen_ptr
          ok (elim rest [
            | none ↦ none
            | some ls ↦ some (slice (o + 1) (o + 1 + ln) payload ∷ ls)
          ])) in
        let out : Read (Option (List Bytes)) = elim (label_kind ln) [
          | end ↦ ok (some [])
          | pointer ↦ if seen_ptr || leb (length payload) (o + 1) then ok none else follow
          | text ↦ if ltb (length payload) (o + 1 + ln) then ok none else read
        ] in
        out in
      let inside = byte payload o >>= at_label in
      if ltb o (length payload) then inside else ok (some [])

  unfoldable pub name_of : Option (List Bytes) → Option Str
  unfolding render
  name_of none = none
  name_of (some []) = none
  name_of (some (l ∷ ls)) = some (render (l ∷ ls))

  unfoldable pub parse_dns_qname : Read (Option Str)
  unfolding labels_from name_of
  parse_dns_qname = if ltb (length payload) 12 then ok none else do
    qdcount ← word16 payload 4
    found ← (if ltb qdcount 1 then ok none else labels_from 64 12 false)
    ok (name_of found)

  -- The loop of `_dns_skip_name`, with the steps that are left.
  unfoldable pub skip_from : ℕ → ℕ → Read (Option ℕ)
  unfolding byte
  skip_from zero offset = ok none
  skip_from (suc steps) offset =
      let at_length = λ (n : ℕ).
        let on = skip_from steps (offset + (1 + n)) in
        if n == 0
        then ok (some (offset + 1))
        else if n / 64 % 4 == 3
        then ok (if ltb (offset + 1) (length payload) then some (offset + 2) else none)
        else if n / 64 % 4 == 0
        then on
        else ok none in
      let inside = byte payload offset >>= at_length in
      if ltb offset (length payload) then inside else ok none

  unfoldable pub dns_skip_name : ℕ → Read (Option ℕ)
  unfolding skip_from
  dns_skip_name offset = skip_from 128 offset
