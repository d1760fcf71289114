-- ===== src/Packet/Blocks.antt =====
-- `_iter_blocks`, `_parse_interface_description` and `_read_pcapng`: the blocks of a capture file and the
-- packets in them. A generator is the list of what it yields and the exception that ends it, if any.
pub mod Options
pub mod Total
pub mod RoundTrip
pub mod Ends
use zcc_analysis.Common.{ℕ, zero, suc, ◌+◌, ◌-◌, ◌*◌, ◌/◌, ◌%◌, ◌^◌, Bool, true, false, ◌&&◌, ◌||◌}
use zcc_analysis.Common.{Option, none, some, List, [], ◌∷◌, take, drop, length, get_elem?, ◌++◌}
use zcc_analysis.Common.{ltb, leb, ◌==◌, if◌then◌else◌}
use zcc_analysis.Common.Outcome.{Outcome, ok, raised, ◌>>=◌}
use zcc_analysis.Packet.Bytes.{Bytes, Fault, index_error, out_of_fuel, Read, byte, slice}

pub data Endian : Type 0 where
  little big : Endian

-- `int.from_bytes(b, "little")` and `int.from_bytes(b, "big")`
unfoldable pub from_little : Bytes → ℕ
from_little [] = 0
from_little (x ∷ b) = x + 256 * from_little b

unfoldable pub from_big : ℕ → Bytes → ℕ
from_big acc [] = acc
from_big acc (x ∷ b) = from_big (acc * 256 + x) b

unfoldable pub from_bytes : Endian → Bytes → ℕ
unfolding from_little from_big
from_bytes little b = from_little b
from_bytes big b = from_big 0 b

pub record Block : Type 0 where
  pub btype : ℕ
  pub body : Bytes
  pub endian : Endian

-- The `ValueError`s of `_iter_blocks`.
pub data BlockError : Type 0 where
  truncated_header implausible truncated_body missing_trailer : BlockError

-- What `datetime.fromtimestamp` may raise: ValueError, OSError or OverflowError.
pub data ClockError : Type 0 where
  bad_value os_error overflow : ClockError

-- What ends a generator before its file does.
pub data Stop : Type 0 where
  value_error : BlockError → Stop
  fault : Fault → Stop
  clock_error : ClockError → Stop

-- `12 <= blen <= 64 * 1024 * 1024 and blen % 4 == 0`
unfoldable pub plausible : ℕ → Bool
plausible blen = leb 12 blen && (leb blen 0x4000000 && blen % 4 == 0)

-- The type and length of a block and the byte order after its header: as little-endian numbers if
-- the length is plausible, or else as big-endian ones.
unfoldable pub header_of : Endian → Bytes → Option (ℕ × ℕ × Endian)
unfolding from_bytes plausible
header_of endian hdr =
    if plausible (from_bytes little (slice 4 8 hdr))
    then some (from_bytes little (take 4 hdr), from_bytes little (slice 4 8 hdr), endian)
    else if plausible (from_bytes big (slice 4 8 hdr))
    then some (from_bytes big (take 4 hdr), from_bytes big (slice 4 8 hdr), big)
    else none

abbrev pub section_header : ℕ
section_header = 0x0A0D0D0A

abbrev pub interface_desc : ℕ
interface_desc = 1

abbrev pub enhanced_packet : ℕ
enhanced_packet = 6

abbrev pub bom_le : ℕ
bom_le = 0x1A2B3C4D

abbrev pub bom_be : ℕ
bom_be = 0x4D3C2B1A

-- The byte order after the body of a block: a section header may change it.
unfoldable pub lock_endian : ℕ → Bytes → Endian → Endian
unfolding from_bytes
lock_endian btype body endian =
    if btype == section_header && leb 4 (length body)
    then (if from_bytes little (take 4 body) == bom_le
        then little
        else if from_bytes little (take 4 body) == bom_be
        then big
        else endian)
    else endian

abbrev pub Yielded {ℓ} : Type ℓ → Type ℓ
Yielded A = List A × Option Stop

abbrev pub stop {ℓ} : {A : Type ℓ} → Stop → Yielded A
stop e = ([], some e)

abbrev pub give {ℓ} : {A : Type ℓ} → A → Yielded A → Yielded A
give a rest = (a ∷ rest.0, rest.1)

-- What follows the header of a block, with the next rounds of the loop as a parameter.
unfoldable pub read_body : (Endian → Bytes → Yielded Block) → ℕ → ℕ → Endian → Bytes → Yielded Block
unfolding lock_endian
read_body more btype blen order fp =
    let body = take (blen - 12) fp in
    let after = drop (blen - 12) fp in
    let locked = lock_endian btype body order in
    let rest = more locked (drop 4 after) in
    if ltb (length body) (blen - 12)
    then stop (value_error truncated_body)
    else if ltb (length after) 4
    then stop (value_error missing_trailer)
    else give (record { btype = btype; body = body; endian = locked }) rest

-- The loop: `fp` is what the file has left, `endian` the byte order so far.
unfoldable pub iter_blocks : ℕ → Endian → Bytes → Yielded Block
unfolding header_of read_body
iter_blocks fuel endian [] = ([], none)
iter_blocks zero endian (x ∷ fp) = stop (fault out_of_fuel)
iter_blocks (suc fuel) endian (x ∷ fp) =
    if ltb (length (take 8 (x ∷ fp))) 8
    then stop (value_error truncated_header)
    else elim (header_of endian (take 8 (x ∷ fp))) [
      | none ↦ stop (value_error implausible)
      | some (btype, blen, order) ↦ read_body (iter_blocks fuel) btype blen order (drop 7 fp)
    ]

-- A file has fewer blocks than bytes.
unfoldable pub blocks_of : Bytes → Yielded Block
unfolding iter_blocks
blocks_of fp = iter_blocks (length fp) little fp

-- The ticks for a second that the byte of an `if_tsresol` option stands for.
unfoldable pub resolution : ℕ → ℕ
resolution v = if leb 128 v then 2 ^ (v - 128) else 10 ^ v

-- The loop over the options at the offset `o`.
unfoldable pub options_from : ℕ → Endian → Bytes → ℕ → ℕ → Read ℕ
unfolding from_bytes byte resolution
options_from zero endian body o ticks = raised out_of_fuel
options_from (suc fuel) endian body o ticks =
    let code = from_bytes endian (slice o (o + 2) body) in
    let len = from_bytes endian (slice (o + 2) (o + 4) body) in
    let next = o + 4 + (len + 3) / 4 * 4 in
    let plain = options_from fuel endian body next ticks in
    let resolved = byte body (o + 4) >>= λ v. options_from fuel endian body next (resolution v) in
    if leb (o + 4) (length body)
    then (if code == 0 then ok ticks else if code == 9 && leb 1 len then resolved else plain)
    else ok ticks

unfoldable pub parse_interface_description : Bytes → Endian → Read ℕ
unfolding options_from
parse_interface_description body endian =
    if ltb (length body) 8
    then ok 1_000_000
    else options_from (suc (length body)) endian body 8 1_000_000

-- A captured frame and its time.
pub record Captured : Type 0 where
  pub ts : ℕ
  pub frame : Bytes

-- `datetime.fromtimestamp(ts_ticks / ticks, tz=timezone.utc)`
module _ (fromtimestamp : ℕ → ℕ → Outcome ClockError ℕ) where
  unfoldable pub captured : List ℕ → Block → Outcome ClockError Captured
  unfolding from_bytes
  captured if_ticks b =
      let word = λ (i : ℕ). from_bytes b.endian (slice i (i + 4) b.body) in
      let ticks : ℕ = elim (get_elem? if_ticks (word 0)) [ some t ↦ t | none ↦ 1_000_000 ] in
      elim (fromtimestamp (word 4 * 2 ^ 32 + word 8) ticks) [
        | raised e ↦ raised e
        | ok ts ↦ ok (record { ts = ts; frame = slice 20 (20 + word 12) b.body })
      ]

  -- The loop over the blocks; `end` is how `_iter_blocks` ends.
  unfoldable pub packets_of : Option Stop → List ℕ → List Block → Yielded Captured
  unfolding parse_interface_description captured
  packets_of end if_ticks [] = ([], end)
  packets_of end if_ticks (b ∷ bs) =
      let skipped = packets_of end if_ticks bs in
      if b.btype == interface_desc
      then elim (parse_interface_description b.body b.endian) [
        | raised e ↦ stop (fault e)
        | ok ticks ↦ packets_of end (if_ticks ++ ticks ∷ []) bs
      ]
      else if b.btype == enhanced_packet && leb 20 (length b.body)
      then elim (captured if_ticks b) [ raised e ↦ stop (clock_error e) | ok c ↦ give c skipped ]
      else skipped

  unfoldable pub read_pcapng : Bytes → Yielded Captured
  unfolding blocks_of packets_of
  read_pcapng fp = packets_of (blocks_of fp).1 [] (blocks_of fp).0
