-- ===== src/Packet/Scan/Laws.antt =====
-- How a scan ends, and the sums of what it returns.

use zcc_analysis.Common.{◌≡◌, Option, none, some, List, [], ◌∷◌, length, ◌⊎◌}
use zcc_analysis.Common.Outcome.{Outcome, ok, raised}
use zcc_analysis.Packet.Bytes.{Bytes, index_error}
use zcc_analysis.Packet.Full.{parse_frame_full}
use zcc_analysis.Packet.Blocks.{Captured, overflow, Stop, fault, clock_error}
use zcc_analysis.Packet.Summary.{Summary}
use zcc_analysis.Packet.Signals.Sums.{IsSound, Tally, unparsed_one, parsed_one}
use zcc_analysis.Packet.Scan.{Escape, escaped, overflow_error}

abbrev pub count_one : Captured → Tally → Tally
count_one c n = elim (parse_frame_full c.frame) [
  | none ↦ unparsed_one n
  | some p ↦ parsed_one (length c.frame) p n
]

-- The tally of a list of packets, added to `n`.
abbrev pub tally : Tally → List Captured → Tally
tally n [] = n
tally n (c ∷ cs) = tally (count_one c n) cs

abbrev pub nothing : Tally
nothing = record { packets = 0; parsed = 0; ip_bytes = 0; frame_bytes = 0 }

-- The exception `e` is the one that ended the generator, an IndexError or an OverflowError, and no
-- `except` clause takes it.
abbrev pub IsEscape : Escape → Option Stop → Type 0
IsEscape (escaped f) end = (f ≡ index_error) × (end ≡ some (fault index_error))
IsEscape overflow_error end = end ≡ some (clock_error overflow)

-- A sound state with the tally `n`, or the exception that the reader of the file raised.
abbrev pub IsScanned : Tally → Option Stop → Outcome Escape Summary → Type 0
IsScanned n end r =
    ((t : Summary) × (r ≡ ok t) × IsSound n t) ⊎ ((e : Escape) × (r ≡ raised e) × IsEscape e end)
