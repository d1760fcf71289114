-- ===== src/Packet/Blocks/Ends.antt =====
-- The only fault that ends the reading of a capture file is an IndexError.
use zcc_analysis.Common.{
  ℕ, ◌≡◌, ◌&&◌, Option, some, List, [], ◌∷◌, ◌++◌, leb, length, ◌==◌, inl, inr, Bool-cases,
}
use zcc_analysis.Common.Outcome.{Outcome, ok, raised}
use zcc_analysis.Packet.Bytes.{Bytes, Fault, index_error}
use zcc_analysis.Packet.Blocks.{
  Block, ClockError, Stop, fault, clock_error, blocks_of, packets_of, read_pcapng, captured,
  interface_desc, enhanced_packet, Captured,
}
use zcc_analysis.Packet.Blocks.Options.{parse_interface_description-IsTicks}
use zcc_analysis.Packet.Blocks.Total.{IsEnd, blocks_of-IsReading}

abbrev pub EndsWell : Option Stop → Type 0
EndsWell end = (f : Fault) → end ≡ some (fault f) → f ≡ index_error

IsEnd-EndsWell : (end : Option Stop) → IsEnd end → EndsWell end
IsEnd-EndsWell end (inl e) f h = cc
IsEnd-EndsWell end (inr e) f h = let g = e.1 in cc

module _ (fromtimestamp : ℕ → ℕ → Outcome ClockError ℕ) where
  packets_of-EndsWell :
      (end : Option Stop) (if_ticks : List ℕ) (bs : List Block)
      → EndsWell end
      → EndsWell (packets_of fromtimestamp end if_ticks bs).1
  unfolding packets_of
  packets_of-EndsWell end if_ticks [] w = w
  packets_of-EndsWell end if_ticks (b ∷ bs) w = elim (Bool-cases (b.btype == interface_desc)) [
    | inl e ↦ elim (parse_interface_description-IsTicks b.body b.endian) [
      | inl t ↦ rw (e, t.1) (packets_of-EndsWell end (if_ticks ++ t.0 ∷ []) bs w)
      | inr r ↦ rw (e, r) (λ f h. cc)
    ]
    | inr e ↦
        let skipped = packets_of-EndsWell end if_ticks bs w in
        elim (Bool-cases (b.btype == enhanced_packet && leb 20 (length b.body))) [
          | inr d ↦ rw (e, d) skipped
          | inl d ↦
              rw (e, d)
                (given (packets_of fromtimestamp end if_ticks bs)
                  (captured fromtimestamp if_ticks b) skipped)
        ]
  ]
    where
      given :
          (r : List Captured × Option Stop) (c : Outcome ClockError Captured)
          → EndsWell r.1
          → let out : List Captured × Option Stop = elim c [
            | raised e ↦ ([], some (clock_error e))
            | ok x ↦ (x ∷ r.0, r.1)
          ] in
            EndsWell out.1
      given r (ok x) h = h
      given r (raised e) h = λ f k. cc

  pub read_pcapng-EndsWell : (fp : Bytes) → EndsWell (read_pcapng fromtimestamp fp).1
  unfolding read_pcapng
  read_pcapng-EndsWell fp =
      packets_of-EndsWell (blocks_of fp).1 [] (blocks_of fp).0
        (IsEnd-EndsWell (blocks_of fp).1 (blocks_of-IsReading fp).0)
