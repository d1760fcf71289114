-- ===== src/Packet/Streams/Laws.antt =====
-- The flows account for every packet, whichever way it goes, and the streams returned are in order.
use zcc_analysis.Common.{
  ℕ, zero, suc, ◌≤◌, ◌≡◌, refl, sym, ◌∙◌, arith, ap, Bool, true, false, ◌&&◌, none, some, List, [],
  ◌∷◌, map, take, length, ◌==◌, if◌then◌else◌, Str, All, length-take, keep, any,
}
use zcc_analysis.Common.Sorting.{sort_by, IsSortedBy, sort_by-All, sort_by-IsSortedBy}
use zcc_analysis.Packet.Bytes.{Bytes}
use zcc_analysis.Packet.Full.{Parsed}
use zcc_analysis.Packet.Blocks.{Captured}
use zcc_analysis.Packet.Endpoints.{Side}
use zcc_analysis.Packet.Streams.{
  Flow, StreamMatch, src_side, dst_side, is_flow_of, flows_from, matched, starts_before, numbered,
  follow_streams, proto_eq, side_eq,
}
use zcc_analysis.Packet.Streams.Keys.{Item, heard, is_set, between, references, canonical_symm}
use zcc_analysis.Packet.Streams.Flows.{IsFlow}
use zcc_analysis.Packet.Streams.Touch.{AreFlows, flows_from-steps}

take-All : {A : Type 0} (P : A → Type 0) (n : ℕ) (xs : List A) → All P xs → All P (take n xs)
take-All P zero xs h = tt
take-All P (suc n) [] h = tt
take-All P (suc n) (x ∷ xs) h = (h.0, take-All P n xs h.1)

take-IsSortedBy :
    (n : ℕ) (fs : List Flow) → IsSortedBy starts_before fs → IsSortedBy starts_before (take n fs)
take-IsSortedBy zero fs h = tt
take-IsSortedBy (suc n) [] h = tt
take-IsSortedBy (suc n) (f ∷ fs) h =
    (take-All (λ g. starts_before f g ≡ true) n fs h.0, take-IsSortedBy n fs h.1)

map-numbered : (i : ℕ) (fs : List Flow) → map (λ (m : StreamMatch). m.flow) (numbered i fs) ≡ fs
unfolding numbered
map-numbered i [] = refl
map-numbered i (f ∷ fs) = ap (λ r. f ∷ r) (map-numbered (suc i) fs)

length-numbered : (i : ℕ) (fs : List Flow) → length (numbered i fs) ≡ length fs
unfolding numbered
length-numbered i [] = refl
length-numbered i (f ∷ fs) = omega (arith, length-numbered (suc i) fs)

module _ (lower : Str → Str) (is_digits : Str → Bool) (format_ipv6 : Bytes → Str) where
  -- A flow of the packets `items`, one of which has the query.
  abbrev pub IsStream : ℕ → Str → List Item → Flow → Type 0
  IsStream bound q items f =
      IsFlow lower is_digits format_ipv6 bound q items f
      × (any (references lower is_digits format_ipv6 q)
            (keep (between lower is_digits format_ipv6 f) items)
          ≡ true)

  matched-IsStream :
      (bound : ℕ) (q : Str) (items : List Item) (flows : List Flow)
      → All (IsFlow lower is_digits format_ipv6 bound q items) flows
      → All (IsStream bound q items) (matched flows)
  unfolding matched
  matched-IsStream bound q items [] h = tt
  matched-IsStream bound q items (f ∷ flows) h =
      elim f.matched_by
          as (λ o.
            f.matched_by ≡ o
            → All (IsStream bound q items)
                (elim o [ none ↦ matched flows | some k ↦ f ∷ matched flows ])) [
                  | none ↦ λ e. matched-IsStream bound q items flows h.1
                  | some k ↦ λ e. (
                    (h.0, sym h.0.sums.matched ∙ ap is_set e),
                    matched-IsStream bound q items flows h.1,
                  )
                ]
        refl

  pub flows_from-AreFlows :
      (bound : ℕ) (q : Str) (cs : List Captured)
      → AreFlows lower is_digits format_ipv6 bound q
          (heard cs)
          (flows_from lower is_digits format_ipv6 bound q cs [])
  flows_from-AreFlows bound q cs =
      flows_from-steps lower is_digits format_ipv6 bound q cs [] [] (tt, tt, tt, refl)

  -- A packet and one the other way, with its sides exchanged, have the same flow.
  pub is_flow_of-reversed :
      (p : Parsed) (f : Flow)
      → is_flow_of lower is_digits format_ipv6 p f
        ≡ is_flow_of lower is_digits format_ipv6
            (record p { src = p.dst; dst = p.src; src_port = p.dst_port; dst_port = p.src_port })
            f
  unfolding is_flow_of
  is_flow_of-reversed p f =
      let a = src_side lower is_digits format_ipv6 p in
      let b = dst_side lower is_digits format_ipv6 p in
      ap
        (λ (key : Side × Side).
          proto_eq f.proto p.proto && (side_eq f.side_a key.0 && side_eq f.side_b key.1))
        (canonical_symm a b)

  -- At most `max_streams` streams are returned, in the order of their first packets. Of the packets
  -- that are scanned and understood, each holds those between its two sides: their number, the sum of
  -- their lengths, the first and the last time, and the first of them, as many as the cap allows; and
  -- one of them has the query in an address, as a port or in the text of its payload.
  pub follow_streams-IsFollowed :
      (strip_lower : Str → Str) (read : List Captured) (query : Str)
      (bound max_streams max_scanned : ℕ)
      → (length (
            follow_streams lower is_digits format_ipv6 strip_lower read query bound max_streams
              max_scanned)
          ≤ max_streams)
        × All (IsStream bound (strip_lower query) (heard (take max_scanned read))) (
            map
              (λ (m : StreamMatch). m.flow)
              (follow_streams lower is_digits format_ipv6 strip_lower read query bound max_streams
                max_scanned))
        × IsSortedBy starts_before (
            map
              (λ (m : StreamMatch). m.flow)
              (follow_streams lower is_digits format_ipv6 strip_lower read query bound max_streams
                max_scanned))
  unfolding follow_streams
  follow_streams-IsFollowed strip_lower read query bound max_streams max_scanned =
      let q = strip_lower query in
      let items = heard (take max_scanned read) in
      let flows = flows_from lower is_digits format_ipv6 bound q (take max_scanned read) [] in
      let sorted = sort_by starts_before (matched flows) in
      let sound = (flows_from-AreFlows bound q (take max_scanned read)).0 in
      let streams =
        take-All (IsStream bound (strip_lower query) (heard (take max_scanned read))) max_streams
          sorted
          (sort_by-All starts_before
            (IsStream bound (strip_lower query) (heard (take max_scanned read))) (matched flows)
            (matched-IsStream bound (strip_lower query) (heard (take max_scanned read)) flows
              sound)) in
      let order = take-IsSortedBy max_streams sorted (
        sort_by-IsSortedBy starts_before (λ f g h. ground (arith, h))
          (λ f g k h l. ground (arith, h, l)) (matched flows)) in
      elim (length q == 0)
        as (λ b.
          let r : List StreamMatch = if b then [] else numbered 0 (take max_streams sorted) in
          (length r ≤ max_streams)
          × All (IsStream bound (strip_lower query) (heard (take max_scanned read)))
              (map (λ (m : StreamMatch). m.flow) r)
          × IsSortedBy starts_before (map (λ (m : StreamMatch). m.flow) r)) [
            | true ↦ (omega arith, tt, tt)
            | false ↦ rw (map-numbered 0 (take max_streams sorted)) (
              omega (
                arith,
                length-numbered 0 (take max_streams sorted),
                length-take max_streams sorted,
              ),
              streams,
              order,
            )
          ]
