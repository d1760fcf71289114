-- ===== src/Packet/Streams/Touch.antt =====
-- How the flows change with a packet.
use zcc_analysis.Common.{
  ℕ, suc, ◌≡◌, ◌≢◌, refl, sym, ◌∙◌, arith, subst, Bool, true, false, none, some, List, [], ◌∷◌,
  ◌++◌, length, length-append, Str, All, All-append, map-All, keep, any, append-nil, append_assoc,
  Bool-cases, inl, inr,
}
use zcc_analysis.Packet.Bytes.{Bytes}
use zcc_analysis.Packet.Full.{Parsed, parse_frame_full}
use zcc_analysis.Packet.Blocks.{Captured}
use zcc_analysis.Packet.Streams.{
  Flow, on_flow, new_flow, is_flow_of, touch, flows_from, src_side, dst_side,
}
use zcc_analysis.Packet.Streams.Keys.{
  Item, Key, key, heard, AreDistinct, total_count, between, packet_key, between-key, key-between,
  is_flow_of-key, key-is_flow_of, canonical_idem,
}
use zcc_analysis.Packet.Streams.Flows.{IsFlow, on_flow-IsFlow, other-IsFlow, new_flow-IsFlow}

module _ (lower : Str → Str) (is_digits : Str → Bool) (format_ipv6 : Bytes → Str) where
  -- Every packet goes between the sides of a flow.
  abbrev pub AreCovered : List Item → List Flow → Type 0
  AreCovered items flows =
      All (λ y. any (λ f. between lower is_digits format_ipv6 f y) flows ≡ true) items

  -- The flows of the packets `items`: each holds those between its sides, no two have the same
  -- sides and protocol, and every packet is in one.
  abbrev pub AreFlows : ℕ → Str → List Item → List Flow → Type 0
  AreFlows bound q items flows =
      All (IsFlow lower is_digits format_ipv6 bound q items) flows
      × AreDistinct flows
      × AreCovered items flows
      × (total_count flows ≡ length items)

  new_flow-between :
      (ts : ℕ) (p : Parsed)
      → between lower is_digits format_ipv6 (new_flow lower is_digits format_ipv6 ts p) (ts, p)
        ≡ true
  unfolding new_flow
  new_flow-between ts p =
      key-between lower is_digits format_ipv6 ts p (new_flow lower is_digits format_ipv6 ts p) refl

  not_between :
      (bound : ℕ) (q : Str) (done : List Item) (ts : ℕ) (p : Parsed) (f : Flow)
      → IsFlow lower is_digits format_ipv6 bound q done f
      → key f ≢ packet_key lower is_digits format_ipv6 p
      → between lower is_digits format_ipv6 f (ts, p) ≡ false
  not_between bound q done ts p f s apart =
      elim (Bool-cases (between lower is_digits format_ipv6 f (ts, p))) [
        | inl hit ↦ absurd (apart (between-key lower is_digits format_ipv6 ts p f s.ordered hit))
        | inr miss ↦ miss
      ]

  not_flow-key :
      (p : Parsed) (f : Flow)
      → is_flow_of lower is_digits format_ipv6 p f ≡ false
      → key f ≢ packet_key lower is_digits format_ipv6 p
  not_flow-key p f h e = let t = key-is_flow_of lower is_digits format_ipv6 p f e in cc

  module _ (bound : ℕ) (q : Str) (ts : ℕ) (p : Parsed) where
    others-IsFlow :
        (done : List Item) (flows : List Flow)
        → All (IsFlow lower is_digits format_ipv6 bound q done) flows
        → All (λ g. packet_key lower is_digits format_ipv6 p ≢ key g) flows
        → All (IsFlow lower is_digits format_ipv6 bound q (done ++ (ts, p) ∷ [])) flows
    others-IsFlow done [] h apart = tt
    others-IsFlow done (g ∷ flows) h apart = (
      other-IsFlow lower is_digits format_ipv6 bound q done (ts, p) g
          (not_between bound q done ts p g h.0 (λ e. apart.0 (sym e))) h.0,
      others-IsFlow done flows h.1 apart.1,
    )

    touch-IsFlow :
        (done : List Item) (flows : List Flow)
        → All (IsFlow lower is_digits format_ipv6 bound q done) flows
        → AreDistinct flows
        → (any (λ f. between lower is_digits format_ipv6 f (ts, p)) flows ≡ false
            → keep
                (between lower is_digits format_ipv6 (new_flow lower is_digits format_ipv6 ts p))
                done
              ≡ [])
        → All
            (IsFlow lower is_digits format_ipv6 bound q (done ++ (ts, p) ∷ []))
            (touch lower is_digits format_ipv6 bound q ts p flows)
    unfolding touch
    touch-IsFlow done [] h d fresh = (
      new_flow-IsFlow lower is_digits format_ipv6 bound q done ts p (fresh refl)
          (new_flow-between ts p),
      tt,
    )
    touch-IsFlow done (f ∷ flows) h d fresh =
        elim (Bool-cases (is_flow_of lower is_digits format_ipv6 p f)) [
          | inl e ↦
              let same = is_flow_of-key lower is_digits format_ipv6 p f e in
              rw e (
                on_flow-IsFlow lower is_digits format_ipv6 bound q done ts p f
                    (key-between lower is_digits format_ipv6 ts p f same) h.0,
                others-IsFlow done flows h.1 (map-All flows (λ g k c. k (same ∙ c)) d.0),
              )
          | inr e ↦
              let miss = not_between bound q done ts p f h.0 (not_flow-key p f e) in
              rw e (
                other-IsFlow lower is_digits format_ipv6 bound q done (ts, p) f miss h.0,
                touch-IsFlow done flows h.1 d.1 (λ n. fresh (rw miss n)),
              )
        ]

    touch-All :
        (P : Key → Type 0) (flows : List Flow)
        → All (λ g. P (key g)) flows
        → P (packet_key lower is_digits format_ipv6 p)
        → All (λ g. P (key g)) (touch lower is_digits format_ipv6 bound q ts p flows)
    unfolding touch on_flow new_flow
    touch-All P [] h new = (new, tt)
    touch-All P (f ∷ flows) h new = elim (Bool-cases (is_flow_of lower is_digits format_ipv6 p f)) [
      | inl e ↦ rw e h
      | inr e ↦ rw e (h.0, touch-All P flows h.1 new)
    ]

    touch-AreDistinct :
        (flows : List Flow)
        → AreDistinct flows
        → AreDistinct (touch lower is_digits format_ipv6 bound q ts p flows)
    unfolding touch on_flow
    touch-AreDistinct [] d = (tt, tt)
    touch-AreDistinct (f ∷ flows) d =
        elim (Bool-cases (is_flow_of lower is_digits format_ipv6 p f)) [
          | inl e ↦ rw e d
          | inr e ↦ rw e (
            touch-All (λ k. key f ≢ k) flows d.0 (not_flow-key p f e),
            touch-AreDistinct flows d.1,
          )
        ]

    touch-covers :
        (y : Item) (flows : List Flow)
        → any (λ f. between lower is_digits format_ipv6 f y) flows ≡ true
        → any
            (λ f. between lower is_digits format_ipv6 f y)
            (touch lower is_digits format_ipv6 bound q ts p flows)
          ≡ true
    unfolding touch on_flow
    touch-covers y [] h = cc
    touch-covers y (f ∷ flows) h = elim (Bool-cases (is_flow_of lower is_digits format_ipv6 p f)) [
      | inl e ↦ rw e h
      | inr e ↦ elim (Bool-cases (between lower is_digits format_ipv6 f y)) [
        | inl d ↦ rw (e, d) refl
        | inr d ↦ rw (e, d) (touch-covers y flows (rw d at h))
      ]
    ]

    touch-covers_self :
        (flows : List Flow)
        → any
            (λ f. between lower is_digits format_ipv6 f (ts, p))
            (touch lower is_digits format_ipv6 bound q ts p flows)
          ≡ true
    unfolding touch on_flow
    touch-covers_self [] = rw (new_flow-between ts p) refl
    touch-covers_self (f ∷ flows) = elim (Bool-cases (is_flow_of lower is_digits format_ipv6 p f)) [
      | inl e ↦
          rw
            (
              e,
              key-between lower is_digits format_ipv6 ts p f
                  (is_flow_of-key lower is_digits format_ipv6 p f e),
            )
            refl
      | inr e ↦ elim (Bool-cases (between lower is_digits format_ipv6 f (ts, p))) [
        | inl d ↦ rw (e, d) refl
        | inr d ↦ rw (e, d) (touch-covers_self flows)
      ]
    ]

    touch-count :
        (flows : List Flow)
        → total_count (touch lower is_digits format_ipv6 bound q ts p flows)
          ≡ suc (total_count flows)
    unfolding touch on_flow new_flow
    touch-count [] = omega arith
    touch-count (f ∷ flows) = elim (Bool-cases (is_flow_of lower is_digits format_ipv6 p f)) [
      | inl e ↦ rw e (omega arith)
      | inr e ↦ rw e (omega (arith, touch-count flows))
    ]

    -- A packet with the key of this one is in a flow only if this one is.
    same_key :
        (done : List Item) (y : Item) (flows : List Flow)
        → All (IsFlow lower is_digits format_ipv6 bound q done) flows
        → packet_key lower is_digits format_ipv6 y.1 ≡ packet_key lower is_digits format_ipv6 p
        → any (λ f. between lower is_digits format_ipv6 f y) flows ≡ true
        → any (λ f. between lower is_digits format_ipv6 f (ts, p)) flows ≡ true
    same_key done y [] h e k = cc
    same_key done y (f ∷ flows) h e k =
        elim (Bool-cases (between lower is_digits format_ipv6 f y)) [
          | inl d ↦
              let hit : between lower is_digits format_ipv6 f (ts, p) ≡ true =
                key-between lower is_digits format_ipv6 ts p f
                  (between-key lower is_digits format_ipv6 y.0 y.1 f h.0.ordered d ∙ e) in
              rw hit refl
          | inr d ↦ let rest = same_key done y flows h.1 e (rw d at k) in ground (arith, rest)
        ]

    fresh_keys :
        (whole done : List Item) (flows : List Flow)
        → All (IsFlow lower is_digits format_ipv6 bound q whole) flows
        → AreCovered done flows
        → any (λ f. between lower is_digits format_ipv6 f (ts, p)) flows ≡ false
        → keep
            (between lower is_digits format_ipv6 (new_flow lower is_digits format_ipv6 ts p))
            done
          ≡ []
    fresh_keys whole [] flows h c n = refl
    fresh_keys whole (y ∷ done) flows h c n =
        let f = new_flow lower is_digits format_ipv6 ts p in
        elim (Bool-cases (between lower is_digits format_ipv6 f y)) [
          | inr d ↦ rw d (fresh_keys whole done flows h c.1 n)
          | inl d ↦
              let e : key f ≡ packet_key lower is_digits format_ipv6 y.1 =
                between-key lower is_digits format_ipv6 y.0 y.1 f
                  (unfold new_flow in
                    canonical_idem lower is_digits format_ipv6
                      (src_side lower is_digits format_ipv6 p)
                      (dst_side lower is_digits format_ipv6 p))
                  d in
              let e' : packet_key lower is_digits format_ipv6 y.1
                  ≡ packet_key lower is_digits format_ipv6 p =
                sym e ∙ unfold new_flow in refl in
              let k = same_key whole y flows h e' c.0 in cc
        ]

    touch-AreFlows :
        (done : List Item) (flows : List Flow)
        → AreFlows bound q done flows
        → AreFlows bound q
            (done ++ (ts, p) ∷ [])
            (touch lower is_digits format_ipv6 bound q ts p flows)
    touch-AreFlows done flows h = (
      touch-IsFlow done flows h.0 h.1 (fresh_keys done done flows h.0 h.2),
      touch-AreDistinct flows h.1,
      All-append
          (λ y.
            any (λ f. between lower is_digits format_ipv6 f y)
              (touch lower is_digits format_ipv6 bound q ts p flows)
            ≡ true)
          done ((ts, p) ∷ []) (map-All done (λ y k. touch-covers y flows k) h.2)
          (touch-covers_self flows, tt),
      omega (arith, touch-count flows, h.3, length-append done ((ts, p) ∷ [])),
    )

  pub flows_from-steps :
      (bound : ℕ) (q : Str) (cs : List Captured) (done : List Item) (flows : List Flow)
      → AreFlows bound q done flows
      → AreFlows bound q
          (done ++ heard cs)
          (flows_from lower is_digits format_ipv6 bound q cs flows)
  unfolding flows_from
  flows_from-steps bound q [] done flows h = rw (append-nil done) h
  flows_from-steps bound q (c ∷ cs) done flows h =
      elim (parse_frame_full c.frame)
        as (λ o.
          let after : List Flow = elim o [
            | none ↦ flows_from lower is_digits format_ipv6 bound q cs flows
            | some p ↦
                flows_from lower is_digits format_ipv6 bound q cs
                  (touch lower is_digits format_ipv6 bound q c.ts p flows)
          ] in
          let items : List Item = elim o [ none ↦ heard cs | some p ↦ (c.ts, p) ∷ heard cs ] in
          AreFlows bound q (done ++ items) after) [
            | none ↦ flows_from-steps bound q cs done flows h
            | some p ↦
                subst
                  (λ items. AreFlows bound q items (
                    flows_from lower is_digits format_ipv6 bound q cs
                      (touch lower is_digits format_ipv6 bound q c.ts p flows)))
                  (append_assoc done ((c.ts, p) ∷ []) (heard cs))
                  (flows_from-steps bound q cs (done ++ (c.ts, p) ∷ [])
                    (touch lower is_digits format_ipv6 bound q c.ts p flows)
                    (touch-AreFlows bound q c.ts p done flows h))
          ]
