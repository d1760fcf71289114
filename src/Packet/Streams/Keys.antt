-- ===== src/Packet/Streams/Keys.antt =====
-- The key of a flow, and the packets that have it: those between its two sides.

use zcc_analysis.Common.{
  ℕ, ◌≡◌, ◌≢◌, refl, sym, ◌∙◌, arith, ap, Bool, true, false, ◌&&◌, ◌||◌, Option, none, some, List,
  [], ◌∷◌, total, Str, str_eq, str_eq_iff, contains, All, Bool-cases, inl, inr, ◌⊎◌,
}
use zcc_analysis.Common.Order.{str_le_total, str_le_antisymm}
use zcc_analysis.Packet.Bytes.{Bytes}
use zcc_analysis.Packet.Frames.{Protocol, tcp, udp}
use zcc_analysis.Packet.Full.{Parsed, parse_frame_full}
use zcc_analysis.Packet.Blocks.{Captured}
use zcc_analysis.Packet.Text.{address, decimal, printable_preview}
use zcc_analysis.Packet.Endpoints.{Side, side_le}
use zcc_analysis.Packet.Streams.{
  Flow, Hit, canonical, src_side, dst_side, is_flow_of, proto_eq, side_eq, or_hit, hit, payload_hit,
}

abbrev pub Item : Type 0
Item = ℕ × Parsed

-- The packets that a parser understands, with their times.
abbrev pub heard : List Captured → List Item
heard [] = []
heard (c ∷ cs) = elim (parse_frame_full c.frame) [ none ↦ heard cs | some p ↦ (c.ts, p) ∷ heard cs ]

abbrev pub Key : Type 0
Key = Protocol × Side × Side

abbrev pub key : Flow → Key
key f = (f.proto, f.side_a, f.side_b)

-- No two flows have the same protocol and sides.
abbrev pub AreDistinct : List Flow → Type 0
AreDistinct [] = Unit
AreDistinct (f ∷ flows) = All (λ g. key f ≢ key g) flows × AreDistinct flows

abbrev pub total_count : List Flow → ℕ
total_count flows = total (λ (f : Flow). f.packet_count) flows

abbrev pub is_set : Option Hit → Bool
is_set none = false
is_set (some h) = true

side_eq-true : (a b : Side) → side_eq a b ≡ true → a ≡ b
unfolding side_eq
side_eq-true a b h = ground (arith, str_eq_iff a.ip b.ip)

side_eq_refl : (a : Side) → side_eq a a ≡ true
unfolding side_eq
side_eq_refl a = ground (arith, str_eq_iff a.ip a.ip)

proto_eq-true : (a b : Protocol) → proto_eq a b ≡ true → a ≡ b
unfolding proto_eq
proto_eq-true tcp tcp h = refl
proto_eq-true udp udp h = refl
proto_eq-true tcp udp h = cc
proto_eq-true udp tcp h = cc

proto_eq_refl : (a : Protocol) → proto_eq a a ≡ true
unfolding proto_eq
proto_eq_refl tcp = refl
proto_eq_refl udp = refl

pub canonical_symm : (a b : Side) → canonical a b ≡ canonical b a
unfolding canonical side_le
canonical_symm a b = ground (
  arith,
  str_le_total a.ip b.ip,
  str_le_antisymm a.ip b.ip,
  str_eq_iff a.ip b.ip,
  str_eq_iff b.ip a.ip,
)

module _ (lower : Str → Str) (is_digits : Str → Bool) (format_ipv6 : Bytes → Str) where
  abbrev pub packet_key : Parsed → Key
  packet_key p =
      let sides =
        canonical (src_side lower is_digits format_ipv6 p)
          (dst_side lower is_digits format_ipv6 p) in
      (p.proto, sides.0, sides.1)

  -- A packet goes between the sides of a flow, one way or the other.
  abbrev pub between : Flow → Item → Bool
  between f (ts, p) =
      let src = src_side lower is_digits format_ipv6 p in
      let dst = dst_side lower is_digits format_ipv6 p in
      proto_eq f.proto p.proto
      && ((side_eq f.side_a src && side_eq f.side_b dst)
          || (side_eq f.side_a dst && side_eq f.side_b src))

  -- A packet has the query in an address, as a port, or in the text of its payload.
  abbrev pub references : Str → Item → Bool
  references q (ts, p) =
      (contains q (lower (address format_ipv6 p.src))
        || contains q (lower (address format_ipv6 p.dst)))
      || ((is_digits q && (str_eq q (decimal p.src_port) || str_eq q (decimal p.dst_port)))
          || contains q (lower (printable_preview p.payload 300)))

  pub hit-references :
      (q : Str) (ts : ℕ) (p : Parsed)
      → is_set (hit lower is_digits format_ipv6 q p) ≡ references q (ts, p)
  unfolding hit payload_hit
  hit-references q ts p = ground arith

  pub or_hit-references :
      (m : Option Hit) (q : Str) (ts : ℕ) (p : Parsed)
      → is_set (or_hit lower is_digits format_ipv6 m q p) ≡ is_set m || references q (ts, p)
  unfolding or_hit
  or_hit-references none q ts p = hit-references q ts p
  or_hit-references (some h) q ts p = refl

  pub is_flow_of-key :
      (p : Parsed) (f : Flow)
      → is_flow_of lower is_digits format_ipv6 p f ≡ true
      → key f ≡ packet_key p
  unfolding is_flow_of
  is_flow_of-key p f h =
      let k = packet_key p in
      let e0 = proto_eq-true f.proto k.0 (ground (arith, h)) in
      let e1 = side_eq-true f.side_a k.1 (ground (arith, h)) in
      let e2 = side_eq-true f.side_b k.2 (ground (arith, h)) in λ i. (e0 i, e1 i, e2 i)

  pub key-is_flow_of :
      (p : Parsed) (f : Flow)
      → key f ≡ packet_key p
      → is_flow_of lower is_digits format_ipv6 p f ≡ true
  unfolding is_flow_of
  key-is_flow_of p f h =
      let k = packet_key p in
      let e0 : f.proto ≡ k.0 = λ i. (h i).0 in
      let e1 : f.side_a ≡ k.1 = λ i. (h i).1 in
      let e2 : f.side_b ≡ k.2 = λ i. (h i).2 in
      ground (
        arith,
        proto_eq_refl k.0,
        side_eq_refl k.1,
        side_eq_refl k.2,
        ap (λ x. proto_eq x k.0) e0,
        ap (λ x. side_eq x k.1) e1,
        ap (λ x. side_eq x k.2) e2,
      )

  sides_forward :
      (f : Flow) (x y : Side)
      → (side_eq f.side_a x && side_eq f.side_b y) ≡ true
      → canonical f.side_a f.side_b ≡ (f.side_a, f.side_b)
      → canonical x y ≡ (f.side_a, f.side_b)
  sides_forward f x y h ordered =
      let e1 = side_eq-true f.side_a x (ground (arith, h)) in
      let e2 = side_eq-true f.side_b y (ground (arith, h)) in
      (λ i. canonical (sym e1 i) (sym e2 i)) ∙ ordered

  pub between-key :
      (ts : ℕ) (p : Parsed) (f : Flow)
      → canonical f.side_a f.side_b ≡ (f.side_a, f.side_b)
      → between f (ts, p) ≡ true
      → key f ≡ packet_key p
  between-key ts p f ordered h =
      let src = src_side lower is_digits format_ipv6 p in
      let dst = dst_side lower is_digits format_ipv6 p in
      let e0 = proto_eq-true f.proto p.proto (ground (arith, h)) in
      elim (Bool-cases (side_eq f.side_a src && side_eq f.side_b dst)) [
        | inl way ↦
            let e = sides_forward f src dst way ordered in λ i. (e0 i, (sym e i).0, (sym e i).1)
        | inr no_way ↦
            let e =
              canonical_symm src dst
              ∙ sides_forward f dst src (ground (arith, h, no_way)) ordered in
            λ i. (e0 i, (sym e i).0, (sym e i).1)
      ]

  canonical-cases : (a b : Side) → (canonical a b ≡ (a, b)) ⊎ (canonical a b ≡ (b, a))
  unfolding canonical
  canonical-cases a b = elim (Bool-cases (side_le a b)) [
    | inl e ↦ inl (rw e refl)
    | inr e ↦ inr (rw e refl)
  ]

  both_sides :
      (f : Flow) (x y : Side)
      → f.side_a ≡ x
      → f.side_b ≡ y
      → (side_eq f.side_a x && side_eq f.side_b y) ≡ true
  both_sides f x y e d =
      ground
        (arith, side_eq_refl x, side_eq_refl y, ap (λ z. side_eq z x) e, ap (λ z. side_eq z y) d)

  pub key-between :
      (ts : ℕ) (p : Parsed) (f : Flow) → key f ≡ packet_key p → between f (ts, p) ≡ true
  key-between ts p f h =
      let src = src_side lower is_digits format_ipv6 p in
      let dst = dst_side lower is_digits format_ipv6 p in
      let same : proto_eq f.proto p.proto ≡ true =
        ap (λ (k : Key). proto_eq k.0 p.proto) h ∙ proto_eq_refl p.proto in
      elim (canonical-cases src dst) [
        | inl e ↦
            let way =
              both_sides f src dst (ap (λ (k : Key). k.1) h ∙ ap (λ (s : Side × Side). s.0) e)
                (ap (λ (k : Key). k.2) h ∙ ap (λ (s : Side × Side). s.1) e) in
            ground (arith, same, way)
        | inr e ↦
            let way =
              both_sides f dst src (ap (λ (k : Key). k.1) h ∙ ap (λ (s : Side × Side). s.0) e)
                (ap (λ (k : Key). k.2) h ∙ ap (λ (s : Side × Side). s.1) e) in
            ground (arith, same, way)
      ]

  pub canonical_idem :
      (a b : Side)
      → canonical (canonical a b).0 (canonical a b).1 ≡ ((canonical a b).0, (canonical a b).1)
  canonical_idem a b = elim (canonical-cases a b) [
    | inl e ↦ rw (e, e) refl
    | inr e ↦ rw e (canonical_symm b a ∙ e)
  ]
