-- ===== src/Packet/Blocks/Options.antt =====
-- The options of an interface description.
use zcc_analysis.Common.{
  ℕ, zero, suc, ◌+◌, ◌-◌, ◌*◌, ◌/◌, ◌^◌, ◌<◌, ◌≡◌, refl, arith, true, false, ◌&&◌, [], ◌∷◌, length,
  ltb, leb, ◌==◌, if◌then◌else◌, ◌⊎◌, inl, inr, Bool,
}
use native.Mathlib.Nat.{one-le-pow}
use zcc_analysis.Common.Outcome.{ok, raised}
use zcc_analysis.Packet.Bytes.{Bytes, Read, index_error, byte, slice}
use zcc_analysis.Packet.Blocks.{
  Endian, from_bytes, resolution, options_from, parse_interface_description,
}

resolution_pos : (v : ℕ) → 0 < resolution v
unfolding resolution
resolution_pos v = elim (leb 128 v) as (λ x. 0 < (if x then 2 ^ (v - 128) else 10 ^ v)) [
  | true ↦ one-le-pow (v - 128) 2 (omega arith)
  | false ↦ one-le-pow v 10 (omega arith)
]

-- A positive number of ticks, or the exception of an index past the end.
abbrev pub IsTicks : Read ℕ → Type 0
IsTicks m = ((t : ℕ) × (m ≡ ok t) × (0 < t)) ⊎ (m ≡ raised index_error)

if-IsTicks :
    (c : Bool) (m n : Read ℕ)
    → (c ≡ true → IsTicks m)
    → (c ≡ false → IsTicks n)
    → IsTicks (if c then m else n)
if-IsTicks true m n h k = h refl
if-IsTicks false m n h k = k refl

byte-cases : (b : Bytes) (i : ℕ) → ((x : ℕ) × (byte b i ≡ ok x)) ⊎ (byte b i ≡ raised index_error)
unfolding byte
byte-cases [] i = inr refl
byte-cases (x ∷ b) zero = inl (x, refl)
byte-cases (x ∷ b) (suc i) = byte-cases b i

options_from-IsTicks :
    (fuel : ℕ) (endian : Endian) (body : Bytes) (o ticks : ℕ)
    → length body < o + fuel
    → 0 < fuel
    → 0 < ticks
    → IsTicks (options_from fuel endian body o ticks)
unfolding options_from
options_from-IsTicks zero endian body o ticks h f p = elim f [ ]
options_from-IsTicks (suc fuel) endian body o ticks h f p =
    let code = from_bytes endian (slice o (o + 2) body) in
    let len = from_bytes endian (slice (o + 2) (o + 4) body) in
    let next = o + 4 + (len + 3) / 4 * 4 in
    if-IsTicks (leb (o + 4) (length body)) _ _
      (λ more.
        if-IsTicks (code == 0) _ _ (λ e. inl (ticks, refl, p))
          (λ e.
            if-IsTicks (code == 9 && leb 1 len) _ _
              (λ e'. elim (byte-cases body (o + 4)) [
                | inr past ↦ rw past (inr refl)
                | inl v ↦ rw v.1 (
                    options_from-IsTicks fuel endian body next (resolution v.0) (omega (arith, h))
                      (ground (arith, more)) (resolution_pos v.0))
              ])
              (λ e'.
                options_from-IsTicks fuel endian body next ticks (omega (arith, h))
                  (ground (arith, more)) p)))
      (λ e. inl (ticks, refl, p))

-- The resolution of an interface is a positive number of ticks, whatever its
-- description holds, or reading it raises IndexError.
pub parse_interface_description-IsTicks :
    (body : Bytes) (endian : Endian) → IsTicks (parse_interface_description body endian)
unfolding parse_interface_description
parse_interface_description-IsTicks body endian =
    if-IsTicks (ltb (length body) 8) _ _ (λ e. inl (1_000_000, refl, omega arith))
      (λ e.
        options_from-IsTicks (suc (length body)) endian body 8 1_000_000 (omega arith) (omega arith)
          (omega arith))
