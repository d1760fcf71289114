-- ===== src/Packet/Text/Preview.antt =====
-- What a payload's preview shows.
use zcc_analysis.Common.{
  ℕ, zero, suc, ◌-◌, ◌*◌, ◌≤◌, ◌<◌, ◌≡◌, refl, arith, true, false, [], ◌∷◌, take, length, leb, ◌==◌,
  if◌then◌else◌, All, Str,
}
use zcc_analysis.Packet.Bytes.{Bytes}
use zcc_analysis.Packet.Text.{shown, show_bytes, strip_spaces, printable_preview}

-- A printable character of ASCII.
abbrev pub IsPrintable : ℕ → Type 0
IsPrintable c = (32 ≤ c) × (c < 127)

shown-IsPrintable : (b : ℕ) → IsPrintable (shown b)
unfolding shown
shown-IsPrintable b = ground arith

-- A text of printable characters of a length up to `n`.
abbrev IsShort : ℕ → Str → Type 0
IsShort n s = (length s ≤ n) × All IsPrintable s

show_bytes-IsShort :
    (room : ℕ) (payload : Bytes) → 0 < room → IsShort room (show_bytes room payload)
unfolding show_bytes
show_bytes-IsShort room [] h = (omega arith, tt)
show_bytes-IsShort room (b ∷ bs) h =
    elim (leb room 1)
        as (λ x.
          leb room 1 ≡ x → IsShort room (shown b ∷ (if x then [] else show_bytes (room - 1) bs))) [
            | true ↦ λ e. (omega (arith, h), (shown-IsPrintable b, tt))
            | false ↦ λ e.
                let ih = show_bytes-IsShort (room - 1) bs (ground (arith, e)) in
                (omega (arith, ih.0, h), (shown-IsPrintable b, ih.1))
          ]
      refl

in_front :
    (n c : ℕ) (t : Str)
    → IsPrintable c
    → IsShort n t
    → IsShort (suc n) (elim t [ [] ↦ if c == b' ' then [] else c ∷ [] | d ∷ u ↦ c ∷ d ∷ u ])
in_front n c [] p h = elim (c == b' ') as (λ x. IsShort (suc n) (if x then [] else c ∷ [])) [
  | true ↦ (omega arith, tt)
  | false ↦ (omega arith, (p, tt))
]
in_front n c (d ∷ u) p h = (omega (arith, h.0), (p, h.1))

strip_spaces-IsShort : (n : ℕ) (s : Str) → IsShort n s → IsShort n (strip_spaces s)
unfolding strip_spaces
strip_spaces-IsShort n [] h = h
strip_spaces-IsShort zero (c ∷ s) h = elim h.0 [ ]
strip_spaces-IsShort (suc n) (c ∷ s) h =
    in_front n c (strip_spaces s) h.1.0 (strip_spaces-IsShort n s (omega (arith, h.0), h.1.1))

-- The preview of a payload is at most as long as its limit and holds printable
-- ASCII characters alone.
pub printable_preview-IsPrintable :
    (payload : Bytes) (limit : ℕ)
    → (length (printable_preview payload limit) ≤ limit)
      × All IsPrintable (printable_preview payload limit)
unfolding printable_preview show_bytes strip_spaces
printable_preview-IsPrintable payload zero = (omega arith, tt)
printable_preview-IsPrintable payload (suc limit) =
    strip_spaces-IsShort (suc limit) (show_bytes (suc limit) (take (suc limit * 2) payload))
      (show_bytes-IsShort (suc limit) (take (suc limit * 2) payload) (omega arith))
