-- ===== src/Packet/Blocks/Total.antt =====
-- Reading the blocks ends at the end of the file or with a ValueError.
use zcc_analysis.Common.{
  ℕ, zero, suc, ◌+◌, ◌-◌, ◌≤◌, ◌≡◌, refl, arith, Bool, true, false, Option, none, some, [], ◌∷◌,
  take, drop, length, length-drop, ltb, if◌then◌else◌, ◌⊎◌, inl, inr, Option-cases, List, ap,
  take-append-drop, length-append, length-take,
}
use zcc_analysis.Packet.Bytes.{Bytes}
use zcc_analysis.Packet.Blocks.{
  Endian, little, Block, BlockError, Stop, value_error, header_of, lock_endian, Yielded,
  iter_blocks, blocks_of, truncated_header, implausible, truncated_body, missing_trailer, give,
  stop,
}

-- Nothing, or a ValueError, ended the generator.
abbrev pub IsEnd : Option Stop → Type 0
IsEnd end = (end ≡ none) ⊎ ((e : BlockError) × (end ≡ some (value_error e)))

-- The bytes of the blocks in the file: a header of eight, the body and a trailer of four.
abbrev pub size : List Block → ℕ
size [] = 0
size (b ∷ bs) = 12 + length b.body + size bs

-- The blocks fit into the file, and fill it if nothing was raised.
abbrev pub IsReading : Bytes → Yielded Block → Type 0
IsReading fp r = IsEnd r.1 × (size r.0 ≤ length fp) × (r.1 ≡ none → size r.0 ≡ length fp)

stopped : (fp : Bytes) (e : BlockError) → IsReading fp (stop (value_error e))
stopped fp e = (inr (e, refl), omega arith, λ h. cc)

if-IsReading :
    (fp : Bytes) (c : Bool) (m n : Yielded Block)
    → IsReading fp m
    → (c ≡ false → IsReading fp n)
    → IsReading fp (if c then m else n)
if-IsReading fp true m n h k = h
if-IsReading fp false m n h k = k refl

one_more :
    (fp : Bytes) (b : Block) (n : ℕ) (r : Yielded Block)
    → 12 + length b.body + n ≡ length fp
    → (size r.0 ≤ n)
    → (r.1 ≡ none → size r.0 ≡ n)
    → IsEnd r.1
    → IsReading fp (give b r)
one_more fp b n r e s t u = (u, omega (arith, e, s), λ h. omega (arith, e, t h))

parts :
    (n x : ℕ) (fp : Bytes)
    → ltb (length (take 8 (x ∷ fp))) 8 ≡ false
    → ltb (length (drop n (drop 7 fp))) 4 ≡ false
    → 12 + length (take n (drop 7 fp)) + length (drop 4 (drop n (drop 7 fp))) ≡ suc (length fp)
parts n x fp h k =
    let whole : 7 ≤ length fp = ground (arith, h, length-take 8 (x ∷ fp)) in
    let trailer : 4 ≤ length (drop n (drop 7 fp)) = ground (arith, k) in
    let split = ap length (take-append-drop n (drop 7 fp)) in
    omega (
      arith,
      whole,
      trailer,
      split,
      length-append (take n (drop 7 fp)) (drop n (drop 7 fp)),
      length-drop 7 fp,
      length-drop 4 (drop n (drop 7 fp)),
    )

iter_blocks-IsReading :
    (fuel : ℕ) (endian : Endian) (fp : Bytes)
    → length fp ≤ fuel
    → IsReading fp (iter_blocks fuel endian fp)
unfolding iter_blocks
iter_blocks-IsReading fuel endian [] h = (inl refl, omega arith, λ e. refl)
iter_blocks-IsReading zero endian (x ∷ fp) h = elim h [ ]
iter_blocks-IsReading (suc fuel) endian (x ∷ fp) h =
    if-IsReading (x ∷ fp) (ltb (length (take 8 (x ∷ fp))) 8) _ _ (stopped (x ∷ fp) truncated_header)
      (λ whole. elim (Option-cases (header_of endian (take 8 (x ∷ fp)))) [
        | inl bad ↦ rw bad (stopped (x ∷ fp) implausible)
        | inr good ↦ rw good.1 (
            let btype = good.0.0 in
            let blen = good.0.1 in
            let body = take (blen - 12) (drop 7 fp) in
            let after = drop (blen - 12) (drop 7 fp) in
            let locked = lock_endian btype body good.0.2 in
            if-IsReading (x ∷ fp) (ltb (length body) (blen - 12)) _ _
              (stopped (x ∷ fp) truncated_body)
              (λ inside.
                if-IsReading (x ∷ fp) (ltb (length after) 4) _ _ (stopped (x ∷ fp) missing_trailer)
                  (λ trailer.
                    let sum = parts (blen - 12) x fp whole trailer in
                    let rest =
                      iter_blocks-IsReading fuel locked (drop 4 after) (omega (arith, sum, h)) in
                    one_more (x ∷ fp) (record { btype = btype; body = body; endian = locked })
                      (length (drop 4 after)) (iter_blocks fuel locked (drop 4 after)) sum rest.1
                      rest.2 rest.0)))
      ])

-- Reading the blocks of a file ends, with nothing or a ValueError; the sizes of the
-- blocks given add up to at most that of the file, and to it where nothing is
-- raised.
pub blocks_of-IsReading : (fp : Bytes) → IsReading fp (blocks_of fp)
unfolding blocks_of
blocks_of-IsReading fp = iter_blocks-IsReading (length fp) little fp (omega arith)
