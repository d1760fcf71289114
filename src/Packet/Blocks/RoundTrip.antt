-- ===== src/Packet/Blocks/RoundTrip.antt =====
-- Blocks written in one byte order are read back.
use zcc_analysis.Common.{
  ℕ, zero, suc, ◌+◌, ◌-◌, ◌*◌, ◌/◌, ◌%◌, ◌≤◌, ◌<◌, ◌≡◌, refl, arith, ◌∙◌, true, false, List, [],
  ◌∷◌, ◌++◌, take, drop, length, take-append_self, drop-append_self, ltb, All, none, some, sym,
  length-append, ap,
}
use zcc_analysis.Packet.Bytes.{Bytes}
use zcc_analysis.Packet.Blocks.{
  Endian, little, big, Block, plausible, from_bytes, header_of, lock_endian, iter_blocks, blocks_of,
  give, read_body, Yielded,
}

-- Four bytes in front of a text.
abbrev pub put_word : Endian → ℕ → Bytes → Bytes
put_word little n rest = n % 256 ∷ n / 256 % 256 ∷ n / 65_536 % 256 ∷ n / 16_777_216 % 256 ∷ rest
put_word big n rest = n / 16_777_216 % 256 ∷ n / 65_536 % 256 ∷ n / 256 % 256 ∷ n % 256 ∷ rest

-- A block in front of a text: its type, its length, its body and its length again.
abbrev pub put_block : Endian → Block → Bytes → Bytes
put_block e b rest =
    let blen = 12 + length b.body in
    put_word e b.btype (put_word e blen (b.body ++ put_word e blen rest))

abbrev pub put_blocks : Endian → List Block → Bytes
put_blocks e [] = []
put_blocks e (b ∷ bs) = put_block e b (put_blocks e bs)

-- The blocks that a section in the byte order `e` may hold. The last condition keeps a big-endian
-- length from being read as a little-endian one.
abbrev pub IsWritable : Endian → Block → Type 0
IsWritable e b =
    (b.btype < 0x1_0000_0000)
    × (12 + length b.body ≤ 0x400_0000)
    × (length b.body % 4 ≡ 0)
    × (b.endian ≡ e)
    × (lock_endian b.btype b.body e ≡ e)
    × (e ≡ big → 0 < (12 + length b.body) % 256)

little_word :
    (n : ℕ)
    → n < 0x1_0000_0000
    → n % 256
        + 256 * (n / 256 % 256 + 256 * (n / 65_536 % 256 + 256 * (n / 16_777_216 % 256 + 256 * 0)))
      ≡ n
little_word n h = omega (arith, h)

big_word :
    (n : ℕ)
    → n < 0x1_0000_0000
    → (((0 * 256 + n / 16_777_216 % 256) * 256 + n / 65_536 % 256) * 256 + n / 256 % 256) * 256
        + n % 256
      ≡ n
big_word n h = omega (arith, h)

big_as_little :
    (n : ℕ)
    → 12 ≤ n
    → n ≤ 0x400_0000
    → n % 4 ≡ 0
    → 0 < n % 256
    → 0x400_0000
      < n / 16_777_216 % 256
        + 256 * (n / 65_536 % 256 + 256 * (n / 256 % 256 + 256 * (n % 256 + 256 * 0)))
big_as_little n h k l m = omega (arith, h, k, l, m)

plausible-true : (n : ℕ) → 12 ≤ n → n ≤ 0x400_0000 → n % 4 ≡ 0 → plausible n ≡ true
unfolding plausible
plausible-true n h k l = ground (arith, h, k, l)

plausible-false : (n : ℕ) → 0x400_0000 < n → plausible n ≡ false
unfolding plausible
plausible-false n h = ground (arith, h)

header_of-put :
    (c e : Endian) (t n : ℕ)
    → t < 0x1_0000_0000
    → 12 ≤ n
    → n ≤ 0x400_0000
    → n % 4 ≡ 0
    → (e ≡ big → 0 < n % 256)
    → (e ≡ little → c ≡ little)
    → header_of c (put_word e t (put_word e n [])) ≡ some (t, n, e)
unfolding header_of from_bytes
header_of-put c little t n ht h k l big_len start =
    rw (little_word n (omega (arith, k)), little_word t ht, plausible-true n h k l, start refl) refl
header_of-put c big t n ht h k l big_len start =
    let wrong = plausible-false _ (big_as_little n h k l (big_len refl)) in
    rw (wrong, big_word n (omega (arith, k)), big_word t ht, plausible-true n h k l) refl

take_eight :
    (e : Endian) (t n : ℕ) (rest : Bytes)
    → take 8 (put_word e t (put_word e n rest)) ≡ put_word e t (put_word e n [])
take_eight little t n rest = refl
take_eight big t n rest = refl

four : (n : ℕ) → ltb (suc (suc (suc (suc n)))) 4 ≡ false
four n = ground arith

not_shorter : (n : ℕ) → ltb n n ≡ false
not_shorter n = ground arith

read_body-put :
    (more : Endian → Bytes → Yielded Block) (e : Endian) (b : Block) (tail : Bytes)
    → b.endian ≡ e
    → lock_endian b.btype b.body e ≡ e
    → ltb (length tail) 4 ≡ false
    → read_body more b.btype (12 + length b.body) e (b.body ++ tail) ≡ give b (more e (drop 4 tail))
unfolding read_body
read_body-put more e b tail he lock long =
    let minus : 12 + length b.body - 12 ≡ length b.body = omega arith in
    rw
      (
        minus,
        take-append_self b.body tail,
        drop-append_self b.body tail,
        not_shorter (length b.body),
        long,
        lock,
        sym he,
      )
      refl

iter_blocks-put :
    (fuel : ℕ) (c e : Endian) (b : Block) (rest : Bytes)
    → IsWritable e b
    → (e ≡ little → c ≡ little)
    → iter_blocks (suc fuel) c (put_block e b rest) ≡ give b (iter_blocks fuel e rest)
unfolding iter_blocks
iter_blocks-put fuel c little b rest (ht, hn, h4, he, lock, hb) start =
    let n = 12 + length b.body in
    rw (header_of-put c little b.btype n ht (omega arith) hn (omega (arith, h4)) hb start) (
      read_body-put (iter_blocks fuel) little b (put_word little n rest) he lock
        (four (length rest)))
iter_blocks-put fuel c big b rest (ht, hn, h4, he, lock, hb) start =
    let n = 12 + length b.body in
    rw (header_of-put c big b.btype n ht (omega arith) hn (omega (arith, h4)) hb start)
      (read_body-put (iter_blocks fuel) big b (put_word big n rest) he lock (four (length rest)))

length-put_block :
    (e : Endian) (b : Block) (rest : Bytes) → length rest < length (put_block e b rest)
length-put_block little b rest =
    omega (arith, length-append b.body (put_word little (12 + length b.body) rest))
length-put_block big b rest =
    omega (arith, length-append b.body (put_word big (12 + length b.body) rest))

iter_blocks-put_blocks :
    (fuel : ℕ) (c e : Endian) (bs : List Block)
    → length (put_blocks e bs) ≤ fuel
    → (e ≡ little → c ≡ little)
    → All (IsWritable e) bs
    → iter_blocks fuel c (put_blocks e bs) ≡ (bs, none)
unfolding iter_blocks
iter_blocks-put_blocks fuel c e [] h start w = refl
iter_blocks-put_blocks zero c little (b ∷ bs) h start w = elim h [ ]
iter_blocks-put_blocks zero c big (b ∷ bs) h start w = elim h [ ]
iter_blocks-put_blocks (suc fuel) c e (b ∷ bs) h start w =
    let ih =
      iter_blocks-put_blocks fuel e e bs (omega (arith, h, length-put_block e b (put_blocks e bs)))
        (λ k. k) w.1 in
    iter_blocks-put fuel c e b (put_blocks e bs) w.0 start ∙ ap (give b) ih

-- A file that holds blocks in one byte order is read as those blocks, where their
-- types fit into 32 bits, their lengths are multiples of 4 and at most 64 MiB, a
-- section header keeps the order, and no big-endian length is a multiple of 256.
pub blocks_of-put_blocks :
    (e : Endian) (bs : List Block)
    → All (IsWritable e) bs
    → blocks_of (put_blocks e bs) ≡ (bs, none)
unfolding blocks_of
blocks_of-put_blocks e bs w = iter_blocks-put_blocks _ little e bs (omega arith) (λ h. refl) w
