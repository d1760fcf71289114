-- ===== src/Packet/Bytes.antt =====
-- Python `bytes`: an index out of range raises, a slice never does.
use zcc_analysis.Common.{ℕ, zero, suc, ◌+◌, ◌-◌, ◌*◌, ◌<◌, ◌≡◌, refl, arith, List, [], ◌∷◌, ◌++◌}
use zcc_analysis.Common.{take, drop, length}
use zcc_analysis.Common.Outcome.{Outcome, ok, raised, ◌>>=◌}

abbrev pub Bytes : Type 0
Bytes = List ℕ

-- `out_of_fuel` has no counterpart in the program.
pub data Fault : Type 0 where
  index_error out_of_fuel : Fault

-- What a parser gives: a value, or an exception.
abbrev pub Read {ℓ} : Type ℓ → Type ℓ
Read A = Outcome Fault A

-- `b[i]`
unfoldable pub byte : Bytes → ℕ → Read ℕ
byte [] i = raised index_error
byte (x ∷ b) zero = ok x
byte (x ∷ b) (suc i) = byte b i

-- `(b[i] << 8) | b[i + 1]`, of byte values.
unfoldable pub word16 : Bytes → ℕ → Read ℕ
unfolding byte
word16 b i = do hi ← byte b i; lo ← byte b (i + 1); ok (hi * 256 + lo)

-- `b[i:j]`
abbrev pub slice : ℕ → ℕ → Bytes → Bytes
slice i j b = take (j - i) (drop i b)

-- A read below the length is a value.
pub byte-ok : (b : Bytes) (i : ℕ) → i < length b → (x : ℕ) × (byte b i ≡ ok x)
unfolding byte
byte-ok [] i h = elim h [ ]
byte-ok (x ∷ b) zero h = (x, refl)
byte-ok (x ∷ b) (suc i) h = byte-ok b i (omega arith)

pub byte-append : (p q : Bytes) (i : ℕ) → byte (p ++ q) (length p + i) ≡ byte q i
unfolding byte
byte-append [] q i = let e : 0 + i ≡ i = omega arith in rw e
byte-append (x ∷ p) q i =
    let e : suc (length p) + i ≡ suc (length p + i) = omega arith in rw e (byte-append p q i)
