-- ===== src/Packet/Reads.antt =====
-- Reads that give a value, and how the parsers' steps keep them so.
use zcc_analysis.Common.{
  ℕ, suc, ◌+◌, ◌*◌, ◌<◌, ◌≡◌, refl, arith, Bool, true, false, if◌then◌else◌, length,
}
use zcc_analysis.Common.Outcome.{ok, ◌>>=◌}
use zcc_analysis.Packet.Bytes.{Bytes, Read, byte, word16, byte-ok}

abbrev pub IsRead {ℓ} : {A : Type ℓ} → Read A → Type ℓ
IsRead {A = A} m = (r : A) × (m ≡ ok r)

pub ok-IsRead {ℓ} : {A : Type ℓ} (a : A) → IsRead (ok a)
ok-IsRead a = (a, refl)

pub >>=-IsRead {ℓ κ} :
    {A : Type ℓ} {B : Type κ} (m : Read A) (f : A → Read B)
    → IsRead m
    → ((a : A) → IsRead (f a))
    → IsRead (m >>= f)
>>=-IsRead m f h k = rw h.1 (k h.0)

pub if-IsRead {ℓ} :
    {A : Type ℓ} (c : Bool) (m n : Read A)
    → (c ≡ true → IsRead m)
    → (c ≡ false → IsRead n)
    → IsRead (if c then m else n)
if-IsRead true m n h k = h refl
if-IsRead false m n h k = k refl

pub byte-IsRead : (b : Bytes) (i : ℕ) → i < length b → IsRead (byte b i)
byte-IsRead b i h = byte-ok b i h

pub word16-IsRead : (b : Bytes) (i : ℕ) → suc i < length b → IsRead (word16 b i)
unfolding word16
word16-IsRead b i h =
    let hi = byte-ok b i (omega (arith, h)) in
    let lo = byte-ok b (i + 1) (omega (arith, h)) in rw (hi.1, lo.1) (hi.0 * 256 + lo.0, refl)
