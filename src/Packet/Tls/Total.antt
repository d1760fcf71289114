-- ===== src/Packet/Tls/Total.antt =====
-- Reading the extensions of a ClientHello ends.
use zcc_analysis.Common.{
  ℕ, zero, suc, ◌+◌, ◌<◌, ◌≡◌, refl, arith, Bool, true, false, ◌&&◌, ◌||◌, not, length, ltb, leb,
  ◌==◌, if◌then◌else◌, ◌≢◌, [], ◌∷◌, ◌∷◌,
}
use zcc_analysis.Common.Outcome.{ok, raised, ◌>>=◌}
use zcc_analysis.Packet.Bytes.{Bytes, Read, byte, word16, slice, index_error, out_of_fuel}
use zcc_analysis.Packet.Tls.{server_name, extensions_from, client_hello, parse_record}

-- A read that did not run out of fuel.
abbrev pub IsRun {ℓ} : {A : Type ℓ} → Read A → Type ℓ
IsRun m = m ≢ raised out_of_fuel

>>=-IsRun :
    {A B : Type 0} (m : Read A) (f : A → Read B)
    → IsRun m
    → ((a : A) → IsRun (f a))
    → IsRun (m >>= f)
>>=-IsRun (ok a) f h k = k a
>>=-IsRun (raised index_error) f h k = λ e. cc
>>=-IsRun (raised out_of_fuel) f h k = λ e. h refl

if-IsRun :
    {A : Type 0} (c : Bool) (m n : Read A)
    → (c ≡ true → IsRun m)
    → (c ≡ false → IsRun n)
    → IsRun (if c then m else n)
if-IsRun true m n h k = h refl
if-IsRun false m n h k = k refl

ok-IsRun : {A : Type 0} (a : A) → IsRun (ok a)
ok-IsRun a = λ e. cc

byte-IsRun : (b : Bytes) (i : ℕ) → IsRun (byte b i)
unfolding byte
byte-IsRun [] i = λ e. cc
byte-IsRun (x ∷ b) zero = λ e. cc
byte-IsRun (x ∷ b) (suc i) = byte-IsRun b i

word16-IsRun : (b : Bytes) (i : ℕ) → IsRun (word16 b i)
unfolding word16
word16-IsRun b i =
    >>=-IsRun (byte b i) _ (byte-IsRun b i)
      (λ hi. >>=-IsRun (byte b (i + 1)) _ (byte-IsRun b (i + 1)) (λ lo. ok-IsRun _))

module _ (hs : Bytes) where
  server_name-IsRun : (o elen : ℕ) → IsRun (server_name hs o elen)
  unfolding server_name
  server_name-IsRun o elen =
      if-IsRun (ltb elen 5) _ _ (λ e. ok-IsRun _)
        (λ e. >>=-IsRun (byte hs (o + 2)) _ (byte-IsRun hs (o + 2)) (λ t.
          if-IsRun (t == 0) _ _
            (λ z. >>=-IsRun (word16 hs (o + 3)) _ (word16-IsRun hs (o + 3)) (λ n. ok-IsRun _))
            (λ z. ok-IsRun _)))

  extensions_from-IsRun :
      (fuel ext_end o : ℕ)
      → 0 < fuel
      → length hs < o + fuel
      → IsRun (extensions_from hs fuel ext_end o)
  unfolding extensions_from
  extensions_from-IsRun zero ext_end o p h = elim p [ ]
  extensions_from-IsRun (suc fuel) ext_end o p h =
      if-IsRun (leb (o + 4) ext_end && leb (o + 4) (length hs)) _ _
        (λ more. >>=-IsRun (word16 hs o) _ (word16-IsRun hs o) (λ etype.
          >>=-IsRun (word16 hs (o + 2)) _ (word16-IsRun hs (o + 2)) (λ elen.
            if-IsRun (etype == 0) _ _ (λ e. server_name-IsRun (o + 4) elen)
              (λ e.
                extensions_from-IsRun fuel ext_end (o + 4 + elen) (ground (arith, more))
                  (omega (arith, h))))))
        (λ e. ok-IsRun _)

  client_hello-IsRun : IsRun (client_hello hs)
  unfolding client_hello
  client_hello-IsRun = >>=-IsRun (byte hs 38) _ (byte-IsRun hs 38) (λ sid.
      >>=-IsRun (word16 hs (39 + sid)) _ (word16-IsRun hs (39 + sid)) (λ cs.
        >>=-IsRun (byte hs (41 + sid + cs)) _ (byte-IsRun hs (41 + sid + cs)) (λ cm.
          let o = 42 + sid + cs + cm in
          if-IsRun (ltb (length hs) (o + 2)) _ _ (λ e. ok-IsRun _)
            (λ e. >>=-IsRun (word16 hs o) _ (word16-IsRun hs o) (λ n.
              extensions_from-IsRun (suc (length hs)) (o + 2 + n) (o + 2) (omega arith)
                (omega arith))))))

-- Reading the server name of a payload ends: the fuel of its loop is enough, and
-- what is left is a result or the IndexError that is turned into none.
pub parse_record-IsRun : (tcp_payload : Bytes) → IsRun (parse_record tcp_payload)
unfolding parse_record
parse_record-IsRun b =
    if-IsRun (ltb (length b) 5) _ _ (λ e. ok-IsRun _)
      (λ e. >>=-IsRun (byte b 0) _ (byte-IsRun b 0) (λ content.
        >>=-IsRun (word16 b 3) _ (word16-IsRun b 3) (λ rec_len.
          if-IsRun (not (content == 0x16) || (ltb rec_len 4 || ltb (length b) (5 + rec_len))) _ _
            (λ e. ok-IsRun _)
            (λ e.
              >>=-IsRun (byte (slice 5 (5 + rec_len) b) 0) _
                (byte-IsRun (slice 5 (5 + rec_len) b) 0)
                (λ kind.
                  if-IsRun (kind == 1) _ _ (λ e. client_hello-IsRun (slice 5 (5 + rec_len) b))
                    (λ e. ok-IsRun _))))))
