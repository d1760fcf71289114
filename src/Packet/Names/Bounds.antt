-- ===== src/Packet/Names/Bounds.antt =====
-- The readers of DNS names never index past a message.
use zcc_analysis.Common.{
  ℕ, zero, suc, ◌+◌, ◌≤◌, ◌<◌, ◌/◌, ◌%◌, ◌*◌, ◌≡◌, refl, arith, Bool, true, false, ◌||◌, Option,
  none, some, if◌then◌else◌, ltb, leb, ◌==◌, length, Bool-cases, inl, inr, List, [], ◌∷◌,
}
use zcc_analysis.Common.Outcome.{ok, ◌>>=◌}
use zcc_analysis.Packet.Bytes.{Bytes, Read, byte, word16, byte-ok, slice}
use zcc_analysis.Packet.Reads.{IsRead, ok-IsRead, >>=-IsRead, if-IsRead, byte-IsRead, word16-IsRead}
use zcc_analysis.Packet.Names.{
  skip_from, dns_skip_name, label_kind, end, pointer, text, labels_from, name_of, parse_dns_qname,
}

module _ (payload : Bytes) where
  -- A result that lies behind an offset and inside the message.
  abbrev IsBehind : ℕ → Read (Option ℕ) → Type 0
  IsBehind offset m =
      (r : Option ℕ) × (m ≡ ok r) × ((o : ℕ) → r ≡ some o → (offset < o) × (o ≤ length payload))

  IsBehind-mono : (a b : ℕ) (m : Read (Option ℕ)) → a ≤ b → IsBehind b m → IsBehind a m
  IsBehind-mono a b m h k = (k.0, k.1, λ o e. (omega (arith, h, (k.2 o e).0), (k.2 o e).1))

  nowhere : (offset : ℕ) → IsBehind offset (ok none)
  nowhere offset = (none, refl, λ o e. cc)

  at_offset : (offset o : ℕ) → offset < o → o ≤ length payload → IsBehind offset (ok (some o))
  at_offset offset o h k = (some o, refl, λ p e. (grind (arith, e, h), grind (arith, e, k)))

  skip_from-IsBehind : (steps offset : ℕ) → IsBehind offset (skip_from payload steps offset)
  unfolding skip_from
  skip_from-IsBehind zero offset = nowhere offset
  skip_from-IsBehind (suc steps) offset = elim (Bool-cases (ltb offset (length payload))) [
    | inr out ↦ rw out (nowhere offset)
    | inl inside ↦
        let b = byte-ok payload offset (ground (arith, inside)) in
        let here = at_offset offset (offset + 1) (omega arith) (ground (arith, inside)) in
        let on =
          IsBehind-mono offset (offset + (1 + b.0)) (skip_from payload steps (offset + (1 + b.0)))
            (omega arith) (skip_from-IsBehind steps (offset + (1 + b.0))) in
        let two : IsBehind offset
            (ok (if ltb (offset + 1) (length payload) then some (offset + 2) else none)) =
          elim (Bool-cases (ltb (offset + 1) (length payload))) [
            | inl t ↦ rw t (at_offset offset (offset + 2) (omega arith) (ground (arith, t)))
            | inr f ↦ rw f (nowhere offset)
          ] in
        rw (inside, b.1)
          (elim (b.0 == 0)
            as (λ x. IsBehind offset (
              if x
              then ok (some (offset + 1))
              else if b.0 / 64 % 4 == 3
              then ok (if ltb (offset + 1) (length payload) then some (offset + 2) else none)
              else if b.0 / 64 % 4 == 0
              then skip_from payload steps (offset + (1 + b.0))
              else ok none)) [
                | true ↦ here
                | false ↦
                    elim (b.0 / 64 % 4 == 3)
                      as (λ x. IsBehind offset (
                        if x
                        then ok
                            (if ltb (offset + 1) (length payload) then some (offset + 2) else none)
                        else if b.0 / 64 % 4 == 0
                        then skip_from payload steps (offset + (1 + b.0))
                        else ok none)) [
                          | true ↦ two
                          | false ↦
                              elim (b.0 / 64 % 4 == 0)
                                as (λ x. IsBehind offset (
                                  if x
                                  then skip_from payload steps (offset + (1 + b.0))
                                  else ok none)) [ true ↦ on | false ↦ nowhere offset ]
                        ]
              ])
  ]

  -- Skipping the name at an offset always gives a result, and an offset it gives
  -- is after the name's first byte and at most the message's length.
  pub dns_skip_name-ends :
      (offset : ℕ)
      → (r : Option ℕ) × (dns_skip_name payload offset ≡ ok r)
        × ((o : ℕ) → r ≡ some o → (offset < o) × (o ≤ length payload))
  unfolding dns_skip_name
  dns_skip_name-ends offset = skip_from-IsBehind 128 offset

  second :
      (seen : Bool) (o : ℕ)
      → (seen || leb (length payload) (o + 1)) ≡ false
      → o + 1 < length payload
  second seen o h = ground (arith, h)

  labels_from-IsRead : (safety o : ℕ) (seen : Bool) → IsRead (labels_from payload safety o seen)
  unfolding labels_from
  labels_from-IsRead zero o seen = ok-IsRead (some [])
  labels_from-IsRead (suc safety) o seen =
      if-IsRead (ltb o (length payload)) _ _
        (λ inside.
          >>=-IsRead (byte payload o) _ (byte-IsRead payload o (ground (arith, inside))) (λ ln.
            let follow = (λ (more : (seen || leb (length payload) (o + 1)) ≡ false).
              >>=-IsRead (byte payload (o + 1))
                (λ low. labels_from payload safety (ln % 64 * 256 + low) true)
                (byte-IsRead payload (o + 1) (second seen o more))
                (λ low. labels_from-IsRead safety (ln % 64 * 256 + low) true)) in
            let read : IsRead {A = Option (List Bytes)} (
                labels_from payload safety (o + 1 + ln) seen >>= λ rest. ok (elim rest [
                  | none ↦ none
                  | some ls ↦ some (slice (o + 1) (o + 1 + ln) payload ∷ ls)
                ])) =
              >>=-IsRead (labels_from payload safety (o + 1 + ln) seen)
                (λ rest. ok (elim rest [
                  | none ↦ none
                  | some ls ↦ some (slice (o + 1) (o + 1 + ln) payload ∷ ls)
                ]))
                (labels_from-IsRead safety (o + 1 + ln) seen) (λ rest. ok-IsRead _) in
            elim (label_kind ln)
              as (λ k. IsRead {A = Option (List Bytes)} (elim k [
                | end ↦ ok (some [])
                | pointer ↦
                    if seen || leb (length payload) (o + 1)
                    then ok none
                    else (byte payload (o + 1) >>= λ low.
                        labels_from payload safety (ln % 64 * 256 + low) true)
                | text ↦
                    if ltb (length payload) (o + 1 + ln)
                    then ok none
                    else (labels_from payload safety (o + 1 + ln) seen >>= λ rest. ok (elim rest [
                      | none ↦ none
                      | some ls ↦ some (slice (o + 1) (o + 1 + ln) payload ∷ ls)
                    ]))
              ])) [
                | end ↦ ok-IsRead (some [])
                | pointer ↦
                    if-IsRead (seen || leb (length payload) (o + 1)) _ _ (λ e. ok-IsRead none)
                      follow
                | text ↦
                    if-IsRead (ltb (length payload) (o + 1 + ln)) _ _ (λ e. ok-IsRead none)
                      (λ e. read)
              ]))
        (λ out. ok-IsRead (some []))

  -- Reading the queried name of a DNS message never raises, whatever its bytes are.
  pub parse_dns_qname-ends : IsRead (parse_dns_qname payload)
  unfolding parse_dns_qname
  parse_dns_qname-ends =
      if-IsRead (ltb (length payload) 12) _ _ (λ short. ok-IsRead none)
        (λ whole.
          >>=-IsRead (word16 payload 4) _ (word16-IsRead payload 4 (ground (arith, whole)))
            (λ qdcount.
              >>=-IsRead _ _
                (if-IsRead (ltb qdcount 1) _ _ (λ e. ok-IsRead none)
                  (λ e. labels_from-IsRead 64 12 false))
                (λ found. ok-IsRead (name_of payload found))))
