-- ===== src/Packet/Answers/Sound.antt =====
-- The answers of a DNS response are read without an exception, and are addresses of the right size.
use zcc_analysis.Common.{
  ℕ, zero, suc, ◌+◌, ◌/◌, ◌%◌, ◌≤◌, ◌≡◌, refl, arith, Bool, true, false, ◌&&◌, ◌||◌, Option, none,
  some, List, [], ◌∷◌, length, ltb, ◌==◌, if◌then◌else◌, Str, All,
}
use zcc_analysis.Common.Outcome.{ok, ◌>>=◌}
use zcc_analysis.Packet.Bytes.{Bytes, Read, byte, slice}
use zcc_analysis.Packet.Reads.{IsRead, ok-IsRead, >>=-IsRead, if-IsRead, byte-IsRead}
use zcc_analysis.Packet.Frames.{Address, ipv4, ipv6}
use zcc_analysis.Packet.Names.{parse_dns_qname, dns_skip_name}
use zcc_analysis.Packet.Names.Bounds.{dns_skip_name-ends, parse_dns_qname-ends}
use zcc_analysis.Packet.Answers.{
  name_or_empty, field16, skip_questions, address_of, add_answer, answers_from,
  parse_dns_address_answers, parse_dns_response,
}

-- An address of four bytes, or of sixteen.
abbrev pub IsAddress : Address → Type 0
IsAddress (ipv4 raw) = length raw ≡ 4
IsAddress (ipv6 raw) = length raw ≡ 16

-- An answer for the name that was asked.
abbrev pub IsAnswer : Str → Str × Address → Type 0
IsAnswer qname (name, a) = (name ≡ qname) × IsAddress a

-- At most `n` answers, all for one name.
abbrev pub AreAnswers : Str → ℕ → List (Str × Address) → Type 0
AreAnswers qname n answers = (length answers ≤ n) × All (IsAnswer qname) answers

abbrev Gives : Str → ℕ → Read (List (Str × Address)) → Type 0
Gives qname n m = (r : List (Str × Address)) × (m ≡ ok r) × AreAnswers qname n r

nothing : (qname : Str) (n : ℕ) → Gives qname n (ok [])
nothing qname n = ([], refl, (omega arith, tt))

>>=-Gives :
    {A : Type 0} (qname : Str) (n : ℕ) (m : Read A) (f : A → Read (List (Str × Address)))
    → IsRead m
    → ((a : A) → Gives qname n (f a))
    → Gives qname n (m >>= f)
>>=-Gives qname n m f h k = rw h.1 (k h.0)

if-Gives :
    (qname : Str) (n : ℕ) (c : Bool) (k l : Read (List (Str × Address)))
    → Gives qname n k
    → (c ≡ false → Gives qname n l)
    → Gives qname n (if c then k else l)
if-Gives qname n true k l h g = h
if-Gives qname n false k l h g = g refl

maybe-Gives :
    {A : Type 0} (qname : Str) (n : ℕ) (o : Option A) (k : Read (List (Str × Address)))
    (f : A → Read (List (Str × Address)))
    → Gives qname n k
    → ((a : A) → Gives qname n (f a))
    → Gives qname n (elim o [ none ↦ k | some a ↦ f a ])
maybe-Gives qname n none k f h g = h
maybe-Gives qname n (some a) k f h g = g a

maybe-IsRead :
    {A B : Type 0} (o : Option A) (k : Read B) (f : A → Read B)
    → IsRead k
    → ((a : A) → IsRead (f a))
    → IsRead (elim o [ none ↦ k | some a ↦ f a ])
maybe-IsRead none k f h g = h
maybe-IsRead (some a) k f h g = g a

abbrev IsPossible : Option Address → Type 0
IsPossible none = Unit
IsPossible (some a) = IsAddress a

if-IsPossible :
    (c : Bool) (a o : Option Address)
    → (c ≡ true → IsPossible a)
    → IsPossible o
    → IsPossible (if c then a else o)
if-IsPossible true a o h k = h refl
if-IsPossible false a o h k = k

address_of-IsPossible :
    (rtype rclass : ℕ) (rdata : Bytes) → IsPossible (address_of rtype rclass rdata)
unfolding address_of
address_of-IsPossible rtype rclass rdata =
    if-IsPossible (rclass == 1 && (rtype == 1 && length rdata == 4)) (some (ipv4 rdata)) _
      (λ e. ground (arith, e))
      (if-IsPossible (rclass == 1 && (rtype == 28 && length rdata == 16)) (some (ipv6 rdata)) none
        (λ e. ground (arith, e)) tt)

add_answer-AreAnswers :
    (qname : Str) (n : ℕ) (o : Option Address) (r : List (Str × Address))
    → IsPossible o
    → AreAnswers qname n r
    → AreAnswers qname (suc n) (add_answer qname o r)
unfolding add_answer
add_answer-AreAnswers [] n o r h k = (omega (arith, k.0), k.1)
add_answer-AreAnswers (c ∷ s) n none r h k = (omega (arith, k.0), k.1)
add_answer-AreAnswers (c ∷ s) n (some a) r h k = (omega (arith, k.0), ((refl, h), k.1))

module _ (payload : Bytes) where
  skip_questions-IsRead : (left offset : ℕ) → IsRead (skip_questions payload left offset)
  unfolding skip_questions
  skip_questions-IsRead zero offset = ok-IsRead (some offset)
  skip_questions-IsRead (suc left) offset =
      let name = dns_skip_name-ends payload offset in
      >>=-IsRead (dns_skip_name payload offset) _ (name.0, name.1)
        (λ found. maybe-IsRead found _ _ (ok-IsRead none) (λ o.
          if-IsRead (ltb (length payload) (o + 4)) _ _ (λ e. ok-IsRead none)
            (λ e. skip_questions-IsRead left (o + 4))))

  answers_from-Gives :
      (qname : Str) (left offset : ℕ) → Gives qname left (answers_from payload qname left offset)
  unfolding answers_from
  answers_from-Gives qname zero offset = nothing qname zero
  answers_from-Gives qname (suc left) offset =
      let name = dns_skip_name-ends payload offset in
      >>=-Gives qname (suc left) (dns_skip_name payload offset) _ (name.0, name.1)
        (λ found. maybe-Gives qname (suc left) found _ _ (nothing qname (suc left)) (λ o.
          if-Gives qname (suc left)
            (ltb (length payload) (o + 10)
              || ltb (length payload) (o + 10 + field16 payload (o + 8)))
            _ _ (nothing qname (suc left))
            (λ e.
              let rest = answers_from-Gives qname left (o + 10 + field16 payload (o + 8)) in
              let rdata = slice (o + 10) (o + 10 + field16 payload (o + 8)) payload in
              let a = address_of (field16 payload o) (field16 payload (o + 2)) rdata in
              rw rest.1 (
                add_answer qname a rest.0,
                refl,
                add_answer-AreAnswers qname left a rest.0
                    (address_of-IsPossible (field16 payload o) (field16 payload (o + 2)) rdata)
                    rest.2,
              ))))

  -- The answers of any message are read without an exception: no more of them
  -- than the message announces, each for the queried name and with an address of
  -- four or sixteen bytes.
  pub parse_dns_address_answers-AreAnswers :
      (name : Option Str) × (parse_dns_qname payload ≡ ok name)
      × ((r : List (Str × Address)) × (parse_dns_address_answers payload ≡ ok r)
          × AreAnswers (name_or_empty name) (field16 payload 6) r)
  unfolding parse_dns_address_answers
  parse_dns_address_answers-AreAnswers =
      let name = parse_dns_qname-ends payload in
      let n = field16 payload 6 in
      let q = name_or_empty name.0 in
      (
        name.0,
        name.1,
        if-Gives q n (ltb (length payload) 12) _ _ (nothing q n) (λ whole.
            >>=-Gives q n (byte payload 2) _ (byte-IsRead payload 2 (ground (arith, whole))) (λ qr.
              rw name.1 (
                >>=-Gives q n (skip_questions payload (field16 payload 4) 12) _
                  (skip_questions-IsRead (field16 payload 4) 12)
                  (λ start. if-Gives q n (qr / 128 % 2 == 0) _ _ (nothing q n) (λ e.
                    maybe-Gives q n start _ _ (nothing q n)
                      (λ offset. answers_from-Gives q n offset)))))),
      )

  -- The code and name of a response are read without an exception.
  pub parse_dns_response-IsRead : IsRead (parse_dns_response payload)
  unfolding parse_dns_response
  parse_dns_response-IsRead =
      if-IsRead (ltb (length payload) 12) _ _ (λ e. ok-IsRead none)
        (λ whole.
          >>=-IsRead (byte payload 2) _ (byte-IsRead payload 2 (ground (arith, whole))) (λ qr.
            >>=-IsRead (byte payload 3) _ (byte-IsRead payload 3 (ground (arith, whole))) (λ code.
              >>=-IsRead (parse_dns_qname payload) _ (parse_dns_qname-ends payload)
                (λ q. ok-IsRead _))))

  pub parse_dns_address_answers-IsRead : IsRead (parse_dns_address_answers payload)
  parse_dns_address_answers-IsRead =
      let found = parse_dns_address_answers-AreAnswers in (found.2.0, found.2.1)
