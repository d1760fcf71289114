-- ===== src/Catalog/Laws.antt =====
-- A search finds each entry that matches once, the stronger matches first.

use zcc_analysis.Common.{
  keep-append, ℕ, ◌+◌, ◌≤◌, ◌≡◌, refl, ap, ◌∙◌, Bool, true, false, Option, none, some, List, [],
  ◌∷◌, ◌++◌, arith, length, take, keep, All, All-append, length-append, if◌then◌else◌, leb, Str,
  map-All,
}
use zcc_analysis.Common.Sorting.{IsSortedBy}
use zcc_analysis.Catalog.{
  Entry, Reason, exact_code, substring_code, body_substring, Python, reason_of, Sifted, sift_one,
  sift, limited, results_of, lookup_entries,
}

abbrev pub rank : Reason → ℕ
rank exact_code = 0
rank substring_code = 1
rank body_substring = 2

abbrev pub before : Entry × Reason → Entry × Reason → Bool
before a b = leb (rank a.1) (rank b.1)

abbrev IsRanked : ℕ → Entry × Reason → Type 0
IsRanked n r = rank r.1 ≡ n

-- The results of one rank are in order.
one_rank : (n : ℕ) (xs : List (Entry × Reason)) → All (IsRanked n) xs → IsSortedBy before xs
one_rank n [] h = tt
one_rank n (x ∷ xs) h = (map-All xs (λ y e. ground (arith, e, h.0)) h.1, one_rank n xs h.1)

-- Two lists in order make one when the first ranks before the second.
append-IsSortedBy :
    (xs ys : List (Entry × Reason))
    → IsSortedBy before xs
    → IsSortedBy before ys
    → All (λ x. All (λ y. before x y ≡ true) ys) xs
    → IsSortedBy before (xs ++ ys)
append-IsSortedBy [] ys h k l = k
append-IsSortedBy (x ∷ xs) ys h k l =
    (All-append (λ y. before x y ≡ true) xs ys h.0 l.0, append-IsSortedBy xs ys h.1 k l.1)

module _ {V : Type 0} (py : Python V) (q : Str) where
  abbrev pub is_match : Entry → Bool
  is_match e = elim (reason_of py q e) [ none ↦ false | some r ↦ true ]

  -- Each result has the reason that its entry matches by.
  abbrev pub IsReason : Entry × Reason → Type 0
  IsReason r = reason_of py q r.0 ≡ some r.1

  -- What the three lists hold.
  abbrev IsSifted : Sifted → Type 0
  IsSifted s =
      (All (IsRanked 0) s.exact × (All (IsRanked 1) s.partial × All (IsRanked 2) s.body))
      × (All IsReason s.exact × (All IsReason s.partial × All IsReason s.body))

  sift_one-IsSifted :
      (e : Entry) (o : Option Reason) (s : Sifted)
      → reason_of py q e ≡ o
      → IsSifted s
      → IsSifted (sift_one e o s)
  unfolding sift_one
  sift_one-IsSifted e none s d h = h
  sift_one-IsSifted e (some exact_code) s d h = (((refl, h.0.0), h.0.1), ((d, h.1.0), h.1.1))
  sift_one-IsSifted e (some substring_code) s d h =
      ((h.0.0, ((refl, h.0.1.0), h.0.1.1)), (h.1.0, ((d, h.1.1.0), h.1.1.1)))
  sift_one-IsSifted e (some body_substring) s d h =
      ((h.0.0, (h.0.1.0, (refl, h.0.1.1))), (h.1.0, (h.1.1.0, (d, h.1.1.1))))

  sift-IsSifted : (entries : List Entry) → IsSifted (sift py q entries)
  unfolding sift
  sift-IsSifted [] = ((tt, (tt, tt)), (tt, (tt, tt)))
  sift-IsSifted (e ∷ entries) =
      sift_one-IsSifted e (reason_of py q e) (sift py q entries) refl (sift-IsSifted entries)

-- How often the three lists have an entry that passes a test.
abbrev held : (Entry → Bool) → Sifted → ℕ
held p s =
    length (keep (λ (r : Entry × Reason). p r.0) s.exact)
    + (length (keep (λ (r : Entry × Reason). p r.0) s.partial)
        + length (keep (λ (r : Entry × Reason). p r.0) s.body))

held-sift_one :
    (p : Entry → Bool) (e : Entry) (o : Option Reason) (s : Sifted)
    → held p (sift_one e o s) ≡ held p s + (elim o [ none ↦ 0 | some r ↦ if p e then 1 else 0 ])
unfolding sift_one
held-sift_one p e none s = omega arith
held-sift_one p e (some exact_code) s = ground arith
held-sift_one p e (some substring_code) s = ground arith
held-sift_one p e (some body_substring) s = ground arith

module _ {V : Type 0} (py : Python V) where
  held-sift :
      (p : Entry → Bool) (q : Str) (entries : List Entry)
      → held p (sift py q entries) ≡ length (keep p (keep (is_match py q) entries))
  unfolding sift
  held-sift p q [] = omega arith
  held-sift p q (e ∷ entries) =
      let step = held-sift_one p e (reason_of py q e) (sift py q entries) in
      let ih = held-sift p q entries in
      elim (reason_of py q e)
          as (λ o.
            (held p (sift_one e (reason_of py q e) (sift py q entries))
              ≡ held p (sift py q entries) + (elim o [ none ↦ 0 | some r ↦ if p e then 1 else 0 ]))
            → held p (sift_one e (reason_of py q e) (sift py q entries))
              ≡ length (
                  keep p (
                    if (elim o [ none ↦ false | some r ↦ true ])
                    then e ∷ keep (is_match py q) entries
                    else keep (is_match py q) entries))) [
                      | none ↦ λ d. omega (arith, d, ih)
                      | some r ↦ λ d. ground (arith, d, ih)
                    ]
        step

  length-ranked :
      (p : Entry → Bool) (s : Sifted)
      → length (keep (λ (r : Entry × Reason). p r.0) (s.exact ++ (s.partial ++ s.body))) ≡ held p s
  length-ranked p s = omega (
    arith,
    ap length (keep-append (λ (r : Entry × Reason). p r.0) s.exact (s.partial ++ s.body)),
    ap length (keep-append (λ (r : Entry × Reason). p r.0) s.partial s.body),
    length-append (keep (λ (r : Entry × Reason). p r.0) s.exact)
        (keep (λ (r : Entry × Reason). p r.0) (s.partial ++ s.body)),
    length-append (keep (λ (r : Entry × Reason). p r.0) s.partial)
        (keep (λ (r : Entry × Reason). p r.0) s.body),
  )

  ranked-IsSortedBy :
      (s : Sifted)
      → All (IsRanked 0) s.exact
      → All (IsRanked 1) s.partial
      → All (IsRanked 2) s.body
      → IsSortedBy before (s.exact ++ (s.partial ++ s.body))
  ranked-IsSortedBy s h k l =
      let low : (m n : ℕ) (xs ys : List (Entry × Reason))
          → m ≤ n
          → All (IsRanked m) xs
          → All (IsRanked n) ys
          → All (λ x. All (λ y. before x y ≡ true) ys) xs =
        λ m n xs ys le f g. map-All xs (λ x e. map-All ys (λ y d. ground (arith, e, d, le)) g) f in
      let high =
        append-IsSortedBy s.partial s.body (one_rank 1 s.partial k) (one_rank 2 s.body l)
          (low 1 2 s.partial s.body (omega arith) k l) in
      append-IsSortedBy s.exact (s.partial ++ s.body) (one_rank 0 s.exact h) high (
        map-All s.exact
          (λ x e.
            All-append (λ y. before x y ≡ true) s.partial s.body
              (map-All s.partial (λ y d. ground (arith, e, d)) k)
              (map-All s.body (λ y d. ground (arith, e, d)) l))
          h)

  -- For a query that is not blank: each entry that matches is found as often as the catalog has it, and no other; with the
  -- reason that it matches by; exact codes come first, parts of codes next, texts last; and a limit takes
  -- the first results.
  pub lookup_entries-IsRanked :
      (query : Str) (n : ℕ) (entries : List Entry) (p : Entry → Bool)
      → 1 ≤ length (py.casefold (py.strip query))
      → let q : Str = py.casefold (py.strip query) in
        let results : List (Entry × Reason) = lookup_entries py query none entries in
        (length (keep (λ (r : Entry × Reason). p r.0) results)
          ≡ length (keep p (keep (is_match py q) entries)))
        × All (IsReason py q) results
        × IsSortedBy before results
        × (lookup_entries py query (some n) entries ≡ take n results)
  unfolding lookup_entries results_of limited
  lookup_entries-IsRanked query n entries p h = of_folded (py.casefold (py.strip query)) h
    where
      of_folded :
          (q : Str)
          → 1 ≤ length q
          → (length (keep (λ (r : Entry × Reason). p r.0) (results_of py q none entries))
              ≡ length (keep p (keep (is_match py q) entries)))
            × All (IsReason py q) (results_of py q none entries)
            × IsSortedBy before (results_of py q none entries)
            × (results_of py q (some n) entries ≡ take n (results_of py q none entries))
      of_folded [] le = ground (arith, le)
      of_folded (c ∷ q) le =
          let s = sift py (c ∷ q) entries in
          let facts = sift-IsSifted py (c ∷ q) entries in
          (
            length-ranked p s ∙ held-sift p (c ∷ q) entries,
            All-append (IsReason py (c ∷ q)) s.exact (s.partial ++ s.body) facts.1.0
                (All-append (IsReason py (c ∷ q)) s.partial s.body facts.1.1.0 facts.1.1.1),
            ranked-IsSortedBy s facts.0.0 facts.0.1.0 facts.0.1.1,
            refl,
          )
