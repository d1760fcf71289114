-- ===== src/Fields/Harvest/Total.antt =====
-- The search for objects ends, and where it finds them.
use zcc_analysis.Common.{
  ℕ, zero, suc, ◌+◌, ◌-◌, ◌≤◌, ◌<◌, ◌≡◌, refl, arith, true, false, Option, none, some, List, [],
  ◌∷◌, if◌then◌else◌, Str, length, leb, ◌==◌, Bool-cases, inl, inr,
}
use zcc_analysis.Fields.Json.{Library, scan_object}
use zcc_analysis.Fields.Json.Total.{IsLexer, scan_object-ends}
use zcc_analysis.Fields.Harvest.{
  Found, find_open, size, members_of, add_found, objects_from, iter_json_objects,
}

-- The offsets grow, from `i` on, and lie below `n`.
abbrev pub IsAscending : ℕ → ℕ → List Found → Type 0
IsAscending i n [] = Unit
IsAscending i n (f ∷ fs) = (i ≤ f.offset) × (f.offset < n) × IsAscending (suc f.offset) n fs

IsAscending-mono : (i j n : ℕ) (fs : List Found) → i ≤ j → IsAscending j n fs → IsAscending i n fs
IsAscending-mono i j n [] h k = tt
IsAscending-mono i j n (f ∷ fs) h k = (omega (arith, h, k.0), k.1, k.2)

-- A brace found at an offset, with the text behind it.
find_open-le :
    (i : ℕ) (t : Str) (at : ℕ × Str)
    → find_open i t ≡ some at
    → (i ≤ at.0) × (suc at.0 + length at.1 ≡ i + length t)
unfolding find_open
find_open-le i [] at h = cc
find_open-le i (c ∷ t) at h = elim (Bool-cases (c == b'{')) [
  | inl e ↦ grind (arith, rw e at h)
  | inr e ↦
      let k = find_open-le (i + 1) t at (rw e at h) in (omega (arith, k.0), omega (arith, k.1))
]

module _ (P : Library) (lexer : IsLexer P) (min_keys : ℕ) where
  -- What is collected, in a text that ends at the offset `n`.
  abbrev Ends : ℕ → ℕ → Option (List Found) → Type 0
  Ends i n o = (fs : List Found) × (o ≡ some fs) × IsAscending i n fs

  Ends-mono : (i j n : ℕ) (o : Option (List Found)) → i ≤ j → Ends j n o → Ends i n o
  Ends-mono i j n o h k = (k.0, k.1, IsAscending-mono i j n k.0 h k.2)

  add_found-Ends :
      (n : ℕ) (f : Found) (o : Option (List Found))
      → f.offset < n
      → Ends (suc f.offset) n o
      → Ends f.offset n (add_found f o)
  add_found-Ends n f o h k = rw k.1 (f ∷ k.0, refl, (omega arith, h, k.2))

  objects_from-Ends :
      (n fuel i : ℕ) (t : Str)
      → length t < fuel
      → i + length t ≡ n
      → Ends i n (objects_from P min_keys fuel i t)
  unfolding objects_from
  objects_from-Ends n zero i t h e = elim h [ ]
  objects_from-Ends n (suc fuel) i t h e = at_brace (objects_from-Ends n fuel) (find_open i t) refl
    where
      at_brace :
          (calls : (j : ℕ) (u : Str)
            → length u < fuel
            → j + length u ≡ n
            → Ends j n (objects_from P min_keys fuel j u))
          (o : Option (ℕ × Str))
          → find_open i t ≡ o
          → Ends i n (elim o [
            | none ↦ some []
            | some at ↦ elim (scan_object P at.1) [
              | none ↦ none
              | some s ↦
                  if leb min_keys (size (members_of s.value))
                  then add_found
                      (record {
                        offset = at.0;
                        members = members_of s.value;
                        complete = s.complete;
                      })
                      (objects_from P min_keys fuel
                        (at.0 + 1 + (length at.1 - length s.rest))
                        s.rest)
                  else objects_from P min_keys fuel (at.0 + 1) at.1
            ]
          ])
      at_brace calls none k = ([], refl, tt)
      at_brace calls (some at) k =
          let place = find_open-le i t at k in
          let s = scan_object-ends P lexer at.1 in
          let rest = (s.0).rest in
          let found : Found = record {
            offset = at.0;
            members = members_of (s.0).value;
            complete = (s.0).complete;
          } in
          let after =
            calls (at.0 + 1 + (length at.1 - length rest)) rest (omega (arith, place.1, s.2, h))
              (omega (arith, place.1, s.2, e)) in
          let inside =
            calls (at.0 + 1) at.1 (omega (arith, place.1, place.0, h))
              (omega (arith, place.1, e)) in
          rw s.1
            (elim (leb min_keys (size (members_of (s.0).value)))
              as (λ b. Ends i n (
                if b
                then add_found found
                    (objects_from P min_keys fuel (at.0 + 1 + (length at.1 - length rest)) rest)
                else objects_from P min_keys fuel (at.0 + 1) at.1)) [
                  | true ↦ Ends-mono i at.0 n _ place.0 (
                      add_found-Ends n found _ (omega (arith, place.1, e))
                        (Ends-mono _ _ n _ (omega arith) after))
                  | false ↦ Ends-mono i (at.0 + 1) n _ (omega (arith, place.0)) inside
                ])

  -- Collecting the objects of a text ends, and the objects come with growing
  -- offsets that lie inside the text.
  pub iter_json_objects-ends :
      (text : Str)
      → (fs : List Found) × (iter_json_objects P min_keys text ≡ some fs)
        × IsAscending 0 (length text) fs
  unfolding iter_json_objects
  iter_json_objects-ends text =
      objects_from-Ends (length text) (suc (length text)) 0 text (omega arith) (omega arith)
