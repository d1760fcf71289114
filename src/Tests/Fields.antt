-- ===== src/Tests/Fields.antt =====
-- The tolerant JSON scanner on a log line.
use zcc_analysis.Common.{ℕ, ◌+◌, ◌≤◌, ◌<◌, ◌≡◌, refl, arith, Bool, true, false, Option, none, some}
use zcc_analysis.Common.{List, [], ◌∷◌, ◌++◌, Str, codes, length, leb}
use zcc_analysis.Fields.Json.{
  Library, number, string, object, Members, no_members, member, Scan, scan_object,
}
use zcc_analysis.Fields.Json.Total.{IsLexer, scan_object-ends}
use zcc_analysis.Fields.Harvest.{Found, lookup, Harvest, iter_json_objects, harvest_json}
use zcc_analysis.Fields.Harvest.First.{first_value, harvest_json-first}

-- A number is one digit; no two values are the same.
abbrev one_digit : Str → Option (Str × Str)
one_digit [] = none
one_digit (c ∷ t) = elim (leb b'0' c) [
  | true ↦ elim (leb c b'9') [ true ↦ some (c ∷ [], t) | false ↦ none ]
  | false ↦ none
]

abbrev python : Library
python = record {
  chr16 = λ s. none;
  number = one_digit;
  show = λ n. (n + b'0') ∷ [];
  same = λ a b. false;
}

-- A match of a digit is that digit.
lexer_at :
    (c : ℕ) (t : Str) (m : Str × Str) (b d : Bool)
    → (elim b [ true ↦ elim d [ true ↦ some (c ∷ [], t) | false ↦ none ] | false ↦ none ]) ≡ some m
    → (c ∷ t ≡ m.0 ++ m.1) × (1 ≤ length m.0)
lexer_at c t m true true h =
    let e : ◌≡◌ {A = Str × Str} (c ∷ [], t) m = cc in rw (← e) (refl, omega arith)
lexer_at c t m true false h = absurd (cc)
lexer_at c t m false d h = absurd (cc)

python-IsLexer : IsLexer python
python-IsLexer [] m h = cc
python-IsLexer (c ∷ t) m h = lexer_at c t m (leb b'0' c) (leb c b'9') h

-- Two objects, the second of them cut.
abbrev text : Str
text = codes "req: {\"a\": 1, \"b\": {\"c\": \"x\"}} resp: {\"a\": 2, \"d\": 3"

abbrev first : Members
first =
    member (codes "a") (number (codes "1"))
      (member (codes "b") (object (member (codes "c") (string (codes "x")) no_members)) no_members)

abbrev second : Members
second =
    member (codes "a") (number (codes "2")) (member (codes "d") (number (codes "3")) no_members)

abbrev found : List Found
found =
    record { offset = 5; members = first; complete = true }
    ∷ record { offset = 37; members = second; complete = false }
    ∷ []

objects_of_text : iter_json_objects python 1 text ≡ some found
unfolding iter_json_objects
objects_of_text = refl

scan_object-ends_example :
    (s : Scan) × (scan_object python text ≡ some s)
    × (length s.rest ≤ length text)
    × (s.complete ≡ true → length s.rest < length text)
scan_object-ends_example = scan_object-ends python python-IsLexer text

harvest_json-first_example :
    (h : Harvest) × (harvest_json python text ≡ some h)
    × ((key : Str) → lookup key h.fields ≡ first_value python key found)
harvest_json-first_example = harvest_json-first python text found objects_of_text
