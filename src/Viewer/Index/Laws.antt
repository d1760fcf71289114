-- ===== src/Viewer/Index/Laws.antt =====
-- The context of a line in its file, and the place of a line number.
use zcc_analysis.Common.{
  ℕ, suc, ◌+◌, ◌≤◌, ◌≡◌, ◌≢◌, refl, arith, Bool, true, false, ◌&&◌, Option, none, some, List, [],
  ◌∷◌, Str, str_eq, keep, leb, ◌==◌, if◌then◌else◌, All, length, get_elem?, take, Bool-cases, inl,
  inr,
}
use zcc_analysis.Viewer.Index.{Line, insert, sort, surrounding_lines, find_from, find_line_index}

-- The line numbers never fall.
abbrev pub IsSorted : List Line → Type 0
IsSorted [] = Unit
IsSorted (x ∷ xs) = All (λ y. x.line_no ≤ y.line_no) xs × IsSorted xs

-- How often a test holds.
abbrev pub count : (Line → Bool) → List Line → ℕ
count p ls = length (keep p ls)

insert-All : (P : Line → Type 0) (x : Line) (ys : List Line) → P x → All P ys → All P (insert x ys)
unfolding insert
insert-All P x [] h k = (h, tt)
insert-All P x (y ∷ ys) h k =
    elim (leb x.line_no y.line_no) as (λ b. All P (if b then x ∷ y ∷ ys else y ∷ insert x ys)) [
      | true ↦ (h, k)
      | false ↦ (k.0, insert-All P x ys h k.1)
    ]

All-mono : (P Q : Line → Type 0) (xs : List Line) → ((x : Line) → P x → Q x) → All P xs → All Q xs
All-mono P Q [] f h = tt
All-mono P Q (x ∷ xs) f h = (f x h.0, All-mono P Q xs f h.1)

insert-IsSorted : (x : Line) (ys : List Line) → IsSorted ys → IsSorted (insert x ys)
unfolding insert
insert-IsSorted x [] h = (tt, tt)
insert-IsSorted x (y ∷ ys) h = elim (Bool-cases (leb x.line_no y.line_no)) [
  | inl e ↦
      let le : x.line_no ≤ y.line_no = ground (arith, e) in
      rw e ((le, All-mono _ _ ys (λ z k. omega (arith, le, k)) h.0), h)
  | inr e ↦ rw e (insert-All _ x ys (ground (arith, e)) h.0, insert-IsSorted x ys h.1)
]

sort-IsSorted : (xs : List Line) → IsSorted (sort xs)
unfolding sort
sort-IsSorted [] = tt
sort-IsSorted (x ∷ xs) = insert-IsSorted x (sort xs) (sort-IsSorted xs)

count-insert :
    (p : Line → Bool) (x : Line) (ys : List Line) → count p (insert x ys) ≡ count p (x ∷ ys)
unfolding insert
count-insert p x [] = refl
count-insert p x (y ∷ ys) = ground (arith, count-insert p x ys)

count-sort : (p : Line → Bool) (xs : List Line) → count p (sort xs) ≡ count p xs
unfolding sort
count-sort p [] = refl
count-sort p (x ∷ xs) = ground (arith, count-insert p x (sort xs), count-sort p xs)

-- The lines of the file whose numbers lie in the radius.
abbrev pub near : Str → ℕ → ℕ → Line → Bool
near file line_no radius ln =
    str_eq ln.source_file file
    && (leb line_no (ln.line_no + radius) && leb ln.line_no (line_no + radius))

-- The context of a line of a file is in the order of the line numbers, and
-- has each line of the file within the radius as often as the index has it,
-- and no other.
pub surrounding_lines-IsSorted :
    (lines : List Line) (c : ℕ) (f : Str) (line_no radius : ℕ)
    → IsSorted (surrounding_lines lines (c ∷ f) (some line_no) radius)
      × ((p : Line → Bool)
          → count p (surrounding_lines lines (c ∷ f) (some line_no) radius)
            ≡ count p (keep (near (c ∷ f) line_no radius) lines))
unfolding surrounding_lines
surrounding_lines-IsSorted lines c f line_no radius =
    let found = keep (near (c ∷ f) line_no radius) lines in
    (sort-IsSorted found, λ p. count-sort p found)

-- An index found is that of the first line with the number; nothing is found
-- only where no line has it.
abbrev pub IsFirst : List Line → ℕ → Option ℕ → Type 0
IsFirst lines target none = All (λ ln. ln.line_no ≢ target) lines
IsFirst lines target (some i) =
    ((ln : Line) × (get_elem? lines i ≡ some ln) × (ln.line_no ≡ target))
    × All (λ ln. ln.line_no ≢ target) (take i lines)

-- An index in a longer list.
abbrev later : Option ℕ → Option ℕ
later none = none
later (some j) = some (suc j)

find_from-suc :
    (i : ℕ) (lines : List Line) (target : ℕ)
    → find_from (suc i) lines target ≡ later (find_from i lines target)
unfolding find_from
find_from-suc i [] target = refl
find_from-suc i (ln ∷ lines) target = elim (Bool-cases (ln.line_no == target)) [
  | inl e ↦ rw e refl
  | inr e ↦
      let s : suc i + 1 ≡ suc (i + 1) = omega arith in
      rw (e, s) (find_from-suc (i + 1) lines target)
]

later-IsFirst :
    (ln : Line) (lines : List Line) (target : ℕ) (o : Option ℕ)
    → ln.line_no ≢ target
    → IsFirst lines target o
    → IsFirst (ln ∷ lines) target (later o)
later-IsFirst ln lines target none h k = (h, k)
later-IsFirst ln lines target (some j) h k = (k.0, (h, k.1))

-- The index of a line number is that of the first line that has it, and there
-- is none only where no line has it.
pub find_line_index-IsFirst :
    (lines : List Line) (target : ℕ) → IsFirst lines target (find_line_index lines target)
unfolding find_line_index find_from
find_line_index-IsFirst [] target = tt
find_line_index-IsFirst (ln ∷ lines) target = elim (Bool-cases (ln.line_no == target)) [
  | inl e ↦ rw e ((ln, refl, ground (arith, e)), tt)
  | inr e ↦
      rw (e, find_from-suc 0 lines target)
        (later-IsFirst ln lines target (find_from 0 lines target) (λ h. ground (arith, e, h))
          (find_line_index-IsFirst lines target))
]
