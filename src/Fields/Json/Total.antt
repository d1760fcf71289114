-- ===== src/Fields/Json/Total.antt =====
-- The scanner ends on every text, and only a value that was read to its end counts as complete.
use zcc_analysis.Common.{
  ℕ, zero, suc, ◌*◌, ◌≤◌, ◌<◌, ◌≡◌, refl, ap, arith, Bool, true, false, Option, none, some, [], ◌∷◌,
  ◌++◌, if◌then◌else◌,
}
use zcc_analysis.Common.{
  Str, codes, starts_with, length, length-append, length-drop, drop, ltb, ◌==◌,
}
use zcc_analysis.Fields.Json.{
  Library, Json, array, object, string, Items, Members, no_items, no_members, skip_ws, escape,
  Scanned, push, at_char, string_from, Scan, Job, value, array_loop, object_loop, max_depth,
  scanned, scalar, collect, collect_at, go_on, scan, scan_object,
}

-- A match of a number is a part of the text at its start, of one character or more.
abbrev pub IsLexer : Library → Type 0
IsLexer P = (t : Str) (m : Str × Str) → P.number t ≡ some m → (t ≡ m.0 ++ m.1) × (1 ≤ length m.0)

-- A scan of at most `n` characters that gives a result: complete only if it has read one.
abbrev pub IsWithin : ℕ → Option Scan → Type 0
IsWithin n o =
    (s : Scan) × (o ≡ some s) × (length s.rest ≤ n) × (s.complete ≡ true → length s.rest < n)

scanned-IsWithin :
    (n : ℕ) (v : Option Json) (r : Str) (ok : Bool)
    → length r ≤ n
    → (ok ≡ true → length r < n)
    → IsWithin n (scanned v r ok)
scanned-IsWithin n v r ok h k = (_, refl, h, k)

stopped : (n : ℕ) (v : Option Json) (r : Str) → length r ≤ n → IsWithin n (scanned v r false)
stopped n v r h = (_, refl, h, λ e. cc)

IsWithin-mono : (a b : ℕ) (o : Option Scan) → a ≤ b → IsWithin a o → IsWithin b o
IsWithin-mono a b o h w = (w.0, w.1, omega (arith, h, w.2), λ e. omega (arith, h, w.3 e))

if-IsWithin :
    (n : ℕ) (c : Bool) (o p : Option Scan)
    → (c ≡ true → IsWithin n o)
    → (c ≡ false → IsWithin n p)
    → IsWithin n (if c then o else p)
if-IsWithin n true o p h k = h refl
if-IsWithin n false o p h k = k refl

go_on-IsWithin :
    (a n : ℕ) (o : Option Scan) (kept : Option Json → Json) (more : Option Json → Str → Option Scan)
    → a ≤ n
    → IsWithin a o
    → ((v : Option Json) (r : Str) → length r < a → IsWithin n (more v r))
    → IsWithin n (go_on o kept more)
go_on-IsWithin a n o kept more h w k = rw w.1 (
    if-IsWithin n (w.0).complete _ _ (λ e. k (w.0).value (w.0).rest (w.3 e))
      (λ e. stopped n (some (kept (w.0).value)) (w.0).rest (omega (arith, h, w.2))))

skip_ws-le : (t : Str) → length (skip_ws t) ≤ length t
unfolding skip_ws
skip_ws-le [] = omega arith
skip_ws-le (c ∷ t) = ground (arith, skip_ws-le t)

module _ (P : Library) where
  at_char-le :
      (n c : ℕ) (t : Str) (next escaped : Scanned)
      → length t ≤ n
      → length next.1 ≤ n
      → length escaped.1 ≤ n
      → length ((at_char c t next escaped).1) ≤ n
  at_char-le n c t next escaped h k l = ground arith

  unicode-le :
      (n : ℕ) (u : Bool) (o : Option ℕ) (long short : Scanned)
      → length long.1 ≤ n
      → length short.1 ≤ n
      → length
          (if◌then◌else◌ {A = Scanned} u (elim o [ none ↦ short | some x ↦ push x long ]) short).1
        ≤ n
  unicode-le n true none long short h k = k
  unicode-le n true (some x) long short h k = h
  unicode-le n false o long short h k = k

  short :
      (c e : ℕ) (t : Str)
      → length (string_from P (e ∷ t)).1 ≤ length (e ∷ t)
      → length (string_from P t).1 ≤ length t
      → length ((at_char c (e ∷ t) (string_from P (e ∷ t)) (push (escape e) (string_from P t))).1)
        ≤ length (c ∷ e ∷ t)
  short c e t h k = at_char-le _ c (e ∷ t) _ _ (omega arith) (omega (arith, h)) (omega (arith, k))

  string_from-le : (t : Str) → length (string_from P t).1 ≤ length t
  unfolding string_from
  string_from-le [] = omega arith
  string_from-le (c ∷ []) =
      at_char-le 1 c [] ([], [], false) ([], [], false) (omega arith) (omega arith) (omega arith)
  string_from-le (c ∷ e ∷ a ∷ b ∷ d ∷ f ∷ t) =
      at_char-le _ c (e ∷ a ∷ b ∷ d ∷ f ∷ t) _ _ (omega arith)
        (omega (arith, string_from-le (e ∷ a ∷ b ∷ d ∷ f ∷ t)))
        (unicode-le _ (e == b'u') (P.chr16 (a ∷ b ∷ d ∷ f ∷ [])) (string_from P t)
          (push (escape e) (string_from P (a ∷ b ∷ d ∷ f ∷ t))) (omega (arith, string_from-le t))
          (omega (arith, string_from-le (a ∷ b ∷ d ∷ f ∷ t))))
  string_from-le (c ∷ e ∷ []) = short c e [] (string_from-le (e ∷ [])) (string_from-le [])
  string_from-le (c ∷ e ∷ a ∷ []) =
      short c e (a ∷ []) (string_from-le (e ∷ a ∷ [])) (string_from-le (a ∷ []))
  string_from-le (c ∷ e ∷ a ∷ b ∷ []) =
      short c e (a ∷ b ∷ []) (string_from-le (e ∷ a ∷ b ∷ [])) (string_from-le (a ∷ b ∷ []))
  string_from-le (c ∷ e ∷ a ∷ b ∷ d ∷ []) =
      short c e (a ∷ b ∷ d ∷ []) (string_from-le (e ∷ a ∷ b ∷ d ∷ []))
        (string_from-le (a ∷ b ∷ d ∷ []))

  module _ (lexer : IsLexer P) where
    number_at :
        (t : Str) (o : Option (Str × Str))
        → P.number t ≡ o
        → IsWithin (length t) (elim o [
          | none ↦ scanned none t false
          | some m ↦ scanned (some (Json.number m.0)) m.1 (elim m.1 [ [] ↦ false | c ∷ u ↦ true ])
        ])
    number_at t none e = stopped _ none t (omega arith)
    number_at t (some m) e =
        let law = lexer t m e in
        let here : length m.1 < length t =
          omega (arith, ap length law.0, length-append m.0 m.1, law.1) in
        scanned-IsWithin _ _ m.1 _ (omega (arith, here)) (λ f. here)

    scalar-IsWithin : (c : ℕ) (t : Str) → IsWithin (length (c ∷ t)) (scalar P (c ∷ t))
    unfolding scalar
    scalar-IsWithin c t =
        if-IsWithin _ (starts_with (c ∷ t) (codes "true")) _ _
          (λ e. word 3 (some (Json.boolean true)))
          (λ e.
            if-IsWithin _ (starts_with (c ∷ t) (codes "false")) _ _
              (λ e. word 4 (some (Json.boolean false)))
              (λ e.
                if-IsWithin _ (starts_with (c ∷ t) (codes "null")) _ _
                  (λ e. word 3 (some Json.null)) (λ e. number_at (c ∷ t) (P.number (c ∷ t)) refl)))
      where
        word :
            (n : ℕ) (v : Option Json)
            → IsWithin (length (c ∷ t)) (scanned v (drop (suc n) (c ∷ t)) true)
        word n v =
            scanned-IsWithin _ v (drop n t) true (omega (arith, length-drop n t))
              (λ e. omega (arith, length-drop n t))

    -- The fuel that is enough for a job on `n` characters.
    abbrev need : Job → ℕ → ℕ
    need (value depth) n = suc (n * 2)
    need (array_loop depth out) n = suc (suc (n * 2))
    need (object_loop depth out) n = suc (suc (n * 2))

    -- What the calls with one unit of fuel less give.
    module _ (fuel : ℕ)
        (calls : (job : Job) (u : Str)
          → need job (length u) ≤ fuel
          → IsWithin (length u) (scan P fuel job u)) where
      at_value :
          (depth : ℕ) (t : Str)
          → length t * 2 ≤ fuel
          → IsWithin (length t) (elim t [
            | [] ↦ scanned none [] false
            | c ∷ u ↦
                if ltb max_depth depth
                then scanned none (c ∷ u) false
                else if c == b'"'
                then scanned
                    (some (string (string_from P u).0))
                    (string_from P u).1
                    (string_from P u).2
                else if c == b'{'
                then scan P fuel (object_loop depth no_members) u
                else if c == b'['
                then scan P fuel (array_loop depth no_items) u
                else scalar P (c ∷ u)
          ])
      at_value depth [] h = stopped 0 none [] (omega arith)
      at_value depth (c ∷ u) h =
          if-IsWithin _ (ltb max_depth depth) _ _ (λ e. stopped _ none (c ∷ u) (omega arith))
            (λ e.
              if-IsWithin _ (c == b'"') _ _
                (λ e.
                  scanned-IsWithin _ _ _ _ (omega (arith, string_from-le u))
                    (λ f. omega (arith, string_from-le u)))
                (λ e.
                  if-IsWithin _ (c == b'{') _ _
                    (λ e.
                      IsWithin-mono (length u) _ _ (omega arith)
                        (calls (object_loop depth no_members) u (omega (arith, h))))
                    (λ e.
                      if-IsWithin _ (c == b'[') _ _
                        (λ e.
                          IsWithin-mono (length u) _ _ (omega arith)
                            (calls (array_loop depth no_items) u (omega (arith, h))))
                        (λ e. scalar-IsWithin c u))))

      at_array :
          (depth : ℕ) (out : Items) (t : Str)
          → suc (length t * 2) ≤ fuel
          → IsWithin (length t) (elim t [
            | [] ↦ scanned (some (array out)) [] false
            | c ∷ u ↦
                if c == b']'
                then scanned (some (array out)) u true
                else if c == b','
                then scan P fuel (array_loop depth out) u
                else go_on
                    (scan P fuel (value (suc depth)) (c ∷ u))
                    (λ v. array (collect out v))
                    (λ v rest. scan P fuel (array_loop depth (collect out v)) rest)
          ])
      at_array depth out [] h = stopped 0 _ [] (omega arith)
      at_array depth out (c ∷ u) h =
          if-IsWithin _ (c == b']') _ _
            (λ e. scanned-IsWithin _ _ u true (omega arith) (λ f. omega arith))
            (λ e.
              if-IsWithin _ (c == b',') _ _
                (λ e.
                  IsWithin-mono (length u) _ _ (omega arith)
                    (calls (array_loop depth out) u (omega (arith, h))))
                (λ e.
                  go_on-IsWithin (length (c ∷ u)) _ _ _ _ (omega arith)
                    (calls (value (suc depth)) (c ∷ u) (omega (arith, h)))
                    (λ v r k.
                      IsWithin-mono (length r) _ _ (omega (arith, k))
                        (calls (array_loop depth (collect out v)) r (omega (arith, h, k))))))

      at_colon :
          (depth n : ℕ) (key : Str) (out : Members) (t : Str)
          → length t < n
          → suc (length t * 2) ≤ fuel
          → IsWithin n (elim t [
            | [] ↦ scanned (some (object out)) [] false
            | d ∷ u ↦
                if d == b':'
                then go_on
                    (scan P fuel (value (suc depth)) u)
                    (λ v. object (collect_at out key v))
                    (λ v rest. scan P fuel (object_loop depth (collect_at out key v)) rest)
                else scanned (some (object out)) (d ∷ u) false
          ])
      at_colon depth n key out [] k h = stopped n _ [] (omega arith)
      at_colon depth n key out (d ∷ u) k h =
          if-IsWithin _ (d == b':') _ _
            (λ e.
              go_on-IsWithin (length u) n _ _ _ (omega (arith, k))
                (calls (value (suc depth)) u (omega (arith, h)))
                (λ v r l.
                  IsWithin-mono (length r) _ _ (omega (arith, k, l))
                    (calls (object_loop depth (collect_at out key v)) r (omega (arith, h, l)))))
            (λ e. stopped n _ (d ∷ u) (omega (arith, k)))

      at_object :
          (depth : ℕ) (out : Members) (t : Str)
          → suc (length t * 2) ≤ fuel
          → IsWithin (length t) (elim t [
            | [] ↦ scanned (some (object out)) [] false
            | c ∷ u ↦
                if c == b'}'
                then scanned (some (object out)) u true
                else if c == b','
                then scan P fuel (object_loop depth out) u
                else if c == b'"'
                then (if (string_from P u).2
                    then (elim (skip_ws (string_from P u).1) [
                      | [] ↦ scanned (some (object out)) [] false
                      | d ∷ w ↦
                          if d == b':'
                          then go_on
                              (scan P fuel (value (suc depth)) w)
                              (λ v. object (collect_at out (string_from P u).0 v))
                              (λ v rest.
                                scan P fuel
                                  (object_loop depth (collect_at out (string_from P u).0 v))
                                  rest)
                          else scanned (some (object out)) (d ∷ w) false
                    ])
                    else scanned (some (object out)) (string_from P u).1 false)
                else scanned (some (object out)) (c ∷ u) false
          ])
      at_object depth out [] h = stopped 0 _ [] (omega arith)
      at_object depth out (c ∷ u) h =
          if-IsWithin _ (c == b'}') _ _
            (λ e. scanned-IsWithin _ _ u true (omega arith) (λ f. omega arith))
            (λ e.
              if-IsWithin _ (c == b',') _ _
                (λ e.
                  IsWithin-mono (length u) _ _ (omega arith)
                    (calls (object_loop depth out) u (omega (arith, h))))
                (λ e.
                  if-IsWithin _ (c == b'"') _ _
                    (λ e.
                      if-IsWithin _ (string_from P u).2 _ _
                        (λ e.
                          at_colon depth _ (string_from P u).0 out (skip_ws (string_from P u).1)
                            (omega (arith, skip_ws-le (string_from P u).1, string_from-le u))
                            (omega (arith, skip_ws-le (string_from P u).1, string_from-le u, h)))
                        (λ e. stopped _ _ (string_from P u).1 (omega (arith, string_from-le u))))
                    (λ e. stopped _ _ (c ∷ u) (omega arith))))

    pub scan-IsWithin :
        (fuel : ℕ) (job : Job) (t : Str)
        → need job (length t) ≤ fuel
        → IsWithin (length t) (scan P fuel job t)
    unfolding scan
    scan-IsWithin zero (value depth) t h = elim h [ ]
    scan-IsWithin zero (array_loop depth out) t h = elim h [ ]
    scan-IsWithin zero (object_loop depth out) t h = elim h [ ]
    scan-IsWithin (suc fuel) (value depth) t h =
        IsWithin-mono _ _ _ (skip_ws-le t)
          (at_value fuel (scan-IsWithin fuel) depth (skip_ws t) (omega (arith, h, skip_ws-le t)))
    scan-IsWithin (suc fuel) (array_loop depth out) t h =
        IsWithin-mono _ _ _ (skip_ws-le t) (
          at_array fuel (scan-IsWithin fuel) depth out (skip_ws t) (omega (arith, h, skip_ws-le t)))
    scan-IsWithin (suc fuel) (object_loop depth out) t h =
        IsWithin-mono _ _ _ (skip_ws-le t) (
          at_object fuel (scan-IsWithin fuel) depth out (skip_ws t)
            (omega (arith, h, skip_ws-le t)))

    -- Scanning an object ends on every text, of any nesting, cut anywhere: it
    -- gives a result, never one past the end, and one that is complete only
    -- after it has read a closing brace's worth of text.
    pub scan_object-ends :
        (t : Str)
        → (s : Scan) × (scan_object P t ≡ some s)
          × (length s.rest ≤ length t)
          × (s.complete ≡ true → length s.rest < length t)
    unfolding scan_object
    scan_object-ends t =
        scan-IsWithin (suc (suc (length t * 2))) (object_loop 0 no_members) t (omega arith)
