-- ===== src/Query/Tokens/Total.antt =====
-- The tokenizer ends on every text: each round consumes a character.
use zcc_analysis.Common.{ℕ, zero, suc, ◌+◌, ◌<◌, ◌≤◌, ◌≡◌, ◌≢◌, refl, Bool, true, false, arith}
use zcc_analysis.Common.{List, [], ◌∷◌, length, Str, Option, none, some, ◌==◌, if◌then◌else◌}
use zcc_analysis.Common.Outcome.{Outcome, ok, raised, ◌>>=◌}
use zcc_analysis.Query.Engine.{Engine}
use zcc_analysis.Query.Node.{
  Raised, out_of_fuel, query_error, unterminated_quote, unterminated_regex,
}
use zcc_analysis.Query.Tokens.{
  Token, Start, blank, opening, closing, quote, slash, letter, start, is_word_char, scan_word,
  scan_delimited, tokens_from, tokenize, prepend, keyword, backslash, newline, lparen, rparen, atom,
}

-- What follows a delimited text is shorter.
abbrev Shorter : ℕ → Option (Str × Str) → Type 0
Shorter n none = Unit
Shorter n (some (t, r)) = length r < n

Shorter-prepend :
    (n k : ℕ) (p : Str) (o : Option (Str × Str)) → n ≤ k → Shorter n o → Shorter k (prepend p o)
Shorter-prepend n k p none h w = tt
Shorter-prepend n k p (some (t, r)) h w = omega arith

Shorter-if :
    (n : ℕ) (b : Bool) (x y : Option (Str × Str))
    → Shorter n x
    → Shorter n y
    → Shorter n (if b then x else y)
Shorter-if n true x y hx hy = hx
Shorter-if n false x y hx hy = hy

scan_delimited-Shorter : (d : ℕ) (s : Str) → Shorter (suc (length s)) (scan_delimited d s)
unfolding scan_delimited
scan_delimited-Shorter d [] = tt
scan_delimited-Shorter d (c ∷ []) = Shorter-if 2 (c == d) _ _ (omega arith) tt
scan_delimited-Shorter d (c ∷ e ∷ s) = Shorter-if _ (c == d) _ _ (omega arith) (
    Shorter-if _ (c == backslash) _ _
      (Shorter-if _ (e == newline) _ _ tt (
        Shorter-prepend _ _ (c ∷ e ∷ []) (scan_delimited d s) (omega arith)
          (scan_delimited-Shorter d s)))
      (Shorter-prepend _ _ (c ∷ []) (scan_delimited d (e ∷ s)) (omega arith)
        (scan_delimited-Shorter d (e ∷ s))))

module _ (E : Engine) where
  length-scan_word : (s : Str) → length (scan_word E s).1 ≤ length s
  unfolding scan_word
  length-scan_word [] = omega arith
  length-scan_word (c ∷ s) = ground (arith, length-scan_word s)

  -- A letter starts a word, so a word is consumed.
  length-scan_word_letter :
      (c : ℕ) (s : Str) → start E c ≡ letter → length (scan_word E (c ∷ s)).1 ≤ length s
  unfolding scan_word start is_word_char
  length-scan_word_letter c s h = ground (arith, length-scan_word s)

  abbrev pub Ends : Outcome Raised (List Token) → Type 0
  Ends r = ◌≢◌ {A = Outcome Raised (List Token)} r (raised out_of_fuel)

  Ends-then :
      (r : Outcome Raised (List Token)) (t : Token) → Ends r → Ends (r >>= λ ts. ok (t ∷ ts))
  Ends-then (ok ts) t h = ground arith
  Ends-then (raised e) t h = ground (arith, h)

  module _ (fuel i c : ℕ) (s : Str) (h : length s ≤ fuel)
      (rest-ends : (j : ℕ) (r : Str) → length r ≤ fuel → Ends (tokens_from E fuel j r)) where
    delimited-Ends :
        (o : Option (Str × Str))
        → Shorter (suc (length s)) o
        → (e : Raised) → e ≢ out_of_fuel
        → Ends (elim o [
          | none ↦ raised e
          | some (t, r) ↦ tokens_from E fuel (i + 1 + length t) r >>= λ ts. ok (atom (c ∷ t) ∷ ts)
        ])
    delimited-Ends none w e ne = ground (arith, ne)
    delimited-Ends (some (t, r)) w e ne =
        Ends-then (tokens_from E fuel (i + 1 + length t) r) (atom (c ∷ t))
          (rest-ends (i + 1 + length t) r (omega arith))

    -- A round of the loop, by the branch that it takes.
    round-Ends : (k : Start) → start E c ≡ k → Ends (tokens_from E (suc fuel) i (c ∷ s))
    unfolding tokens_from
    round-Ends blank e = rw (e, tokens_from) (rest-ends (i + 1) s h)
    round-Ends opening e =
        rw (e, tokens_from)
          (Ends-then (tokens_from E fuel (i + 1) s) lparen (rest-ends (i + 1) s h))
    round-Ends closing e =
        rw (e, tokens_from)
          (Ends-then (tokens_from E fuel (i + 1) s) rparen (rest-ends (i + 1) s h))
    round-Ends quote e =
        rw (e, tokens_from)
          (delimited-Ends (scan_delimited c s) (scan_delimited-Shorter c s)
            (query_error (unterminated_quote i)) (ground arith))
    round-Ends slash e =
        rw (e, tokens_from)
          (delimited-Ends (scan_delimited c s) (scan_delimited-Shorter c s)
            (query_error (unterminated_regex i)) (ground arith))
    round-Ends letter e =
        rw (e, tokens_from)
          (let (w, r) = scan_word E (c ∷ s) in
            Ends-then (tokens_from E fuel (i + length w) r) (keyword E w)
              (rest-ends (i + length w) r (omega (arith, length-scan_word_letter c s e))))

  -- With a unit of fuel for each character the loop ends.
  tokens_from-Ends : (fuel i : ℕ) (s : Str) → length s ≤ fuel → Ends (tokens_from E fuel i s)
  unfolding tokens_from
  tokens_from-Ends zero i [] h = ground arith
  tokens_from-Ends (suc fuel) i [] h = ground arith
  tokens_from-Ends zero i (c ∷ s) h = elim h [ ]
  tokens_from-Ends (suc fuel) i (c ∷ s) h =
      round-Ends fuel i c s (omega arith) (λ j r le. tokens_from-Ends fuel j r le) (start E c) refl

  -- Whatever the text, the tokenizer comes to tokens or to a `QueryError`.
  pub tokenize-Ends : (q : Str) → Ends (tokenize E q)
  unfolding tokenize
  tokenize-Ends q = tokens_from-Ends (length q) 0 q (omega arith)
