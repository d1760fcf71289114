-- ===== src/Query/Tokens.antt =====
-- `tokenize`: the query text, cut into parentheses, keywords and atoms. The regular expressions of
-- quoted strings, `/regex/` atoms and bare words are written out as scanners.
pub mod Total
use zcc_analysis.Common.{ℕ, zero, suc, ◌+◌, Bool, true, false, ◌||◌, Option, none, some}
use zcc_analysis.Common.{List, [], ◌∷◌, ◌++◌, Str, codes, str_eq, length, ◌==◌, if◌then◌else◌}
use zcc_analysis.Common.Outcome.{Outcome, ok, raised, ◌>>=◌}
use zcc_analysis.Query.Engine.{Engine}
use zcc_analysis.Query.Node.{
  Raised, query_error, out_of_fuel, unterminated_quote, unterminated_regex,
}

-- `_Token`: a constructor for each kind.
pub data Token : Type 0 where
  lparen rparen and_kw or_kw not_kw : Token
  atom : Str → Token

-- `_Token.text`
unfoldable pub token_text : Token → Str
token_text lparen = codes "("
token_text rparen = codes ")"
token_text and_kw = codes "AND"
token_text or_kw = codes "OR"
token_text not_kw = codes "NOT"
token_text (atom s) = s

abbrev pub backslash : ℕ
backslash = 92

abbrev pub newline : ℕ
newline = 10

-- What a character at the start of a token announces.
pub data Start : Type 0 where
  blank opening closing quote slash letter : Start

-- `(m.group(0), rest)` with more characters in front.
abbrev pub prepend : Str → Option (Str × Str) → Option (Str × Str)
prepend s none = none
prepend s (some (a, r)) = some (s ++ a, r)

-- `((?:[^D\\]|\\.)*)D` after the opening delimiter `D`: the text up to and with the closing one, and
-- what follows. The dot matches no newline.
unfoldable pub scan_delimited : ℕ → Str → Option (Str × Str)
scan_delimited d [] = none
scan_delimited d (c ∷ []) = if c == d then some (c ∷ [], []) else none
scan_delimited d (c ∷ e ∷ s) =
    let plain = prepend (c ∷ []) (scan_delimited d (e ∷ s)) in
    let escaped = prepend (c ∷ e ∷ []) (scan_delimited d s) in
    if c == d
    then some (c ∷ [], e ∷ s)
    else if c == backslash
    then (if e == newline then none else escaped)
    else plain

module _ (E : Engine) where
  -- `[^\s()]`
  unfoldable pub is_word_char : ℕ → Bool
  is_word_char c = if E.is_space c || (c == b'(' || c == b')') then false else true

  -- `[^\s()]*`: the longest run of word characters, and what follows.
  unfoldable pub scan_word : Str → Str × Str
  unfolding is_word_char
  scan_word [] = ([], [])
  scan_word (c ∷ s) = elim (is_word_char c) [
    | true ↦ let (w, r) = scan_word s in (c ∷ w, r)
    | false ↦ ([], c ∷ s)
  ]

  -- The token of a bare word.
  unfoldable pub keyword : Str → Token
  unfolding str_eq
  keyword w =
      let up = E.upper w in
      if str_eq up (codes "AND")
      then and_kw
      else if str_eq up (codes "OR")
      then or_kw
      else if str_eq up (codes "NOT")
      then not_kw
      else atom w

  -- Which branch of the loop a character takes.
  unfoldable pub start : ℕ → Start
  start c =
      if E.is_space c
      then blank
      else if c == b'('
      then opening
      else if c == b')'
      then closing
      else if c == b'"'
      then quote
      else if c == b'/'
      then slash
      else letter

  -- The loop over `q[i:]`. Each round consumes a character at least.
  unfoldable pub tokens_from : ℕ → ℕ → Str → Outcome Raised (List Token)
  unfolding start
  tokens_from fuel i [] = ok []
  tokens_from zero i (c ∷ s) = raised out_of_fuel
  tokens_from (suc fuel) i (c ∷ s) = elim (start c) [
    | blank ↦ tokens_from fuel (i + 1) s
    | opening ↦ tokens_from fuel (i + 1) s >>= λ ts. ok (lparen ∷ ts)
    | closing ↦ tokens_from fuel (i + 1) s >>= λ ts. ok (rparen ∷ ts)
    | quote ↦ elim (scan_delimited c s) [
      | none ↦ raised (query_error (unterminated_quote i))
      | some (t, r) ↦ tokens_from fuel (i + 1 + length t) r >>= λ ts. ok (atom (c ∷ t) ∷ ts)
    ]
    | slash ↦ elim (scan_delimited c s) [
      | none ↦ raised (query_error (unterminated_regex i))
      | some (t, r) ↦ tokens_from fuel (i + 1 + length t) r >>= λ ts. ok (atom (c ∷ t) ∷ ts)
    ]
    | letter ↦
        let (w, r) = scan_word (c ∷ s) in
        tokens_from fuel (i + length w) r >>= λ ts. ok (keyword w ∷ ts)
  ]

  unfoldable pub tokenize : Str → Outcome Raised (List Token)
  unfolding tokens_from
  tokenize q = tokens_from (length q) 0 q
