-- ===== src/Query/Parser.antt =====
-- `_Parser` and `parse_query`: recursive descent over the tokens that are left. The loops and the
-- descent take fuel, one unit for each token.
pub mod Total
pub mod Printer
pub mod Loops
pub mod RoundTrip
use zcc_analysis.Common.{ℕ, zero, suc, ◌+◌, ◌≡◌, Bool, true, false, Option, none, some}
use zcc_analysis.Common.{List, [], ◌∷◌, ◌++◌, Str, length, if◌then◌else◌}
use zcc_analysis.Common.Outcome.{Outcome, ok, raised, ◌>>=◌}
use zcc_analysis.Query.Engine.{Engine, strip}
use zcc_analysis.Query.Node.{
  Node, Nodes, nil, cons, and_node, or_node, not_node, Raised, query_error, out_of_fuel,
  trailing_token, end_of_query, missing_paren, unexpected_token, empty_query,
}
use zcc_analysis.Query.Tokens.{
  Token, lparen, rparen, and_kw, or_kw, not_kw, atom, token_text, tokenize,
}
use zcc_analysis.Query.Atoms.{parse_atom_token}

-- What a method of the parser returns: its value, and the tokens after the ones it consumed.
abbrev pub Parsed {ℓ} : Type ℓ → Type ℓ
Parsed A = Outcome Raised (A × List Token)

abbrev pub Method : Type 0
Method = List Token → Parsed Node

-- `children[0] if len(children) == 1 else wrap(children)`
unfoldable pub single_or : (Nodes → Node) → Node → Nodes → Node
single_or wrap first nil = first
single_or wrap first (cons n ns) = wrap (cons first (cons n ns))

-- One more child in front of what the rest of a loop collects.
unfoldable pub collect : Parsed Node → (List Token → Parsed Nodes) → Parsed Nodes
collect p rest = p >>= λ (n, ts). rest ts >>= λ (ns, ts'). ok (cons n ns, ts')

module _ (unary : Method) where
  -- The loop of `_parse_and`, with the calls of `_parse_unary` as a parameter.
  unfoldable pub and_loop : ℕ → List Token → Parsed Nodes
  unfolding collect
  and_loop fuel [] = ok (nil, [])
  and_loop zero (t ∷ ts) = raised out_of_fuel
  and_loop (suc fuel) (and_kw ∷ ts) = collect (unary ts) (and_loop fuel)
  and_loop (suc fuel) (atom s ∷ ts) = collect (unary (atom s ∷ ts)) (and_loop fuel)
  and_loop (suc fuel) (not_kw ∷ ts) = collect (unary (not_kw ∷ ts)) (and_loop fuel)
  and_loop (suc fuel) (lparen ∷ ts) = collect (unary (lparen ∷ ts)) (and_loop fuel)
  and_loop (suc fuel) (rparen ∷ ts) = ok (nil, rparen ∷ ts)
  and_loop (suc fuel) (or_kw ∷ ts) = ok (nil, or_kw ∷ ts)

  unfoldable pub parse_and : ℕ → Method
  unfolding and_loop single_or
  parse_and fuel ts = unary ts >>= λ (n, ts').
      and_loop fuel ts' >>= λ (ns, ts''). ok (single_or and_node n ns, ts'')

  -- The loop of `_parse_or`.
  unfoldable pub or_loop : ℕ → List Token → Parsed Nodes
  unfolding collect parse_and
  or_loop zero ts = raised out_of_fuel
  or_loop (suc fuel) (or_kw ∷ ts) = collect (parse_and fuel ts) (or_loop fuel)
  or_loop (suc fuel) ts = ok (nil, ts)

  unfoldable pub parse_or : ℕ → Method
  unfolding parse_and or_loop single_or
  parse_or fuel ts = parse_and fuel ts >>= λ (n, ts').
      or_loop fuel ts' >>= λ (ns, ts''). ok (single_or or_node n ns, ts'')

-- The closing parenthesis, after the node inside.
unfoldable pub close : Node → List Token → Parsed Node
close n (rparen ∷ ts) = ok (n, ts)
close n _ = raised (query_error missing_paren)

module _ (E : Engine) where
  -- `_parse_unary` and `_parse_atom`
  unfoldable pub parse_unary : ℕ → Method
  unfolding close token_text
  parse_unary fuel [] = raised (query_error end_of_query)
  parse_unary zero (t ∷ ts) = raised out_of_fuel
  parse_unary (suc fuel) (not_kw ∷ ts) = parse_unary fuel ts >>= λ (n, ts'). ok (not_node n, ts')
  parse_unary (suc fuel) (lparen ∷ ts) =
      parse_or (parse_unary fuel) fuel ts >>= λ (n, ts'). close n ts'
  parse_unary (suc fuel) (atom s ∷ ts) = parse_atom_token E s >>= λ n. ok (n, ts)
  parse_unary (suc fuel) (t ∷ ts) = raised (query_error (unexpected_token (token_text t)))

  -- `_Parser(tokens).parse()`
  unfoldable pub finish : Node → List Token → Outcome Raised Node
  unfolding token_text
  finish n [] = ok n
  finish n (t ∷ ts) = raised (query_error (trailing_token (token_text t)))

  unfoldable pub parse : List Token → Outcome Raised Node
  unfolding finish
  parse ts =
      let fuel = suc (length ts) in
      parse_or (parse_unary fuel) fuel ts >>= λ (n, rest). finish n rest

  -- `parse` on no token is not reached.
  unfoldable pub parse_tokens : List Token → Outcome Raised Node
  unfolding parse
  parse_tokens [] = raised (query_error empty_query)
  parse_tokens (t ∷ ts) = parse (t ∷ ts)

  -- An empty query, and one of blanks alone.
  unfoldable pub parse_query : Str → Outcome Raised Node
  unfolding strip tokenize parse_tokens
  parse_query q = elim (strip E q) [
    | [] ↦ raised (query_error empty_query)
    | c ∷ s ↦ tokenize E q >>= λ ts. parse_tokens ts
  ]
