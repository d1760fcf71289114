-- ===== src/Query/Search/Limit.antt =====
-- The streaming loop against filtering the whole index, and that a search always ends.
use zcc_analysis.Common.{ℕ, zero, suc, ◌+◌, ◌≡◌, ◌≢◌, refl, ap, arith}
use zcc_analysis.Common.{Option, none, some, List, [], ◌∷◌, Str, keep, take}
use zcc_analysis.Common.Outcome.{Outcome, ok, raised, ◌>>=◌}
use zcc_analysis.Query.Engine.{Engine, strip}
use zcc_analysis.Query.Node.{Node, Line, Raised, out_of_fuel, matches, query_error, empty_query}
use zcc_analysis.Query.Tokens.{Token, tokenize}
use zcc_analysis.Query.Tokens.Total.{tokenize-Ends}
use zcc_analysis.Query.Parser.{parse_query, parse_tokens}
use zcc_analysis.Query.Parser.Total.{parse-ends}
use zcc_analysis.Query.Search.{yields, find_matches}

-- The prefix that a limit leaves. A limit of 0 leaves one line, since it is tested after a yield.
abbrev pub limited : Option ℕ → List Line → List Line
limited none ls = ls
limited (some zero) ls = take 1 ls
limited (some (suc n)) ls = take (suc n) ls

module _ (E : Engine) where
  yields-unlimited :
      (node : Node) (k : ℕ) (ls : List Line) → yields E node none k ls ≡ keep (matches E node) ls
  unfolding yields
  yields-unlimited node k [] = refl
  yields-unlimited node k (l ∷ ls) =
      ground (arith, yields-unlimited node k ls, yields-unlimited node (suc k) ls)

  -- `d` more lines may be given out.
  yields-limited :
      (node : Node) (n k d : ℕ) (ls : List Line)
      → k + suc d ≡ n
      → yields E node (some n) k ls ≡ take (suc d) (keep (matches E node) ls)
  unfolding yields
  yields-limited node n k d [] e = refl
  yields-limited node n k zero (l ∷ ls) e = ground (arith, yields-limited node n k zero ls)
  yields-limited node n k (suc d) (l ∷ ls) e =
      ground (arith, yields-limited node n k (suc d) ls, yields-limited node n (suc k) d ls)

  yields_zero :
      (node : Node) (k : ℕ) (ls : List Line)
      → yields E node (some 0) k ls ≡ take 1 (keep (matches E node) ls)
  unfolding yields
  yields_zero node k [] = refl
  yields_zero node k (l ∷ ls) = ground (arith, yields_zero node k ls)

  yields-eq-limited :
      (node : Node) (limit : Option ℕ) (ls : List Line)
      → yields E node limit 0 ls ≡ limited limit (keep (matches E node) ls)
  yields-eq-limited node none ls = yields-unlimited node 0 ls
  yields-eq-limited node (some zero) ls = yields_zero node 0 ls
  yields-eq-limited node (some (suc n)) ls = yields-limited node (suc n) 0 n ls (omega arith)

  -- A search that parses returns the matching lines in index order, all of them without a limit, the
  -- first `max(1, limit)` of them with one; a query that raises returns nothing else.
  pub find_matches_filters :
      (ls : List Line) (q : Str) (limit : Option ℕ)
      → find_matches E ls q limit
        ≡ (parse_query E q >>= λ node. ok (limited limit (keep (matches E node) ls)))
  unfolding find_matches
  find_matches_filters ls q limit = after (parse_query E q)
    where
      after :
          (r : Outcome Raised Node)
          → (r >>= λ node. ok (yields E node limit 0 ls))
            ≡ (r >>= λ node. ok (limited limit (keep (matches E node) ls)))
      after (ok node) = ap ok (yields-eq-limited node limit ls)
      after (raised e) = refl

  parse_tokens-ends :
      (r : Outcome Raised (List Token))
      → ◌≢◌ {A = Outcome Raised (List Token)} r (raised out_of_fuel)
      → ◌≢◌ {A = Outcome Raised Node} (r >>= λ ts. parse_tokens E ts) (raised out_of_fuel)
  unfolding parse_tokens
  parse_tokens-ends (ok []) h = ground arith
  parse_tokens-ends (ok (t ∷ ts)) h = parse-ends E (t ∷ ts)
  parse_tokens-ends (raised e) h = ground (arith, h)

  -- Every text parses to a tree or raises an exception of the program: the fuel never runs out.
  pub parse_query-ends :
      (q : Str) → ◌≢◌ {A = Outcome Raised Node} (parse_query E q) (raised out_of_fuel)
  unfolding parse_query
  parse_query-ends q =
      elim (strip E q)
        as (λ s.
          ◌≢◌ {A = Outcome Raised Node}
            (elim s [
              | [] ↦ raised (query_error empty_query)
              | c ∷ s' ↦ tokenize E q >>= λ ts. parse_tokens E ts
            ])
            (raised out_of_fuel)) [
              | [] ↦ ground arith
              | c ∷ s' ↦ parse_tokens-ends (tokenize E q) (tokenize-Ends E q)
            ]
