-- ===== src/Query/Search.antt =====
-- `find_matches`: the matching lines of an index, in order and up to a limit.
pub mod Limit
use zcc_analysis.Common.{
  ℕ, suc, Bool, false, Option, none, some, List, [], ◌∷◌, Str, leb, if◌then◌else◌,
}
use zcc_analysis.Common.Outcome.{Outcome, ok, ◌>>=◌}
use zcc_analysis.Query.Engine.{Engine}
use zcc_analysis.Query.Node.{Node, Line, Raised, matches}
use zcc_analysis.Query.Parser.{parse_query}

-- `limit is not None and yielded >= limit`
unfoldable pub reached : Option ℕ → ℕ → Bool
reached none yielded = false
reached (some limit) yielded = leb limit yielded

module _ (E : Engine) where
  -- The loop of the generator; `yielded` counts the lines that it has given out.
  unfoldable pub yields : Node → Option ℕ → ℕ → List Line → List Line
  unfolding reached
  yields node limit yielded [] = []
  yields node limit yielded (l ∷ ls) =
      let more = yields node limit (suc yielded) ls in
      let skip = yields node limit yielded ls in
      if matches E node l then l ∷ (if reached limit (suc yielded) then [] else more) else skip

  unfoldable pub find_matches : List Line → Str → Option ℕ → Outcome Raised (List Line)
  unfolding yields
  find_matches lines query limit = parse_query E query >>= λ node. ok (yields node limit 0 lines)
