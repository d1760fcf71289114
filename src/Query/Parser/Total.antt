-- ===== src/Query/Parser/Total.antt =====
-- The fuel of the parser is enough: the parser ends on every list of tokens.
use zcc_analysis.Common.{ap}
use zcc_analysis.Common.{ℕ, zero, suc, ◌<◌, ◌≤◌, ◌≢◌, arith}
use zcc_analysis.Common.{List, [], ◌∷◌, length}
use zcc_analysis.Common.Outcome.{Outcome, ok, raised, ◌>>=◌}
use zcc_analysis.Query.Engine.{Engine}
use zcc_analysis.Query.Node.{Node, Nodes, cons, and_node, or_node, Raised, out_of_fuel}
use zcc_analysis.Query.Tokens.{Token, lparen, rparen, and_kw, or_kw, not_kw, atom}
use zcc_analysis.Query.Atoms.{parse_atom_token}
use zcc_analysis.Query.Atoms.Total.{parse_atom_token-Ends}
use zcc_analysis.Query.Parser.{
  Parsed, Method, single_or, collect, and_loop, parse_and, or_loop, parse_or, close, parse_unary,
  finish, parse,
}

-- The run ended, and left at most `n` tokens if it returned.
abbrev pub Within {ℓ} : {A : Type ℓ} → ℕ → Parsed A → Type 0
Within n (ok (a, rest)) = length rest ≤ n
Within n (raised e) = e ≢ out_of_fuel

Within-bind {ℓ κ} :
    {A : Type ℓ} {B : Type κ} (n k : ℕ) (m : Parsed A) (f : A × List Token → Parsed B)
    → Within n m
    → ((a : A) (rest : List Token) → length rest ≤ n → Within k (f (a, rest)))
    → Within k (m >>= f)
Within-bind n k (ok (a, rest)) f h g = g a rest h
Within-bind n k (raised e) f h g = h

-- A method that ends, and consumes a token at least, on inputs shorter than `n`.
abbrev pub IsGood : ℕ → Method → Type 0
IsGood n m = (ts : List Token) (k : ℕ) → length ts < n → length ts ≤ suc k → Within k (m ts)

Within-mono {ℓ} : {A : Type ℓ} (n k : ℕ) (r : Parsed A) → n ≤ k → Within n r → Within k r
Within-mono n k (ok (a, rest)) h w = omega arith
Within-mono n k (raised e) h w = w

-- `p`, and then `rest` on what it leaves.
module _ (k : ℕ) (p : Parsed Node) (within : Within k p) where
  then-Within {ℓ} :
      {A : Type ℓ} (rest : List Token → Parsed Nodes) (f : Node → Nodes → A)
      → ((ts : List Token) → length ts ≤ k → Within (length ts) (rest ts))
      → Within k (p >>= λ (n, ts). rest ts >>= λ (ns, ts'). ok (f n ns, ts'))
  then-Within rest f g = Within-bind k k p _ within λ a ts le.
      Within-bind k k (rest ts) _ (Within-mono (length ts) k (rest ts) le (g ts le))
        λ b ts' le'. le'

module _ (unary : Method) (n : ℕ) (good : IsGood n unary) where
  -- A round of the loop: an operand at `ts`, and the loop on what it leaves.
  round-Within :
      (k : ℕ) (ts : List Token) (rest : List Token → Parsed Nodes)
      → length ts < n
      → length ts ≤ suc k
      → ((ts' : List Token) → length ts' ≤ k → Within (length ts') (rest ts'))
      → Within k (collect (unary ts) rest)
  unfolding collect
  round-Within k ts rest h le g = then-Within k (unary ts) (good ts k h le) rest cons g

  and_loop-Within :
      (fuel : ℕ) (ts : List Token)
      → length ts < n
      → length ts ≤ fuel
      → Within (length ts) (and_loop unary fuel ts)
  unfolding and_loop
  and_loop-Within zero [] h le = omega arith
  and_loop-Within (suc fuel) [] h le = omega arith
  and_loop-Within zero (t ∷ ts) h le = elim le [ ]
  and_loop-Within (suc fuel) (and_kw ∷ ts) h le =
      Within-mono (length ts) (suc (length ts)) (collect (unary ts) (and_loop unary fuel))
        (omega arith)
        (round-Within (length ts) ts (and_loop unary fuel) (omega arith) (omega arith)
          λ ts' le'. and_loop-Within fuel ts' (omega arith) (omega arith))
  and_loop-Within (suc fuel) (rparen ∷ ts) h le = omega arith
  and_loop-Within (suc fuel) (or_kw ∷ ts) h le = omega arith
  and_loop-Within (suc fuel) (t ∷ ts) h le =
      Within-mono (length ts) (suc (length ts)) (collect (unary (t ∷ ts)) (and_loop unary fuel))
        (omega arith)
        (round-Within (length ts) (t ∷ ts) (and_loop unary fuel) h (omega arith)
          λ ts' le'. and_loop-Within fuel ts' (omega arith) (omega arith))

  parse_and-Within :
      (fuel : ℕ) (ts : List Token) (k : ℕ)
      → k < n
      → length ts < n
      → length ts ≤ suc k
      → k ≤ fuel
      → Within k (parse_and unary fuel ts)
  unfolding parse_and
  parse_and-Within fuel ts k small h le enough =
      then-Within k (unary ts) (good ts k h le) (and_loop unary fuel) (single_or and_node)
        λ ts' le'. and_loop-Within fuel ts' (omega arith) (omega arith)

  or_loop-Within :
      (fuel : ℕ) (ts : List Token)
      → length ts < n
      → length ts < fuel
      → Within (length ts) (or_loop unary fuel ts)
  unfolding or_loop collect
  or_loop-Within zero ts h le = elim le [ ]
  or_loop-Within (suc fuel) [] h le = omega arith
  or_loop-Within (suc fuel) (or_kw ∷ ts) h le =
      Within-mono (length ts) (suc (length ts))
        (collect (parse_and unary fuel ts) (or_loop unary fuel)) (omega arith)
        (then-Within (length ts) (parse_and unary fuel ts)
          (parse_and-Within fuel ts (length ts) (omega arith) (omega arith) (omega arith)
            (omega arith))
          (or_loop unary fuel) cons λ ts' le'. or_loop-Within fuel ts' (omega arith) (omega arith))
  or_loop-Within (suc fuel) (_ ∷ ts) h le = omega arith

  -- `parse_or` is as good as the operands that it is given.
  pub parse_or-Within :
      (fuel : ℕ) (ts : List Token) (k : ℕ)
      → k < n
      → length ts < n
      → length ts ≤ suc k
      → k < fuel
      → Within k (parse_or unary fuel ts)
  unfolding parse_or
  parse_or-Within fuel ts k small h le enough =
      then-Within k (parse_and unary fuel ts) (parse_and-Within fuel ts k small h le (omega arith))
        (or_loop unary fuel) (single_or or_node)
        λ ts' le'. or_loop-Within fuel ts' (omega arith) (omega arith)

close-Within : (k j : ℕ) (n : Node) (ts : List Token) → length ts ≤ k → Within k (close n ts)
unfolding close
close-Within k j n [] h = ground arith
close-Within k j n (rparen ∷ ts) h = omega arith
close-Within k j n (_ ∷ ts) h = ground arith

module _ (E : Engine) where
  -- On fewer tokens than its fuel `parse_unary` ends, and consumes one at least.
  pub parse_unary-IsGood : (fuel : ℕ) → IsGood fuel (parse_unary E fuel)
  unfolding parse_unary
  parse_unary-IsGood fuel [] k h le = ground arith
  parse_unary-IsGood zero (t ∷ ts) k h le = elim h [ ]
  parse_unary-IsGood (suc fuel) (not_kw ∷ ts) k h le =
      Within-bind k k (parse_unary E fuel ts) _
        (parse_unary-IsGood fuel ts k (omega arith) (omega arith)) λ n rest le'. le'
  parse_unary-IsGood (suc fuel) (lparen ∷ ts) k h le =
      Within-bind k k (parse_or (parse_unary E fuel) fuel ts) _
        (Within-mono (length ts) k (parse_or (parse_unary E fuel) fuel ts) (omega arith) (
          parse_or-Within (parse_unary E fuel) fuel (parse_unary-IsGood fuel) fuel ts (length ts)
            (omega arith) (omega arith) (omega arith) (omega arith)))
        λ n rest le'. close-Within k k n rest le'
  parse_unary-IsGood (suc fuel) (atom s ∷ ts) k h le =
      atom_case (parse_atom_token E s) (parse_atom_token-Ends E s)
    where
      atom_case :
          (r : Outcome Raised Node)
          → ◌≢◌ {A = Outcome Raised Node} r (raised out_of_fuel)
          → Within k (r >>= λ n. ok (n, ts))
      atom_case (ok n) e = omega arith
      atom_case (raised x) e = λ q. e (ap raised q)
  parse_unary-IsGood (suc fuel) (_ ∷ ts) k h le = ground arith

  finish-ends :
      (k : ℕ) (r : Parsed Node)
      → Within k r
      → ◌≢◌ {A = Outcome Raised Node} (r >>= λ (n, rest). finish E n rest) (raised out_of_fuel)
  unfolding finish
  finish-ends k (ok (n, [])) w = ground arith
  finish-ends k (ok (n, t ∷ ts)) w = ground arith
  finish-ends k (raised e) w = ground (arith, w)

  -- Whatever the tokens, the parser comes to a tree or to an exception of the program.
  pub parse-ends :
      (ts : List Token) → ◌≢◌ {A = Outcome Raised Node} (parse E ts) (raised out_of_fuel)
  unfolding parse
  parse-ends ts =
      let fuel = suc (length ts) in
      finish-ends (length ts) (parse_or (parse_unary E fuel) fuel ts) (
        parse_or-Within (parse_unary E fuel) fuel (parse_unary-IsGood fuel) fuel ts (length ts)
          (omega arith) (omega arith) (omega arith) (omega arith))
