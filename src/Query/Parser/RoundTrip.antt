-- ===== src/Query/Parser/RoundTrip.antt =====
-- Printed expressions parse back to the trees that they stand for.
use zcc_analysis.Common.{ℕ, zero, suc, ◌≤◌, ◌≡◌, refl, ◌∙◌, arith, Bool, true, false}
use zcc_analysis.Common.{List, [], ◌∷◌, length, Str}
use zcc_analysis.Common.Outcome.{Outcome, ok, raised, ◌>>=◌}
use zcc_analysis.Query.Engine.{Engine}
use zcc_analysis.Query.Node.{Node, and_node, or_node, not_node, Raised}
use zcc_analysis.Query.Tokens.{Token, lparen, rparen, or_kw, not_kw, atom}
use zcc_analysis.Query.Atoms.{parse_atom_token}
use zcc_analysis.Query.Parser.{
  Method, collect, and_loop, parse_and, or_loop, parse_or, close, parse_unary, finish, parse,
}
use zcc_analysis.Query.Parser.Printer.{
  Expr, Clause, Alts, word, neg, group, one, both, only, either, joint, emit, emit_clause,
  emit_alts, tree, tree_clause, tree_alts, operands, alternatives, length-emit, length-emit_clause,
  length-le-joint,
}
use zcc_analysis.Query.Parser.Loops.{
  AreSome, Ends, Stops, collect-with_rest, collect_last, finish_several, finish_single,
  more-AreSome, nil-Ends, one-AreSome, or_kw-Stops, rparen-Ends, with_rest,
}

and_loop-emit :
    (b : Bool) (u : Method) (fuel : ℕ) (e : Expr) (k : List Token)
    → and_loop u (suc fuel) (joint b (emit e k)) ≡ collect (u (emit e k)) (and_loop u fuel)
unfolding and_loop emit
and_loop-emit true u fuel e k = refl
and_loop-emit false u fuel (word s) k = refl
and_loop-emit false u fuel (neg e) k = refl
and_loop-emit false u fuel (group a) k = refl

-- A row of operands starts with the tokens of its first one.
and_loop-emit_clause :
    (b : Bool) (u : Method) (fuel : ℕ) (e : Expr) (b' : Bool) (c : Clause) (k : List Token)
    → and_loop u (suc fuel) (joint b (emit_clause (both e b' c) k))
      ≡ collect (u (emit e (joint b' (emit_clause c k)))) (and_loop u fuel)
unfolding emit
and_loop-emit_clause b u fuel e b' c k = and_loop-emit b u fuel e (joint b' (emit_clause c k))

or_loop-or_kw :
    (u : Method) (f : ℕ) (ts : List Token)
    → or_loop u (suc f) (or_kw ∷ ts) ≡ collect (parse_and u f ts) (or_loop u f)
unfolding or_loop
or_loop-or_kw u f ts = refl

module _ (E : Engine) where
  parse_unary-lparen :
      (F : ℕ) (ts : List Token)
      → parse_unary E (suc F) (lparen ∷ ts)
        ≡ (parse_or (parse_unary E F) F ts >>= λ (n, ts'). close n ts')
  unfolding parse_unary
  parse_unary-lparen F ts = refl

  parse_unary-not_kw :
      (F : ℕ) (ts : List Token)
      → parse_unary E (suc F) (not_kw ∷ ts)
        ≡ (parse_unary E F ts >>= λ (n, ts'). ok (not_node n, ts'))
  unfolding parse_unary
  parse_unary-not_kw F ts = refl

  parse_unary-atom :
      (F : ℕ) (s : Str) (ts : List Token)
      → parse_unary E (suc F) (atom s ∷ ts) ≡ with_rest (parse_atom_token E s) ts
  unfolding parse_unary
  parse_unary-atom F s ts = refl

  close-with_rest :
      (r : Outcome Raised Node) (k : List Token)
      → (with_rest r (rparen ∷ k) >>= λ (n, ts). close n ts) ≡ with_rest r k
  unfolding close
  close-with_rest (ok n) k = refl
  close-with_rest (raised e) k = refl

  neg-with_rest :
      (r : Outcome Raised Node) (k : List Token)
      → (with_rest r k >>= λ (n, ts). ok (not_node n, ts))
        ≡ with_rest (r >>= λ n. ok (not_node n)) k
  neg-with_rest (ok n) k = refl
  neg-with_rest (raised e) k = refl

  operands-AreSome : (c : Clause) → AreSome (operands E c)
  unfolding tree
  operands-AreSome (one e) = one-AreSome (tree E e)
  operands-AreSome (both e b c) = more-AreSome (tree E e) (operands E c)

  alternatives-AreSome : (a : Alts) → AreSome (alternatives E a)
  unfolding tree
  alternatives-AreSome (only c) = one-AreSome (tree_clause E c)
  alternatives-AreSome (either c a) = more-AreSome (tree_clause E c) (alternatives E a)

  mutual
    unfolding emit tree parse_and parse_or

    parse_unary-emit :
        (e : Expr) (F : ℕ) (k : List Token)
        → length (emit e k) ≤ F
        → parse_unary E F (emit e k) ≡ with_rest (tree E e) k
    parse_unary-emit (word s) zero k h = elim h [ ]
    parse_unary-emit (word s) (suc F) k h = parse_unary-atom F s k
    parse_unary-emit (neg e) zero k h = elim h [ ]
    parse_unary-emit (neg e) (suc F) k h =
        rw (parse_unary-not_kw, parse_unary-emit e F k (omega arith)) (neg-with_rest (tree E e) k)
    parse_unary-emit (group a) zero k h = elim h [ ]
    parse_unary-emit (group a) (suc F) k h =
        parse_unary-lparen F (emit_alts a (rparen ∷ k))
        ∙ rw (parse_or-emit_alts a F F (rparen ∷ k) (rparen-Ends k) (omega arith) (omega arith))
            (close-with_rest (tree_alts E a) k)

    parse_and-emit_clause :
        (c : Clause) (F f : ℕ) (k : List Token)
        → Stops k
        → length (emit_clause c k) ≤ F
        → length (emit_clause c k) ≤ f
        → parse_and (parse_unary E F) f (emit_clause c k) ≡ with_rest (tree_clause E c) k
    parse_and-emit_clause (one e) F f k stops h hf = rw (parse_unary-emit e F k h) (
        finish_single and_node (tree E e) k (and_loop (parse_unary E F) f)
          (stops (parse_unary E F) f (omega (arith, length-emit e k))))
    parse_and-emit_clause (both e b c) F f k stops h hf =
        let K = joint b (emit_clause c k) in
        rw (parse_unary-emit e F K h) (
          finish_several and_node (tree E e) (operands E c) K k (and_loop (parse_unary E F) f)
            (operands-AreSome c)
            (and_loop-operands c b F f k stops (omega (arith, length-emit e K))
              (omega (arith, length-emit e K))))

    and_loop-operands :
        (c : Clause) (b : Bool) (F f : ℕ) (k : List Token)
        → Stops k
        → length (joint b (emit_clause c k)) ≤ F
        → length (joint b (emit_clause c k)) ≤ f
        → and_loop (parse_unary E F) f (joint b (emit_clause c k)) ≡ with_rest (operands E c) k
    and_loop-operands (one e) b F zero k stops h hf =
        absurd (omega (arith, length-emit e k, length-le-joint b (emit e k)))
    and_loop-operands (both e b' c) b F zero k stops h hf = absurd (
        omega (
          arith,
          length-emit_clause (both e b' c) k,
          length-le-joint b (emit_clause (both e b' c) k),
        ))
    and_loop-operands (one e) b F (suc f) k stops h hf =
        and_loop-emit b (parse_unary E F) f e k
        ∙ rw (parse_unary-emit e F k (omega (arith, length-le-joint b (emit e k)))) (
            collect_last (tree E e) k (and_loop (parse_unary E F) f) (
              stops (parse_unary E F) f
                (omega (arith, length-emit e k, length-le-joint b (emit e k)))))
    and_loop-operands (both e b' c) b F (suc f) k stops h hf =
        let K = joint b' (emit_clause c k) in
        and_loop-emit_clause b (parse_unary E F) f e b' c k
        ∙ rw (parse_unary-emit e F K (omega (arith, length-le-joint b (emit e K)))) (
            collect-with_rest (tree E e) (operands E c) K k (and_loop (parse_unary E F) f) (
              and_loop-operands c b' F f k stops
                (omega (arith, length-le-joint b (emit e K), length-emit e K))
                (omega (arith, length-le-joint b (emit e K), length-emit e K))))

    or_loop-alternatives :
        (a : Alts) (F f : ℕ) (k : List Token)
        → Ends k
        → length (or_kw ∷ emit_alts a k) ≤ F
        → length (or_kw ∷ emit_alts a k) ≤ f
        → or_loop (parse_unary E F) f (or_kw ∷ emit_alts a k) ≡ with_rest (alternatives E a) k
    or_loop-alternatives (only c) F zero k ends h hf = elim hf [ ]
    or_loop-alternatives (either c a) F zero k ends h hf = elim hf [ ]
    or_loop-alternatives (only c) F (suc f) k ends h hf =
        or_loop-or_kw (parse_unary E F) f (emit_clause c k)
        ∙ rw (parse_and-emit_clause c F f k ends.0 (omega arith) (omega arith)) (
            collect_last (tree_clause E c) k (or_loop (parse_unary E F) f)
              (ends.1 (parse_unary E F) f (omega (arith, length-emit_clause c k))))
    or_loop-alternatives (either c a) F (suc f) k ends h hf =
        let K = or_kw ∷ emit_alts a k in
        or_loop-or_kw (parse_unary E F) f (emit_clause c K)
        ∙ rw (parse_and-emit_clause c F f K (or_kw-Stops _) (omega arith) (omega arith)) (
            collect-with_rest (tree_clause E c) (alternatives E a) K k (or_loop (parse_unary E F) f)
              (or_loop-alternatives a F f k ends (omega (arith, length-emit_clause c K))
                (omega (arith, length-emit_clause c K))))

    parse_or-emit_alts :
        (a : Alts) (F f : ℕ) (k : List Token)
        → Ends k
        → length (emit_alts a k) ≤ F
        → length (emit_alts a k) ≤ f
        → parse_or (parse_unary E F) f (emit_alts a k) ≡ with_rest (tree_alts E a) k
    parse_or-emit_alts (only c) F f k ends h hf = rw (parse_and-emit_clause c F f k ends.0 h hf) (
        finish_single or_node (tree_clause E c) k (or_loop (parse_unary E F) f)
          (ends.1 (parse_unary E F) f (omega (arith, length-emit_clause c k))))
    parse_or-emit_alts (either c a) F f k ends h hf =
        let K = or_kw ∷ emit_alts a k in
        rw (parse_and-emit_clause c F f K (or_kw-Stops _) h hf) (
          finish_several or_node (tree_clause E c) (alternatives E a) K k
            (or_loop (parse_unary E F) f) (alternatives-AreSome a)
            (or_loop-alternatives a F f k ends (omega (arith, length-emit_clause c K))
              (omega (arith, length-emit_clause c K))))

  finish-with_rest : (r : Outcome Raised Node) → (with_rest r [] >>= λ (n, ts). finish E n ts) ≡ r
  unfolding finish
  finish-with_rest (ok n) = refl
  finish-with_rest (raised e) = refl

  -- The tokens of a written query parse to its tree, in which NOT binds tighter than AND, written or
  -- left out, and AND tighter than OR, and a group in parentheses is one operand; a row of two or
  -- more becomes one node. Where an atom raises, the parser raises the exception of the first such
  -- atom.
  pub parse-emit : (a : Alts) → parse E (emit_alts a []) ≡ tree_alts E a
  unfolding parse
  parse-emit a =
      let fuel = suc (length (emit_alts a [])) in
      rw (parse_or-emit_alts a fuel fuel [] nil-Ends (omega arith) (omega arith))
        (finish-with_rest (tree_alts E a))
