-- ===== src/Query/Parser/Printer.antt =====
-- Query expressions as they are written, their tokens and their trees. AND binds tighter than OR, and
-- NOT tighter than AND; parentheses stand where a group is written.
use zcc_analysis.Common.{◌≤◌, ◌<◌, arith, Bool, true, false, if◌then◌else◌}
use zcc_analysis.Common.{List, ◌∷◌, length, Str}
use zcc_analysis.Common.Outcome.{Outcome, ok, ◌>>=◌}
use zcc_analysis.Query.Engine.{Engine}
use zcc_analysis.Query.Node.{Node, Nodes, nil, cons, and_node, or_node, not_node, Raised}
use zcc_analysis.Query.Tokens.{Token, lparen, rparen, and_kw, or_kw, not_kw, atom}
use zcc_analysis.Query.Atoms.{parse_atom_token}

-- A clause is a row of operands, and `Alts` a row of clauses. Between two operands stands the
-- keyword AND, or nothing.
mutual
  pub data Expr : Type 0 where
    word : Str → Expr
    neg : Expr → Expr
    group : Alts → Expr

  pub data Clause : Type 0 where
    one : Expr → Clause
    both : Expr → Bool → Clause → Clause

  pub data Alts : Type 0 where
    only : Clause → Alts
    either : Clause → Alts → Alts

abbrev pub joint : Bool → List Token → List Token
joint explicit k = if explicit then and_kw ∷ k else k

-- The tokens of an expression, in front of `k`.
unfoldable mutual
  pub emit : Expr → List Token → List Token
  emit (word s) k = atom s ∷ k
  emit (neg e) k = not_kw ∷ emit e k
  emit (group a) k = lparen ∷ emit_alts a (rparen ∷ k)

  pub emit_clause : Clause → List Token → List Token
  emit_clause (one e) k = emit e k
  emit_clause (both e explicit c) k = emit e (joint explicit (emit_clause c k))

  pub emit_alts : Alts → List Token → List Token
  emit_alts (only c) k = emit_clause c k
  emit_alts (either c a) k = emit_clause c (or_kw ∷ emit_alts a k)

module _ (E : Engine) where
  -- The tree of an expression, or the first exception of its atoms from the left.
  unfoldable mutual
    pub tree : Expr → Outcome Raised Node
    tree (word s) = parse_atom_token E s
    tree (neg e) = tree e >>= λ n. ok (not_node n)
    tree (group a) = tree_alts a

    pub tree_clause : Clause → Outcome Raised Node
    tree_clause (one e) = tree e
    tree_clause (both e explicit c) = tree e >>= λ n. operands c >>= λ ns. ok (and_node (cons n ns))

    pub operands : Clause → Outcome Raised Nodes
    operands (one e) = tree e >>= λ n. ok (cons n nil)
    operands (both e explicit c) = tree e >>= λ n. operands c >>= λ ns. ok (cons n ns)

    pub tree_alts : Alts → Outcome Raised Node
    tree_alts (only c) = tree_clause c
    tree_alts (either c a) =
        tree_clause c >>= λ n. alternatives a >>= λ ns. ok (or_node (cons n ns))

    pub alternatives : Alts → Outcome Raised Nodes
    alternatives (only c) = tree_clause c >>= λ n. ok (cons n nil)
    alternatives (either c a) = tree_clause c >>= λ n. alternatives a >>= λ ns. ok (cons n ns)

pub length-le-joint : (b : Bool) (k : List Token) → length k ≤ length (joint b k)
length-le-joint true k = omega arith
length-le-joint false k = omega arith

mutual
  unfolding emit

  pub length-emit : (e : Expr) (k : List Token) → length k < length (emit e k)
  length-emit (word s) k = omega arith
  length-emit (neg e) k = omega (arith, length-emit e k)
  length-emit (group a) k = omega (arith, length-emit_alts a (rparen ∷ k))

  pub length-emit_clause : (c : Clause) (k : List Token) → length k < length (emit_clause c k)
  length-emit_clause (one e) k = length-emit e k
  length-emit_clause (both e b c) k = omega (
    arith,
    length-emit e (joint b (emit_clause c k)),
    length-emit_clause c k,
    length-le-joint b (emit_clause c k),
  )

  pub length-emit_alts : (a : Alts) (k : List Token) → length k < length (emit_alts a k)
  length-emit_alts (only c) k = length-emit_clause c k
  length-emit_alts (either c a) k =
      omega (arith, length-emit_clause c (or_kw ∷ emit_alts a k), length-emit_alts a k)
