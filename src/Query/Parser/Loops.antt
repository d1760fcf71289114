-- ===== src/Query/Parser/Loops.antt =====
-- Steps of the parser's loops on tokens that are known.
use zcc_analysis.Common.{ℕ, zero, suc, ◌≤◌, ◌<◌, ◌≡◌, refl}
use zcc_analysis.Common.{List, [], ◌∷◌, length}
use zcc_analysis.Common.Outcome.{Outcome, ok, raised, ◌>>=◌}
use zcc_analysis.Query.Node.{Node, Nodes, nil, cons, Raised}
use zcc_analysis.Query.Tokens.{Token, rparen, or_kw}
use zcc_analysis.Query.Parser.{Parsed, Method, single_or, collect, and_loop, or_loop}

-- `r`, with `k` as the tokens that are left.
abbrev pub with_rest {ℓ} : {A : Type ℓ} → Outcome Raised A → List Token → Parsed A
with_rest r k = r >>= λ a. ok (a, k)

-- One child, and the rest of a loop that is known.
pub collect-with_rest :
    (r : Outcome Raised Node) (rs : Outcome Raised Nodes) (k k' : List Token)
    (rest : List Token → Parsed Nodes)
    → rest k ≡ with_rest rs k'
    → collect (with_rest r k) rest ≡ with_rest (r >>= λ n. rs >>= λ ns. ok (cons n ns)) k'
unfolding collect
collect-with_rest (raised e) rs k k' rest h = refl
collect-with_rest (ok n) rs k k' rest h = rw h (inner rs)
  where
    inner :
        (rs : Outcome Raised Nodes)
        → (with_rest rs k' >>= λ (ns, ts). ok (cons n ns, ts))
          ≡ with_rest (rs >>= λ ns. ok (cons n ns)) k'
    inner (ok ns) = refl
    inner (raised e) = refl

-- A loop that finds no further operand.
pub collect_last :
    (r : Outcome Raised Node) (k : List Token) (rest : List Token → Parsed Nodes)
    → rest k ≡ ok (nil, k)
    → collect (with_rest r k) rest ≡ with_rest (r >>= λ n. ok (cons n nil)) k
unfolding collect
collect_last (raised e) k rest h = refl
collect_last (ok n) k rest h = rw h

-- The end of `_parse_and` and `_parse_or`, when the loop found no further operand.
pub finish_single :
    (wrap : Nodes → Node) (r : Outcome Raised Node) (k : List Token)
    (rest : List Token → Parsed Nodes)
    → rest k ≡ ok (nil, k)
    → (with_rest r k >>= λ (n, ts). rest ts >>= λ (ns, ts'). ok (single_or wrap n ns, ts'))
      ≡ with_rest r k
unfolding single_or
finish_single wrap (raised e) k rest h = refl
finish_single wrap (ok n) k rest h = rw h

-- Nodes that are one at least, when they are returned.
abbrev pub AreSome : Outcome Raised Nodes → Type 0
AreSome rs =
    (wrap : Nodes → Node) (n : Node) (k : List Token)
    → (with_rest rs k >>= λ (ns, ts'). ok (single_or wrap n ns, ts'))
      ≡ with_rest (rs >>= λ ns. ok (wrap (cons n ns))) k

pub one-AreSome : (r : Outcome Raised Node) → AreSome (r >>= λ n. ok (cons n nil))
unfolding single_or
one-AreSome (ok m) wrap n k = refl
one-AreSome (raised e) wrap n k = refl

pub more-AreSome :
    (r : Outcome Raised Node) (rs : Outcome Raised Nodes)
    → AreSome (r >>= λ n. rs >>= λ ns. ok (cons n ns))
unfolding single_or
more-AreSome (ok m) (ok ms) wrap n k = refl
more-AreSome (ok m) (raised e) wrap n k = refl
more-AreSome (raised e) rs wrap n k = refl

-- The end of `_parse_and` and `_parse_or`, when the loop found the operands `rs`.
pub finish_several :
    (wrap : Nodes → Node) (r : Outcome Raised Node) (rs : Outcome Raised Nodes) (k k' : List Token)
    (rest : List Token → Parsed Nodes)
    → AreSome rs
    → rest k ≡ with_rest rs k'
    → (with_rest r k >>= λ (n, ts). rest ts >>= λ (ns, ts'). ok (single_or wrap n ns, ts'))
      ≡ with_rest (r >>= λ n. rs >>= λ ns. ok (wrap (cons n ns))) k'
finish_several wrap (raised e) rs k k' rest several h = refl
finish_several wrap (ok n) rs k k' rest several h = rw h (several wrap n k')

-- Tokens at which the loop over the operands stops, and those at which both loops stop.
abbrev pub Stops : List Token → Type 0
Stops k = (u : Method) (fuel : ℕ) → length k ≤ fuel → and_loop u fuel k ≡ ok (nil, k)

abbrev pub Ends : List Token → Type 0
Ends k = Stops k × ((u : Method) (fuel : ℕ) → length k < fuel → or_loop u fuel k ≡ ok (nil, k))

pub or_kw-Stops : (k : List Token) → Stops (or_kw ∷ k)
unfolding and_loop
or_kw-Stops k u zero h = elim h [ ]
or_kw-Stops k u (suc fuel) h = refl

rparen-Stops : (k : List Token) → Stops (rparen ∷ k)
unfolding and_loop
rparen-Stops k u zero h = elim h [ ]
rparen-Stops k u (suc fuel) h = refl

rparen-ends_or :
    (k : List Token) (u : Method) (fuel : ℕ)
    → length (rparen ∷ k) < fuel
    → or_loop u fuel (rparen ∷ k) ≡ ok (nil, rparen ∷ k)
unfolding or_loop
rparen-ends_or k u zero h = elim h [ ]
rparen-ends_or k u (suc fuel) h = refl

pub rparen-Ends : (k : List Token) → Ends (rparen ∷ k)
rparen-Ends k = (rparen-Stops k, rparen-ends_or k)

nil-Stops : Stops []
unfolding and_loop
nil-Stops u zero h = refl
nil-Stops u (suc fuel) h = refl

nil-ends_or :
    (u : Method) (fuel : ℕ) → length {A = Token} [] < fuel → or_loop u fuel [] ≡ ok (nil, [])
unfolding or_loop
nil-ends_or u zero h = elim h [ ]
nil-ends_or u (suc fuel) h = refl

pub nil-Ends : Ends []
nil-Ends = (nil-Stops, nil-ends_or)
