-- ===== src/Ledger/Rows/Buckets.antt =====
-- The indexes in the buckets of a table, and what they stand for.

use zcc_analysis.Common.{
  total, ℕ, zero, suc, ◌+◌, ◌≤◌, ◌≡◌, refl, sym, inl, inr, Bool, none, some, List, [], ◌∷◌, ◌++◌,
  append-nil, append_assoc, arith, length, drop, get_elem?, keep, All, length-append, if◌then◌else◌,
  Bool-cases, Str, str_eq, str_eq_iff,
}
use mathlib.Core.Option
use zcc_analysis.Common.Groups.{Groups, push, lookup, IsKeyed}
use zcc_analysis.Common.Groups.Laws.{lookup-push, push-IsKeyed, total_in, total_in-push}
use zcc_analysis.Ledger.Build.{Flow}
use zcc_analysis.Ledger.Rows.{pick, buckets_from}

-- The positions, from `i` on, of the flows that pass a test.
abbrev pub positions : (Flow → Bool) → ℕ → List Flow → List ℕ
positions p i [] = []
positions p i (f ∷ flows) = if p f then i ∷ positions p (suc i) flows else positions p (suc i) flows

drop-suc :
    (i : ℕ) (flows : List Flow) (f : Flow) (rest : List Flow)
    → drop i flows ≡ f ∷ rest
    → (get_elem? flows i ≡ some f) × (drop (suc i) flows ≡ rest)
drop-suc zero [] f rest h = cc
drop-suc zero (g ∷ flows) f rest h = (cc, cc)
drop-suc (suc i) [] f rest h = cc
drop-suc (suc i) (g ∷ flows) f rest h = drop-suc i flows f rest h

pub pick-positions :
    (flows : List Flow) (p : Flow → Bool) (i : ℕ) (rest : List Flow)
    → drop i flows ≡ rest
    → pick flows (positions p i rest) ≡ some (keep p rest)
unfolding pick
pick-positions flows p i [] h = refl
pick-positions flows p i (f ∷ rest) h =
    let here = drop-suc i flows f rest h in
    let ih = pick-positions flows p (suc i) rest here.1 in
    elim (Bool-cases (p f)) [ inl e ↦ rw (e, pick, here.0, ih) refl | inr e ↦ rw e ih ]

pub lookup-buckets_from :
    (key : Flow → Str) (i : ℕ) (flows : List Flow) (buckets : Groups Str ℕ) (k : Str)
    → lookup str_eq (buckets_from key i flows buckets) k
      ≡ lookup str_eq buckets k ++ positions (λ f. str_eq (key f) k) i flows
unfolding buckets_from
lookup-buckets_from key i [] buckets k = sym (append-nil (lookup str_eq buckets k))
lookup-buckets_from key i (f ∷ flows) buckets k = elim (Bool-cases (str_eq (key f) k)) [
  | inl e ↦
      rw
        (
          e,
          lookup-buckets_from key (suc i) flows (push str_eq (key f) i buckets) k,
          lookup-push str_eq str_eq_iff (key f) i buckets k,
          e,
        )
        (append_assoc (lookup str_eq buckets k) (i ∷ [])
          (positions (λ g. str_eq (key g) k) (suc i) flows))
  | inr e ↦
      rw
        (
          e,
          lookup-buckets_from key (suc i) flows (push str_eq (key f) i buckets) k,
          lookup-push str_eq str_eq_iff (key f) i buckets k,
          e,
        )
        refl
]

push-filled :
    (k : Str) (i : ℕ) (buckets : Groups Str ℕ)
    → All (λ e. 1 ≤ length e.1) buckets
    → All (λ e. 1 ≤ length e.1) (push str_eq k i buckets)
unfolding push
push-filled k i [] h = (omega arith, tt)
push-filled k i (e ∷ buckets) h = elim (Bool-cases (str_eq e.0 k)) [
  | inl d ↦ rw d (omega (arith, length-append e.1 (i ∷ [])), h.1)
  | inr d ↦ rw d (h.0, push-filled k i buckets h.1)
]

-- What the loop keeps of the buckets.
pub buckets_from-keeps :
    (key : Flow → Str) (i : ℕ) (flows : List Flow) (buckets : Groups Str ℕ)
    → IsKeyed str_eq buckets
    → All (λ e. 1 ≤ length e.1) buckets
    → IsKeyed str_eq (buckets_from key i flows buckets)
      × All (λ e. 1 ≤ length e.1) (buckets_from key i flows buckets)
unfolding buckets_from
buckets_from-keeps key i [] buckets h k = (h, k)
buckets_from-keeps key i (f ∷ flows) buckets h k =
    buckets_from-keeps key (suc i) flows (push str_eq (key f) i buckets)
      (push-IsKeyed str_eq str_eq_iff (key f) i buckets h) (push-filled (key f) i buckets k)

-- The measure of the flow at an index.
abbrev pub at : (Flow → ℕ) → List Flow → ℕ → ℕ
at v flows i = elim (get_elem? flows i) [ none ↦ 0 | some f ↦ v f ]

pub total_in-buckets_from :
    (v : Flow → ℕ) (all : List Flow) (key : Flow → Str) (i : ℕ) (flows : List Flow)
    (buckets : Groups Str ℕ)
    → drop i all ≡ flows
    → total_in str_eq (at v all) (buckets_from key i flows buckets)
      ≡ total_in str_eq (at v all) buckets + total v flows
unfolding buckets_from
total_in-buckets_from v all key i [] buckets h = omega arith
total_in-buckets_from v all key i (f ∷ flows) buckets h =
    let here = drop-suc i all f flows h in
    let e : at v all i ≡ v f = rw (at, here.0) refl in
    omega (
      arith,
      e,
      total_in-push str_eq (at v all) (key f) i buckets,
      total_in-buckets_from v all key (suc i) flows (push str_eq (key f) i buckets) here.1,
    )

pub total-pick :
    (v : Flow → ℕ) (all : List Flow) (ids : List ℕ) (fl : List Flow)
    → pick all ids ≡ some fl
    → total v fl ≡ total (at v all) ids
unfolding pick
total-pick v all [] fl h = ground (arith, h)
total-pick v all (i ∷ ids) fl h =
    elim (get_elem? all i)
        as (λ o.
          (elim o [ none ↦ none | some f ↦ Option.map (λ fs. f ∷ fs) (pick all ids) ]) ≡ some fl
          → total v fl ≡ (elim o [ none ↦ 0 | some f ↦ v f ]) + total (at v all) ids) [
            | none ↦ λ e. cc
            | some f ↦
                elim (pick all ids)
                    as (λ o.
                      (pick all ids ≡ o)
                      → Option.map (λ fs. f ∷ fs) o ≡ some fl
                      → total v fl ≡ v f + total (at v all) ids) [
                        | none ↦ λ d e. cc
                        | some fs ↦ λ d e. ground (arith, total-pick v all ids fs d, e)
                      ]
                  refl
          ]
      h

pub length-pick :
    (flows : List Flow) (ids : List ℕ) (fl : List Flow)
    → pick flows ids ≡ some fl
    → length fl ≡ length ids
unfolding pick
length-pick flows [] fl h = ground (arith, h)
length-pick flows (i ∷ ids) fl h =
    elim (get_elem? flows i)
        as (λ o.
          (elim o [ none ↦ none | some f ↦ Option.map (λ fs. f ∷ fs) (pick flows ids) ]) ≡ some fl
          → length fl ≡ suc (length ids)) [
            | none ↦ λ e. cc
            | some f ↦
                elim (pick flows ids)
                    as (λ o.
                      (pick flows ids ≡ o)
                      → Option.map (λ fs. f ∷ fs) o ≡ some fl
                      → length fl ≡ suc (length ids)) [
                        | none ↦ λ d e. cc
                        | some fs ↦ λ d e. ground (arith, length-pick flows ids fs d, e)
                      ]
                  refl
          ]
      h
