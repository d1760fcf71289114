-- ===== src/Ledger/Store/Laws.antt =====
-- Asking for the connections in batches gives what a query for each connection gives.

use zcc_analysis.Common.{
  length-drop, ℕ, zero, suc, ◌≤◌, ◌≡◌, refl, sym, ap, subst, ◌∙◌, inl, inr, true, false, ◌||◌, List,
  [], ◌∷◌, ◌++◌, append-nil, arith, length, take, drop, if◌then◌else◌, Bool-cases, Str, str_eq,
  str_eq_iff, mem_str,
}
use zcc_analysis.Common.Groups.{Groups, lookup}
use zcc_analysis.Common.Sorting.{Pairwise, sort_by, drop-Pairwise, drop-All}
use zcc_analysis.Ledger.Store.{
  Store, Mention, mention_le, mentions_of, append_rows, query_batches, sort_values, lifetime_index,
}
use zcc_analysis.Ledger.Store.Chunks.{
  seconds, lines_of, in_chunk, not_in_chunk, lookup-append_rows, Differ, mem_str-fresh,
}

mem_str-split :
    (v : Str) (n : ℕ) (ids : List Str)
    → mem_str v ids ≡ (mem_str v (take n ids) || mem_str v (drop n ids))
unfolding mem_str
mem_str-split v zero ids = refl
mem_str-split v (suc n) [] = refl
mem_str-split v (suc n) (w ∷ ids) = ground (arith, mem_str-split v n ids)

apart :
    (v : Str) (n : ℕ) (ids : List Str)
    → Pairwise Differ ids
    → mem_str v (take n ids) ≡ true
    → mem_str v (drop n ids) ≡ false
unfolding mem_str
apart v zero ids h m = cc
apart v (suc n) [] h m = refl
apart v (suc n) (w ∷ ids) h m = elim (Bool-cases (str_eq v w)) [
  | inl e ↦
      subst (λ u. mem_str u (drop n ids) ≡ false) (sym ((str_eq_iff v w).0 e))
        (mem_str-fresh w (drop n ids) (drop-All (Differ w) n ids h.0))
  | inr e ↦ apart v n ids h.1 (ground (arith, m, e))
]

lookup-query_batches :
    (fuel b : ℕ) (store : Store) (ids : List Str) (out : Groups Str Mention) (v : Str)
    → length ids ≤ fuel
    → Pairwise Differ ids
    → lookup str_eq (query_batches fuel (suc b) store ids out) v
      ≡ lookup str_eq out v ++ (if mem_str v ids then lines_of store v else [])
unfolding query_batches mentions_of mem_str
lookup-query_batches zero b store [] out v h k = sym (append-nil (lookup str_eq out v))
lookup-query_batches zero b store (w ∷ ids) out v h k = ground (arith, h)
lookup-query_batches (suc fuel) b store [] out v h k = sym (append-nil (lookup str_eq out v))
lookup-query_batches (suc fuel) b store (w ∷ ids) out v h k =
    let chunk = take (suc b) (w ∷ ids) in
    let later = drop (suc b) (w ∷ ids) in
    let rows = mentions_of store chunk in
    let here = lookup str_eq out v in
    let ih =
      lookup-query_batches fuel b store later (append_rows rows out) v
        (omega (arith, h, length-drop b ids)) (drop-Pairwise Differ (suc b) (w ∷ ids) k) in
    let one = lookup-append_rows rows out v in
    elim (Bool-cases (mem_str v chunk)) [
      | inl m ↦
          ih
          ∙ ap (λ xs. xs ++ (if mem_str v later then lines_of store v else []))
              (one ∙ ap (λ r. here ++ seconds r) (in_chunk store chunk v store.edges m))
          ∙ rw (apart v (suc b) (w ∷ ids) k m, mem_str-split v (suc b) (w ∷ ids), m)
              (append-nil (here ++ lines_of store v))
      | inr m ↦
          ih
          ∙ ap (λ xs. xs ++ (if mem_str v later then lines_of store v else []))
              (one
                ∙ ap (λ r. here ++ seconds r) (not_in_chunk store chunk v store.edges m)
                ∙ append-nil here)
          ∙ rw (mem_str-split v (suc b) (w ∷ ids), m) refl
    ]

lookup-sort_values :
    (out : Groups Str Mention) (v : Str)
    → lookup str_eq (sort_values out) v ≡ sort_by mention_le (lookup str_eq out v)
unfolding lookup sort_by
lookup-sort_values [] v = refl
lookup-sort_values (e ∷ out) v = elim (Bool-cases (str_eq e.0 v)) [
  | inl d ↦ rw d refl
  | inr d ↦ rw d (lookup-sort_values out v)
]

-- For distinct identifiers, the lines found of one of them are all the lines that carry it, sorted, whichever
-- batch it was in; of another identifier none are.
pub lifetime_index-eq-query :
    (store : Store) (ids : List Str) (v : Str)
    → Pairwise Differ ids
    → lookup str_eq (lifetime_index store ids) v
      ≡ (if mem_str v ids then sort_by mention_le (lines_of store v) else [])
unfolding lifetime_index lookup sort_by
lifetime_index-eq-query store ids v h =
    lookup-sort_values (query_batches (length ids) 400 store ids []) v
    ∙ ap (sort_by mention_le) (lookup-query_batches (length ids) 399 store ids [] v (omega arith) h)
    ∙ elim (mem_str v ids)
        as (λ b.
          sort_by mention_le (if b then lines_of store v else [])
          ≡ (if b then sort_by mention_le (lines_of store v) else [])) [
            | true ↦ refl
            | false ↦ refl
          ]
