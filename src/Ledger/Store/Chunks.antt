-- ===== src/Ledger/Store/Chunks.antt =====
-- The lines of one identifier in the rows of a chunk of them.

use zcc_analysis.Common.{
  keep-append, ◌≡◌, refl, sym, ap, ◌∙◌, inl, inr, Bool, true, false, ◌&&◌, List, [], ◌∷◌, ◌++◌, map,
  append-nil, append_assoc, arith, keep, All, Bool-cases, Str, str_eq, str_eq_iff, codes, mem_str,
}
use zcc_analysis.Common.Groups.{Groups, push, lookup}
use zcc_analysis.Common.Groups.Laws.{lookup-push}
use zcc_analysis.Viewer.Index.{Line}
use zcc_analysis.Ledger.Store.{
  Edge, Store, Mention, address_eq, concat_map, mention_of, append_rows,
}

-- The rows of an identifier.
abbrev pub rows_at : Str → List (Str × Mention) → List (Str × Mention)
rows_at v rows = keep (λ (r : Str × Mention). str_eq r.0 v) rows

abbrev pub seconds : List (Str × Mention) → List Mention
seconds rows = map (λ (r : Str × Mention). r.1) rows

pub lookup-append_rows :
    (rows : List (Str × Mention)) (out : Groups Str Mention) (v : Str)
    → lookup str_eq (append_rows rows out) v ≡ lookup str_eq out v ++ seconds (rows_at v rows)
unfolding append_rows
lookup-append_rows [] out v = sym (append-nil (lookup str_eq out v))
lookup-append_rows (r ∷ rows) out v = elim (Bool-cases (str_eq r.0 v)) [
  | inl e ↦
      rw
        (
          e,
          lookup-append_rows rows (push str_eq r.0 r.1 out) v,
          lookup-push str_eq str_eq_iff r.0 r.1 out v,
          e,
        )
        (append_assoc (lookup str_eq out v) (r.1 ∷ []) (seconds (rows_at v rows)))
  | inr e ↦
      rw
        (
          e,
          lookup-append_rows rows (push str_eq r.0 r.1 out) v,
          lookup-push str_eq str_eq_iff r.0 r.1 out v,
          e,
        )
        refl
]

-- The rows of one edge.
abbrev rows_of_edge : Store → Edge → List (Str × Mention)
rows_of_edge store e =
    map (λ ln. (e.id_value, mention_of ln))
      (keep (λ (ln : Line). address_eq (ln.source_file, ln.line_no) (e.source_file, e.line_no))
        store.lines)

all_rows :
    (v w : Str) (lines : List Line)
    → str_eq w v ≡ true
    → rows_at v (map (λ ln. (w, mention_of ln)) lines) ≡ map (λ ln. (w, mention_of ln)) lines
all_rows v w [] h = refl
all_rows v w (ln ∷ lines) h = rw (h, all_rows v w lines h) refl

no_rows :
    (v w : Str) (lines : List Line)
    → str_eq w v ≡ false
    → rows_at v (map (λ ln. (w, mention_of ln)) lines) ≡ []
no_rows v w [] h = refl
no_rows v w (ln ∷ lines) h = rw (h, no_rows v w lines h) refl

abbrev is_conn : Edge → Bool
is_conn e = str_eq e.id_type (codes "conn_id")

-- The rows of the edges that a test selects.
abbrev selected_rows : Store → (Edge → Bool) → List Edge → List (Str × Mention)
selected_rows store p edges = concat_map (rows_of_edge store) (keep (λ e. is_conn e && p e) edges)

-- The lines that carry an identifier.
abbrev pub lines_of : Store → Str → List Mention
lines_of store v = seconds (selected_rows store (λ e. str_eq e.id_value v) store.edges)

mem_str-cong :
    (w v : Str) (chunk : List Str) → str_eq w v ≡ true → mem_str w chunk ≡ mem_str v chunk
mem_str-cong w v chunk h = ap (λ u. mem_str u chunk) ((str_eq_iff w v).0 h)

pub in_chunk :
    (store : Store) (chunk : List Str) (v : Str) (edges : List Edge)
    → mem_str v chunk ≡ true
    → rows_at v (selected_rows store (λ e. mem_str e.id_value chunk) edges)
      ≡ selected_rows store (λ e. str_eq e.id_value v) edges
in_chunk store chunk v [] h = refl
in_chunk store chunk v (e ∷ edges) h =
    let ih = in_chunk store chunk v edges h in
    let more = selected_rows store (λ d. mem_str d.id_value chunk) edges in
    let lines =
      keep (λ (ln : Line). address_eq (ln.source_file, ln.line_no) (e.source_file, e.line_no))
        store.lines in
    elim (Bool-cases (is_conn e)) [
      | inr c ↦ rw (c, ih) refl
      | inl c ↦ elim (Bool-cases (str_eq e.id_value v)) [
        | inl d ↦
            rw
              (
                c,
                d,
                mem_str-cong e.id_value v chunk d ∙ h,
                keep-append (λ (r : Str × Mention). str_eq r.0 v) (rows_of_edge store e) more,
                ih,
                all_rows v e.id_value lines d,
              )
              refl
        | inr d ↦ elim (Bool-cases (mem_str e.id_value chunk)) [
          | inl m ↦
              rw
                (
                  c,
                  d,
                  m,
                  keep-append (λ (r : Str × Mention). str_eq r.0 v) (rows_of_edge store e) more,
                  ih,
                  no_rows v e.id_value lines d,
                )
                refl
          | inr m ↦ rw (c, d, m, ih) refl
        ]
      ]
    ]

pub not_in_chunk :
    (store : Store) (chunk : List Str) (v : Str) (edges : List Edge)
    → mem_str v chunk ≡ false
    → rows_at v (selected_rows store (λ e. mem_str e.id_value chunk) edges) ≡ []
not_in_chunk store chunk v [] h = refl
not_in_chunk store chunk v (e ∷ edges) h =
    let ih = not_in_chunk store chunk v edges h in
    let more = selected_rows store (λ d. mem_str d.id_value chunk) edges in
    let lines =
      keep (λ (ln : Line). address_eq (ln.source_file, ln.line_no) (e.source_file, e.line_no))
        store.lines in
    elim (Bool-cases (is_conn e)) [
      | inr c ↦ rw (c, ih) refl
      | inl c ↦ elim (Bool-cases (mem_str e.id_value chunk)) [
        | inr m ↦ rw (c, m, ih) refl
        | inl m ↦ elim (Bool-cases (str_eq e.id_value v)) [
          | inl d ↦ ground (arith, mem_str-cong e.id_value v chunk d, m, h)
          | inr d ↦
              rw
                (
                  c,
                  m,
                  keep-append (λ (r : Str × Mention). str_eq r.0 v) (rows_of_edge store e) more,
                  ih,
                  no_rows v e.id_value lines d,
                )
                refl
        ]
      ]
    ]

abbrev pub Differ : Str → Str → Type 0
Differ v w = str_eq v w ≡ false

pub mem_str-fresh : (v : Str) (ids : List Str) → All (Differ v) ids → mem_str v ids ≡ false
unfolding mem_str
mem_str-fresh v [] h = refl
mem_str-fresh v (w ∷ ids) h = rw (h.0, mem_str-fresh v ids h.1) refl
