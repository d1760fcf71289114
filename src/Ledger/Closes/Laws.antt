-- ===== src/Ledger/Closes/Laws.antt =====
-- The records that are kept of those that end a connection.

use zcc_analysis.Common.{
  ◌+◌, ◌≡◌, refl, sym, ap, ◌∙◌, inl, inr, Bool, true, false, not, ◌&&◌, List, [], ◌∷◌, arith,
  length, keep, Bool-cases, Str, mem_str,
}
use zcc_analysis.Ledger.Closes.{
  tcp_conn_close, udp_conn_close, flow_destructor, Close, is_tcp_close, is_destructor,
  tcp_close_ids, dedupe_with, dedupe_carriers,
}

-- A record that would be dropped for the identifiers.
abbrev pub is_duplicate : List Str → Close → Bool
is_duplicate ids r = is_destructor r && mem_str r.parsed.conn_id ids

abbrev pub is_kept : List Str → Close → Bool
is_kept ids r = not (is_duplicate ids r)

dedupe_with-keep :
    (ids : List Str) (records : List Close)
    → (dedupe_with ids records).0 ≡ keep (is_kept ids) records
unfolding dedupe_with
dedupe_with-keep ids [] = refl
dedupe_with-keep ids (r ∷ records) = elim (Bool-cases (is_duplicate ids r)) [
  | inl e ↦ rw (e, dedupe_with-keep ids records) refl
  | inr e ↦ rw (e, dedupe_with-keep ids records) refl
]

length-dedupe_with :
    (ids : List Str) (records : List Close)
    → length (dedupe_with ids records).0 + (dedupe_with ids records).1 ≡ length records
unfolding dedupe_with
length-dedupe_with ids [] = omega arith
length-dedupe_with ids (r ∷ records) = ground (arith, length-dedupe_with ids records)

not_both : (r : Close) → is_tcp_close r ≡ true → is_destructor r ≡ false
unfolding is_tcp_close is_destructor
not_both r h =
    elim r.parsed.carrier
        as (λ c.
          (elim c [ tcp_conn_close ↦ true | _ ↦ false ]) ≡ true
          → (elim c [ flow_destructor ↦ true | _ ↦ false ]) ≡ false) [
            | tcp_conn_close ↦ λ e. refl
            | udp_conn_close ↦ λ e. refl
            | flow_destructor ↦ λ e. sym e
          ]
      h

tcp_close_ids-keep :
    (ids : List Str) (records : List Close)
    → tcp_close_ids (keep (is_kept ids) records) ≡ tcp_close_ids records
unfolding tcp_close_ids
tcp_close_ids-keep ids [] = refl
tcp_close_ids-keep ids (r ∷ records) = ground (arith, not_both r, tcp_close_ids-keep ids records)

keep-keep : {A : Type 0} (p : A → Bool) (xs : List A) → keep p (keep p xs) ≡ keep p xs
keep-keep p [] = refl
keep-keep p (x ∷ xs) = ground (arith, keep-keep p xs)

-- The records kept are, in order, those that are no destructor of a connection with a TCP close among all the
-- records; the others are counted, the TCP closes are all kept, and what is kept has nothing more to drop.
pub dedupe_carriers-keep :
    (records : List Close)
    → let kept : List Close = (dedupe_carriers records).0 in
      (kept ≡ keep (is_kept (tcp_close_ids records)) records)
      × (length kept + (dedupe_carriers records).1 ≡ length records)
      × (tcp_close_ids kept ≡ tcp_close_ids records)
      × (dedupe_carriers kept ≡ (kept, 0))
unfolding dedupe_carriers
dedupe_carriers-keep records =
    let ids = tcp_close_ids records in
    let kept = keep (is_kept ids) records in
    let same : (dedupe_with ids records).0 ≡ kept = dedupe_with-keep ids records in
    let again : tcp_close_ids kept ≡ ids = tcp_close_ids-keep ids records in
    let twice : (dedupe_with ids kept).0 ≡ kept =
      dedupe_with-keep ids kept ∙ keep-keep (is_kept ids) records in
    let zero_more : (dedupe_with ids kept).1 ≡ 0 =
      omega (arith, length-dedupe_with ids kept, ap length twice) in
    (
      same,
      length-dedupe_with ids records,
      rw same again,
      rw (same, again) (λ i. (twice i, zero_more i)),
    )
