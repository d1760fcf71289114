-- ===== src/Timeline/Diff/Laws.antt =====
-- The comparison of two windows is symmetric.

use zcc_analysis.Common.{
  ℕ, ◌≡◌, refl, sym, ap, ◌∙◌, inl, inr, Bool, true, false, Option, List, [], ◌∷◌, ◌++◌, map, arith,
  All, All-append, if◌then◌else◌, Bool-cases, Str, str_eq, str_eq_iff, mem_str,
}
use zcc_analysis.Common.Groups.{Groups, lookup}
use zcc_analysis.Common.Counters.{add_to_set, get}
use zcc_analysis.Common.Integers.{negate, negate-minus}
use zcc_analysis.Common.Sets.{
  Differ, distinct, sorted, sorted_unique, distinct-Pairwise, mem_str-distinct, mem_str-append,
  mem_str-keep,
}
use zcc_analysis.Common.Sorting.{Pairwise, keep-Pairwise}
use zcc_analysis.Timeline.Phases.{lane_order}
use zcc_analysis.Viewer.Index.{Line}
use zcc_analysis.Timeline.Session.{add_values, add_related}
use zcc_analysis.Timeline.Window.{Window, Lanes, is_inside, place, place_all, window_of}
use zcc_analysis.Timeline.Diff.{
  LaneDelta, IdDelta, WindowDiff, lane_delta, id_delta, without, common, keys, all_types,
  diff_windows,
}

-- The two sides exchanged.
abbrev pub mirror_lane : LaneDelta → LaneDelta
mirror_lane d = record {
  lane = d.lane;
  count_a = d.count_b;
  count_b = d.count_a;
  delta = negate d.delta;
}

abbrev pub mirror_ids : IdDelta → IdDelta
mirror_ids d = record {
  tag_type = d.tag_type;
  only_in_a = d.only_in_b;
  only_in_b = d.only_in_a;
  in_both = d.in_both;
}

abbrev pub mirror : WindowDiff → WindowDiff
mirror d = record {
  window_a = d.window_b;
  window_b = d.window_a;
  lane_deltas = map mirror_lane d.lane_deltas;
  id_deltas = map mirror_ids d.id_deltas;
}

-- The identifiers seen are sets.
abbrev pub AreSets : Groups Str Str → Type 0
AreSets groups = All (λ (e : Str × List Str). Pairwise Differ e.1) groups

lookup-AreSets :
    (groups : Groups Str Str) (k : Str) → AreSets groups → Pairwise Differ (lookup str_eq groups k)
unfolding lookup
lookup-AreSets [] k h = tt
lookup-AreSets (e ∷ groups) k h =
    elim (str_eq e.0 k) as (λ b. Pairwise Differ (if b then e.1 else lookup str_eq groups k)) [
      | true ↦ h.0
      | false ↦ lookup-AreSets groups k h.1
    ]

common_symm :
    (xs ys : List Str)
    → Pairwise Differ xs
    → Pairwise Differ ys
    → sorted (common xs ys) ≡ sorted (common ys xs)
common_symm xs ys h k =
    sorted_unique (common xs ys) (common ys xs) (keep-Pairwise Differ (λ v. mem_str v ys) xs h)
      (keep-Pairwise Differ (λ v. mem_str v xs) ys k)
      (λ v.
        mem_str-keep v (λ u. mem_str u ys) xs
        ∙ ground (arith, Bool-cases (mem_str v xs), Bool-cases (mem_str v ys))
        ∙ sym (mem_str-keep v (λ u. mem_str u xs) ys))

all_types_symm : (a b : Window) → all_types a b ≡ all_types b a
unfolding all_types
all_types_symm a b =
    let ka = keys a.ids_seen in
    let kb = keys b.ids_seen in
    sorted_unique (distinct (ka ++ kb)) (distinct (kb ++ ka)) (distinct-Pairwise (ka ++ kb))
      (distinct-Pairwise (kb ++ ka))
      (λ v. ground (
        arith,
        mem_str-distinct v (ka ++ kb),
        mem_str-append v ka kb,
        mem_str-distinct v (kb ++ ka),
        mem_str-append v kb ka,
      ))

lane_delta-mirror :
    (a b : Window) (lanes : List Str)
    → map (lane_delta b a) lanes ≡ map mirror_lane (map (lane_delta a b) lanes)
unfolding lane_delta
lane_delta-mirror a b [] = refl
lane_delta-mirror a b (lane ∷ lanes) = λ i.
    record {
      lane = lane;
      count_a = get b.lane_counts lane;
      count_b = get a.lane_counts lane;
      delta = sym (negate-minus (get a.lane_counts lane) (get b.lane_counts lane)) i;
    }
    ∷ lane_delta-mirror a b lanes i

id_delta-mirror :
    (a b : Window)
    → AreSets a.ids_seen
    → AreSets b.ids_seen
    → (types : List Str) → map (id_delta b a) types ≡ map mirror_ids (map (id_delta a b) types)
unfolding id_delta
id_delta-mirror a b h k [] = refl
id_delta-mirror a b h k (t ∷ types) =
    let a_set = lookup str_eq a.ids_seen t in
    let b_set = lookup str_eq b.ids_seen t in
    λ i.
      record {
        tag_type = t;
        only_in_a = sorted (without b_set a_set);
        only_in_b = sorted (without a_set b_set);
        in_both =
            common_symm b_set a_set (lookup-AreSets b.ids_seen t k) (lookup-AreSets a.ids_seen t h)
              i;
      }
      ∷ id_delta-mirror a b h k types i

-- Comparing two windows the other way round exchanges their sides and negates the differences, for windows whose
-- identifiers are sets.
pub diff_windows_symm :
    (a b : Window)
    → AreSets a.ids_seen
    → AreSets b.ids_seen
    → diff_windows b a ≡ mirror (diff_windows a b)
unfolding diff_windows
diff_windows_symm a b h k = λ i. record {
  window_a = b;
  window_b = a;
  lane_deltas = lane_delta-mirror a b lane_order i;
  id_deltas =
      (ap (map (id_delta b a)) (all_types_symm b a) ∙ id_delta-mirror a b h k (all_types a b)) i;
}

snoc-Pairwise :
    (xs : List Str) (x : Str)
    → mem_str x xs ≡ false
    → Pairwise Differ xs
    → Pairwise Differ (xs ++ x ∷ [])
unfolding mem_str
snoc-Pairwise [] x m h = (tt, tt)
snoc-Pairwise (y ∷ xs) x m h = (
  All-append (Differ y) xs (x ∷ []) h.0 (ground (arith, str_eq_iff x y, str_eq_iff y x, m), tt),
  snoc-Pairwise xs x (ground (arith, m)) h.1,
)

add_to_set-AreSets :
    (groups : Groups Str Str) (k x : Str) → AreSets groups → AreSets (add_to_set groups k x)
unfolding add_to_set
add_to_set-AreSets [] k x h = ((tt, tt), tt)
add_to_set-AreSets ((j, xs) ∷ groups) k x h = elim (Bool-cases (str_eq j k)) [
  | inr e ↦ rw e (h.0, add_to_set-AreSets groups k x h.1)
  | inl e ↦ elim (Bool-cases (mem_str x xs)) [
    | inl m ↦ rw (e, m) h
    | inr m ↦ rw (e, m) (snoc-Pairwise xs x m h.0, h.1)
  ]
]

add_values-AreSets :
    (k : Str) (vs : List Str) (agg : Groups Str Str) → AreSets agg → AreSets (add_values k vs agg)
unfolding add_values
add_values-AreSets k [] agg h = h
add_values-AreSets k (v ∷ vs) agg h =
    add_values-AreSets k vs (add_to_set agg k v) (add_to_set-AreSets agg k v h)

add_related-AreSets :
    (related agg : Groups Str Str) → AreSets agg → AreSets (add_related related agg)
unfolding add_related
add_related-AreSets [] agg h = h
add_related-AreSets ((k, vs) ∷ related) agg h =
    add_related-AreSets related (add_values k vs agg) (add_values-AreSets k vs agg h)

module _ (search : Str → Str → Bool) (extract_ids : Str → Groups Str Str) (start stop : ℕ)
    (lanes : Option (List Str)) where
  place_all-AreSets :
      (lines : List Line) (l : Lanes)
      → AreSets l.ids
      → AreSets (place_all search extract_ids start stop lanes lines l).ids
  unfolding place_all place
  place_all-AreSets [] l h = h
  place_all-AreSets (ln ∷ lines) l h =
      let next = place search extract_ids lanes ln l in
      elim (is_inside start stop ln)
        as (λ b.
          AreSets
            (place_all search extract_ids start stop lanes lines (if b then next else l)).ids) [
              | true ↦
                  place_all-AreSets lines next (add_related-AreSets (extract_ids ln.body) l.ids h)
              | false ↦ place_all-AreSets lines l h
            ]

  -- What a window has seen are sets.
  pub window_of-AreSets :
      (lines : List Line) (centre radius : ℕ)
      → AreSets (window_of search extract_ids lines centre radius lanes start stop).ids_seen
  unfolding window_of
  window_of-AreSets lines centre radius =
      place_all-AreSets lines (record { total = 0; counts = []; events = []; ids = [] }) tt
