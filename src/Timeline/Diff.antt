-- ===== src/Timeline/Diff.antt =====
-- `diff_windows`: two windows side by side.
pub mod Laws
use zcc_analysis.Common.{
  ℕ, zero, suc, ◌+◌, ◌-◌, ◌≤◌, ◌<◌, ◌≡◌, ◌≢◌, refl, sym, ap, subst, ◌∙◌, ◌↔◌, ◌⊎◌, inl, inr, Bool,
  true, false, not, ◌&&◌, ◌||◌, Option, none, some, List, [], ◌∷◌, ◌++◌, map, append-nil,
  append_assoc, arith, length, take, drop, get_elem?, keep, All, All-append, length-append,
  if◌then◌else◌, ltb, leb, ◌==◌, Bool-cases, Str, str_eq, str_eq_iff, codes, mem_str,
}
use zcc_analysis.Common.Groups.{Groups, lookup}
use zcc_analysis.Common.Counters.{get}
use zcc_analysis.Common.Integers.{ℤ, minus}
use zcc_analysis.Common.Sets.{distinct, sorted}
use zcc_analysis.Common.Sorting.{sort_by}
use zcc_analysis.Common.Order.{str_le}
use zcc_analysis.Timeline.Phases.{lane_order}
use zcc_analysis.Timeline.Window.{Window}

pub record LaneDelta : Type 0 where
  pub lane : Str
  pub count_a : ℕ
  pub count_b : ℕ
  pub delta : ℤ

pub record IdDelta : Type 0 where
  pub tag_type : Str
  pub only_in_a : List Str
  pub only_in_b : List Str
  pub in_both : List Str

pub record WindowDiff : Type 0 where
  pub window_a : Window
  pub window_b : Window
  pub lane_deltas : List LaneDelta
  pub id_deltas : List IdDelta

unfoldable pub lane_delta : Window → Window → Str → LaneDelta
unfolding get minus
lane_delta a b lane = record {
  lane = lane;
  count_a = get a.lane_counts lane;
  count_b = get b.lane_counts lane;
  delta = minus (get a.lane_counts lane) (get b.lane_counts lane);
}

-- `a_set - b_set` and `a_set & b_set`
abbrev pub without : List Str → List Str → List Str
without xs ys = keep (λ v. not (mem_str v ys)) xs

abbrev pub common : List Str → List Str → List Str
common xs ys = keep (λ v. mem_str v ys) xs

unfoldable pub id_delta : Window → Window → Str → IdDelta
unfolding lookup str_eq mem_str sort_by str_le
id_delta a b tag_type =
    let a_set = lookup str_eq a.ids_seen tag_type in
    let b_set = lookup str_eq b.ids_seen tag_type in
    record {
      tag_type = tag_type;
      only_in_a = sorted (without a_set b_set);
      only_in_b = sorted (without b_set a_set);
      in_both = sorted (common a_set b_set);
    }

abbrev pub keys : Groups Str Str → List Str
keys groups = map (λ (e : Str × List Str). e.0) groups

-- `sorted(set(a) | set(b))`
unfoldable pub all_types : Window → Window → List Str
unfolding distinct sort_by str_le
all_types a b = sorted (distinct (keys a.ids_seen ++ keys b.ids_seen))

unfoldable pub diff_windows : Window → Window → WindowDiff
unfolding lane_delta id_delta all_types
diff_windows a b = record {
  window_a = a;
  window_b = b;
  lane_deltas = map (lane_delta a b) lane_order;
  id_deltas = map (id_delta a b) (all_types a b);
}
