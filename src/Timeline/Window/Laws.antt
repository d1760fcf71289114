-- ===== src/Timeline/Window/Laws.antt =====
-- What a window holds of the lines of an index: each lane its lines, sorted, and the counts of all.

use zcc_analysis.Common.{
  length-map, ℕ, ◌+◌, ◌-◌, ◌≤◌, ◌≡◌, refl, sym, ap, subst, ◌∙◌, inl, inr, Bool, true, false, Option,
  List, [], ◌∷◌, ◌++◌, map, append-nil, append_assoc, arith, length, keep, if◌then◌else◌,
  Bool-cases, Str, str_eq, str_eq_iff,
}
use zcc_analysis.Common.Outcome.{Outcome, ok, ◌>>=◌}
use zcc_analysis.Query.Node
use zcc_analysis.Query.Atoms.{minus, plus, max_datetime}
use zcc_analysis.Common.Groups.{Groups, lookup}
use zcc_analysis.Common.Groups.Laws.{lookup-push}
use zcc_analysis.Common.Counters.{Counter, get, sum, sum-add, get-add}
use zcc_analysis.Common.Sorting.{
  IsSortedBy, sort_by, sort_by-IsSortedBy, length-keep-sort_by, length-sort_by,
}
use zcc_analysis.Viewer.Index.{Line}
use zcc_analysis.Timeline.Phases.{lane_order}
use zcc_analysis.Timeline.Window.{
  Event, Window, Lanes, is_wanted, is_inside, set_default, set_defaults, event_le, sort_lanes,
  lane_of, event_of, place, place_all, window_of, build_timeline,
}

get-set_default : (counts : Counter) (key k : Str) → get (set_default counts key) k ≡ get counts k
unfolding get set_default
get-set_default [] key k = ground arith
get-set_default ((j, n) ∷ counts) key k = ground (arith, get-set_default counts key k)

sum-set_default : (counts : Counter) (key : Str) → sum (set_default counts key) ≡ sum counts
unfolding set_default
sum-set_default [] key = omega arith
sum-set_default ((j, n) ∷ counts) key = ground (arith, sum-set_default counts key)

get-set_defaults :
    (counts : Counter) (keys : List Str) (k : Str) → get (set_defaults counts keys) k ≡ get counts k
unfolding set_defaults
get-set_defaults counts [] k = refl
get-set_defaults counts (key ∷ keys) k =
    get-set_defaults (set_default counts key) keys k ∙ get-set_default counts key k

sum-set_defaults :
    (counts : Counter) (keys : List Str) → sum (set_defaults counts keys) ≡ sum counts
unfolding set_defaults
sum-set_defaults counts [] = refl
sum-set_defaults counts (key ∷ keys) =
    sum-set_defaults (set_default counts key) keys ∙ sum-set_default counts key

event_le_total : (a b : Event) → event_le a b ≡ false → event_le b a ≡ true
unfolding event_le
event_le_total a b h = ground (arith, h)

event_le_trans : (a b c : Event) → event_le a b ≡ true → event_le b c ≡ true → event_le a c ≡ true
unfolding event_le
event_le_trans a b c h k = ground (arith, h, k)

lookup-sort_lanes :
    (events : Groups Str Event) (lane : Str)
    → lookup str_eq (sort_lanes events) lane ≡ sort_by event_le (lookup str_eq events lane)
unfolding lookup sort_by
lookup-sort_lanes [] lane = refl
lookup-sort_lanes (e ∷ events) lane = elim (Bool-cases (str_eq e.0 lane)) [
  | inl d ↦ rw d refl
  | inr d ↦ rw d (lookup-sort_lanes events lane)
]

module _ (search : Str → Str → Bool) (extract_ids : Str → Groups Str Str) (start stop : ℕ)
    (lanes : Option (List Str)) where
  -- The lines of a lane inside the window.
  abbrev pub lane_lines : Str → List Line → List Line
  lane_lines lane lines =
      keep (λ ln. str_eq (lane_of search extract_ids ln) lane) (keep (is_inside start stop) lines)

  place_all-counts :
      (lines : List Line) (l : Lanes) (lane : Str)
      → let m : Lanes = place_all search extract_ids start stop lanes lines l in
        (m.total ≡ l.total + length (keep (is_inside start stop) lines))
        × (sum m.counts ≡ sum l.counts + length (keep (is_inside start stop) lines))
        × (get m.counts lane ≡ get l.counts lane + length (lane_lines lane lines))
  unfolding place_all place
  place_all-counts [] l lane = omega arith
  place_all-counts (ln ∷ lines) l lane =
      let next = place search extract_ids lanes ln l in
      let here = lane_of search extract_ids ln in
      elim (Bool-cases (is_inside start stop ln)) [
        | inl e ↦
            rw (place_all, e)
              (ground (
                arith,
                place_all-counts lines next lane,
                sum-add l.counts here 1,
                get-add l.counts here lane 1,
              ))
        | inr e ↦ rw (place_all, e) (place_all-counts lines l lane)
      ]

  lookup-place :
      (ln : Line) (l : Lanes) (lane : Str)
      → is_wanted lanes lane ≡ true
      → lookup str_eq (place search extract_ids lanes ln l).events lane
        ≡ lookup str_eq l.events lane
          ++ (if str_eq (lane_of search extract_ids ln) lane
              then event_of search extract_ids ln ∷ []
              else [])
  unfolding place
  lookup-place ln l lane w =
      let here = lane_of search extract_ids ln in
      let one = lookup-push str_eq str_eq_iff here (event_of search extract_ids ln) l.events lane in
      elim (Bool-cases (str_eq here lane)) [
        | inl e ↦
            let wanted : is_wanted lanes here ≡ true =
              subst (λ k. is_wanted lanes k ≡ true) (sym ((str_eq_iff here lane).0 e)) w in
            rw (wanted, e, one, e) refl
        | inr e ↦ elim (Bool-cases (is_wanted lanes here)) [
          | inl v ↦ rw (v, e, one, e) (sym (append-nil (lookup str_eq l.events lane)))
          | inr v ↦ rw (v, e) (sym (append-nil (lookup str_eq l.events lane)))
        ]
      ]

  -- The events of a lane that is wanted, before they are sorted.
  lookup-place_all :
      (lines : List Line) (l : Lanes) (lane : Str)
      → is_wanted lanes lane ≡ true
      → lookup str_eq (place_all search extract_ids start stop lanes lines l).events lane
        ≡ lookup str_eq l.events lane ++ map (event_of search extract_ids) (lane_lines lane lines)
  unfolding place_all
  lookup-place_all [] l lane w = sym (append-nil (lookup str_eq l.events lane))
  lookup-place_all (ln ∷ lines) l lane w =
      let next = place search extract_ids lanes ln l in
      let rest = map (event_of search extract_ids) (lane_lines lane lines) in
      elim (Bool-cases (is_inside start stop ln)) [
        | inr e ↦ rw (place_all, e) (lookup-place_all lines l lane w)
        | inl e ↦ elim (Bool-cases (str_eq (lane_of search extract_ids ln) lane)) [
          | inl d ↦
              rw (place_all, e, d, lookup-place_all lines next lane w, lookup-place ln l lane w, d)
                (append_assoc (lookup str_eq l.events lane) (event_of search extract_ids ln ∷ [])
                  rest)
          | inr d ↦
              rw (place_all, e, d, lookup-place_all lines next lane w, lookup-place ln l lane w, d)
                (ap (λ xs. xs ++ rest) (append-nil (lookup str_eq l.events lane)))
        ]
      ]

  -- A window counts the lines inside it, in all and by lane; each lane that is wanted holds its lines, each as often as
  -- the index, by time and line number.
  pub window_of-IsWindow :
      (lines : List Line) (centre radius : ℕ) (lane : Str) (p : Event → Bool)
      → is_wanted lanes lane ≡ true
      → let w : Window = window_of search extract_ids lines centre radius lanes start stop in
        let events : List Event = map (event_of search extract_ids) (lane_lines lane lines) in
        (w.total_events ≡ length (keep (is_inside start stop) lines))
        × (sum w.lane_counts ≡ w.total_events)
        × (get w.lane_counts lane ≡ length (lookup str_eq w.lane_events lane))
        × (length (keep p (lookup str_eq w.lane_events lane)) ≡ length (keep p events))
        × IsSortedBy event_le (lookup str_eq w.lane_events lane)
  unfolding window_of get lookup
  window_of-IsWindow lines centre radius lane p w =
      let nothing : Lanes = record { total = 0; counts = []; events = []; ids = [] } in
      let l = place_all search extract_ids start stop lanes lines nothing in
      let counts = place_all-counts lines nothing lane in
      let held =
        lookup-sort_lanes l.events lane
        ∙ ap (sort_by event_le) (lookup-place_all lines nothing lane w) in
      let events = map (event_of search extract_ids) (lane_lines lane lines) in
      (
        omega (arith, counts.0),
        omega (arith, sum-set_defaults l.counts lane_order, counts.0, counts.1),
        omega (
          arith,
          get-set_defaults l.counts lane_order lane,
          counts.2,
          ap length held,
          length-sort_by event_le events,
          length-map (event_of search extract_ids) (lane_lines lane lines),
        ),
        ap (λ es. length (keep p es)) held ∙ length-keep-sort_by event_le p events,
        subst (IsSortedBy event_le) (sym held)
            (sort_by-IsSortedBy event_le event_le_total event_le_trans events),
      )

within_minus : (t d : ℕ) → d ≤ t → minus t d ≡ ok (t - d)
unfolding minus
within_minus t d h = ground (arith, h)

within_plus : (t d : ℕ) → t + d ≤ max_datetime → plus t d ≡ ok (t + d)
unfolding plus
within_plus t d h = ground (arith, h)

bind_ok :
    (x y : Outcome Node.Raised ℕ) (a b : ℕ)
    → x ≡ ok a
    → y ≡ ok b
    → (f : ℕ → ℕ → Window) → (x >>= (λ start. y >>= (λ stop. ok (f start stop)))) ≡ ok (f a b)
bind_ok x y a b h k f = rw (h, k) refl

-- When the bounds are times, a window is returned. It counts the lines from centre - radius to centre + radius, in all
-- and by lane; each lane that is wanted holds its lines, each as often as the index, by time and line number.
pub build_timeline-IsWindow :
    (search : Str → Str → Bool) (extract_ids : Str → Groups Str Str) (lines : List Line)
    (centre radius : ℕ) (lanes : Option (List Str)) (lane : Str) (p : Event → Bool)
    → radius ≤ centre
    → centre + radius ≤ max_datetime
    → is_wanted lanes lane ≡ true
    → let inside : Line → Bool = is_inside (centre - radius) (centre + radius) in
      let lines_of : List Line =
        keep (λ ln. str_eq (lane_of search extract_ids ln) lane) (keep inside lines) in
      (w : Window) × (build_timeline search extract_ids lines centre radius lanes ≡ ok w)
      × (w.total_events ≡ length (keep inside lines))
      × (sum w.lane_counts ≡ w.total_events)
      × (get w.lane_counts lane ≡ length (lookup str_eq w.lane_events lane))
      × (length (keep p (lookup str_eq w.lane_events lane))
          ≡ length (keep p (map (event_of search extract_ids) lines_of)))
      × IsSortedBy event_le (lookup str_eq w.lane_events lane)
unfolding build_timeline
build_timeline-IsWindow search extract_ids lines centre radius lanes lane p low high wanted =
    let start = centre - radius in
    let stop = centre + radius in
    let facts =
      window_of-IsWindow search extract_ids start stop lanes lines centre radius lane p wanted in
    (
      window_of search extract_ids lines centre radius lanes start stop,
      bind_ok (minus centre radius) (plus centre radius) start stop (within_minus centre radius low)
          (within_plus centre radius high)
          (λ a b. window_of search extract_ids lines centre radius lanes a b),
      facts.0,
      facts.1,
      facts.2,
      facts.3,
      facts.4,
    )
