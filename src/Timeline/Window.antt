-- ===== src/Timeline/Window.antt =====
-- `build_timeline` and `flatten_events`: the lines around an instant, by lane.
pub mod Laws
use zcc_analysis.Common.{
  ℕ, zero, suc, ◌+◌, ◌-◌, ◌≤◌, ◌<◌, ◌≡◌, ◌≢◌, refl, sym, ap, subst, ◌∙◌, ◌↔◌, ◌⊎◌, inl, inr, Bool,
  true, false, not, ◌&&◌, ◌||◌, Option, none, some, List, [], ◌∷◌, ◌++◌, map, append-nil,
  append_assoc, arith, length, take, drop, get_elem?, keep, All, All-append, length-append,
  if◌then◌else◌, ltb, leb, ◌==◌, Bool-cases, Str, str_eq, str_eq_iff, codes, mem_str,
}
use zcc_analysis.Common.Outcome.{Outcome, ok, raised, ◌>>=◌}
use zcc_analysis.Common.Groups.{Groups, push}
use zcc_analysis.Common.Counters.{Counter, add}
use zcc_analysis.Common.Sorting.{sort_by}
use zcc_analysis.Common.Order.{str_le}
use zcc_analysis.Query.Node
use zcc_analysis.Query.Atoms.{minus, plus}
use zcc_analysis.Viewer.Index.{Line}
use zcc_analysis.Timeline.Phases.{classify_phase, phase_to_lane, lane_order}
use zcc_analysis.Timeline.Session.{add_related}

pub record Event : Type 0 where
  pub ts : ℕ
  pub lane : Str
  pub phase : Str
  pub level : Str
  pub component : Str
  pub source_file : Str
  pub line_no : ℕ
  pub body : Str

-- `TimelineWindow`; an identifier seen is in its set once, in the order of the lines.
pub record Window : Type 0 where
  pub centre_ts : ℕ
  pub radius : ℕ
  pub start_ts : ℕ
  pub end_ts : ℕ
  pub total_events : ℕ
  pub lane_counts : Counter
  pub lane_events : Groups Str Event
  pub ids_seen : Groups Str Str

-- What the loop over the lines keeps.
pub record Lanes : Type 0 where
  pub total : ℕ
  pub counts : Counter
  pub events : Groups Str Event
  pub ids : Groups Str Str

-- `lanes is None or lane in lanes`
unfoldable pub is_wanted : Option (List Str) → Str → Bool
unfolding mem_str
is_wanted none lane = true
is_wanted (some lanes) lane = mem_str lane lanes

-- `not (ts < start_ts or ts > end_ts)`
abbrev pub is_inside : ℕ → ℕ → Line → Bool
is_inside start stop ln = not (ltb ln.ts start || ltb stop ln.ts)

-- `counts.setdefault(key, 0)`
unfoldable pub set_default : Counter → Str → Counter
unfolding str_eq
set_default [] key = (key, 0) ∷ []
set_default ((k, n) ∷ counts) key =
    let rest = set_default counts key in if str_eq k key then (k, n) ∷ counts else (k, n) ∷ rest

unfoldable pub set_defaults : Counter → List Str → Counter
unfolding set_default
set_defaults counts [] = counts
set_defaults counts (key ∷ keys) = set_defaults (set_default counts key) keys

-- The key of the sort of a lane: `(e.ts, e.line_no)`.
unfoldable pub event_le : Event → Event → Bool
event_le a b = ltb a.ts b.ts || a.ts == b.ts && leb a.line_no b.line_no

-- The key of `flatten_events`: `(e.ts, e.source_file, e.line_no)`.
unfoldable pub flat_le : Event → Event → Bool
unfolding str_eq str_le
flat_le a b =
    ltb a.ts b.ts
    || a.ts == b.ts
      && (if str_eq a.source_file b.source_file
          then leb a.line_no b.line_no
          else str_le a.source_file b.source_file)

abbrev pub sort_lanes : Groups Str Event → Groups Str Event
sort_lanes [] = []
sort_lanes (e ∷ events) = (e.0, sort_by event_le e.1) ∷ sort_lanes events

-- `re.search`, ignoring case, and `_extract_all` of id_inventory.py.
module _ (search : Str → Str → Bool) (extract_ids : Str → Groups Str Str) where
  abbrev pub lane_of : Line → Str
  lane_of ln = phase_to_lane (classify_phase search ln.body)

  abbrev pub event_of : Line → Event
  event_of ln = record {
    ts = ln.ts;
    lane = lane_of ln;
    phase = classify_phase search ln.body;
    level = ln.level;
    component = ln.component;
    source_file = ln.source_file;
    line_no = ln.line_no;
    body = ln.body;
  }

  -- A line inside the window.
  unfoldable pub place : Option (List Str) → Line → Lanes → Lanes
  unfolding classify_phase phase_to_lane add push str_eq is_wanted add_related
  place lanes ln l = record {
    total = suc l.total;
    counts = add l.counts (lane_of ln) 1;
    events =
        if is_wanted lanes (lane_of ln)
        then push str_eq (lane_of ln) (event_of ln) l.events
        else l.events;
    ids = add_related (extract_ids ln.body) l.ids;
  }

  -- The loop over the lines.
  unfoldable pub place_all : ℕ → ℕ → Option (List Str) → List Line → Lanes → Lanes
  unfolding place
  place_all start stop lanes [] l = l
  place_all start stop lanes (ln ∷ lines) l =
      place_all start stop lanes lines (if is_inside start stop ln then place lanes ln l else l)

  -- The window from `start` to `stop`.
  unfoldable pub window_of : List Line → ℕ → ℕ → Option (List Str) → ℕ → ℕ → Window
  unfolding place_all set_defaults sort_by event_le
  window_of lines centre radius lanes start stop =
      let l =
        place_all start stop lanes lines
          (record { total = 0; counts = []; events = []; ids = [] }) in
      record {
        centre_ts = centre;
        radius = radius;
        start_ts = start;
        end_ts = stop;
        total_events = l.total;
        lane_counts = set_defaults l.counts lane_order;
        lane_events = sort_lanes l.events;
        ids_seen = l.ids;
      }

  -- The two bounds may leave the range of datetime.
  unfoldable pub build_timeline : List Line → ℕ → ℕ → Option (List Str) → Outcome Node.Raised Window
  unfolding minus plus window_of
  build_timeline lines centre radius lanes = minus centre radius >>= (λ start.
      plus centre radius >>= (λ stop. ok (window_of lines centre radius lanes start stop)))

-- `out.extend(events)` for each lane.
abbrev pub flatten : Groups Str Event → List Event
flatten [] = []
flatten (e ∷ events) = e.1 ++ flatten events

unfoldable pub flatten_events : Window → List Event
unfolding sort_by flat_le
flatten_events w = sort_by flat_le (flatten w.lane_events)
