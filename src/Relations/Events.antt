-- ===== src/Relations/Events.antt =====
-- Findings and the events of the correlators, and the helpers that read their times.

use zcc_analysis.Common.{
  ◌*◌, ℕ, zero, suc, Bool, true, false, if◌then◌else◌, ◌&&◌, Option, none, some, List, [], ◌∷◌,
  ◌++◌, leb, Str, codes, String,
}
use zcc_analysis.Common.Outcome.{Outcome, ok, raised, ◌>>=◌}
use zcc_analysis.Query.Node
use zcc_analysis.Query.Atoms.{minus, plus, second}

-- What the functions may raise: OverflowError and TypeError.
pub data Raised : Type 0 where
  overflow_error type_error : Raised

-- A datetime: the time of its wall clock, and whether it has a zone.
pub record Datetime : Type 0 where
  pub wall : ℕ
  pub aware : Bool

-- What an attribute of an event may hold.
pub data Value : Type 0 where
  instant : Datetime → Value
  text : Str → Value
  number : ℕ → Value
  -- Anything else: whether it counts as true.
  other : Bool → Value

-- An event: none, a datetime, or an object with attributes or a dict with keys.
pub data Event : Type 0 where
  nothing : Event
  moment : Datetime → Event
  object : (Str → Option Value) → Event
  dict : (Str → Option Value) → Event

-- A finding: a dict with a code and a time range, if it is a pair of datetimes.
pub record Finding : Type 0 where
  pub code : Str
  pub time_range : Option (Datetime × Datetime)

-- The first attribute that holds a datetime.
unfoldable pub first_instant : List String → (Str → Option Value) → Option Datetime
first_instant [] get = none
first_instant (name ∷ names) get =
    let rest = first_instant names get in
    elim (get (codes name)) [ some (instant t) ↦ some t | _ ↦ rest ]

abbrev pub ts_names : List String
ts_names = "ts" ∷ "timestamp" ∷ "time" ∷ "at" ∷ []

unfoldable pub ts_of : Event → Option Datetime
unfolding first_instant
ts_of nothing = none
ts_of (moment t) = some t
ts_of (object get) = first_instant ts_names get
ts_of (dict get) = first_instant ts_names get

-- The first attribute that holds a text that is not empty.
unfoldable pub first_text : List String → (Str → Option Value) → Str
first_text [] get = []
first_text (name ∷ names) get =
    let rest = first_text names get in
    elim (get (codes name)) [ some (text (c ∷ s)) ↦ c ∷ s | _ ↦ rest ]

unfoldable pub source_file_of : Event → Str
unfolding first_text
source_file_of nothing = []
source_file_of (moment t) = []
source_file_of (object get) = first_text ("source_file" ∷ "src_file" ∷ "file" ∷ "path" ∷ []) get
source_file_of (dict get) = first_text ("source_file" ∷ "src_file" ∷ "file" ∷ "path" ∷ []) get

unfoldable pub first_number : List String → (Str → Option Value) → Option ℕ
first_number [] get = none
first_number (name ∷ names) get =
    let rest = first_number names get in
    elim (get (codes name)) [ some (number n) ↦ some n | _ ↦ rest ]

unfoldable pub line_no_of : Event → Option ℕ
unfolding first_number
line_no_of nothing = none
line_no_of (moment t) = none
line_no_of (object get) = first_number ("line_no" ∷ "lineno" ∷ "line" ∷ []) get
line_no_of (dict get) = first_number ("line_no" ∷ "lineno" ∷ "line" ∷ []) get

-- `bool(v)`
unfoldable pub is_true : Value → Bool
is_true (instant t) = true
is_true (text []) = false
is_true (text (c ∷ s)) = true
is_true (number zero) = false
is_true (number (suc n)) = true
is_true (other b) = b

-- `ev.get(name)` or `getattr(ev, name, "")`.
unfoldable pub attribute : String → Event → Option Value
attribute name nothing = none
attribute name (moment t) = none
attribute name (object get) = get (codes name)
attribute name (dict get) = get (codes name)

-- The attribute, if it counts as true.
unfoldable pub true_attribute : String → Event → Option Value
unfolding attribute is_true
true_attribute name ev = elim (attribute name ev) [
  | none ↦ none
  | some v ↦ if is_true v then some v else none
]

-- `_naive`
abbrev pub naive : Datetime → ℕ
naive t = t.wall

-- Arithmetic of datetimes may raise OverflowError.
unfoldable pub moved : Outcome Node.Raised ℕ → Outcome Raised ℕ
moved (ok t) = ok t
moved (raised e) = raised overflow_error

-- The bounds of a window with its slack, in seconds; the difference may leave the range of datetime.
unfoldable pub widen : Datetime × Datetime → ℕ → Outcome Raised (ℕ × ℕ)
unfolding minus plus moved
widen window zero = ok (naive window.0, naive window.1)
widen window (suc slack) =
    moved (minus (naive window.0) (suc slack * second))
    >>= (λ start. moved (plus (naive window.1) (suc slack * second)) >>= (λ stop. ok (start, stop)))

unfoldable pub in_window : Option Datetime → Datetime × Datetime → ℕ → Outcome Raised Bool
unfolding widen
in_window none window slack = ok false
in_window (some t) window slack =
    widen window slack >>= (λ bounds. ok (leb bounds.0 (naive t) && leb (naive t) bounds.1))

-- `isoformat` is datetime's.
unfoldable pub finding_id : (Datetime → Str) → Finding → Str
finding_id isoformat f = elim f.time_range [
  | some r ↦ f.code ++ b'@' ∷ isoformat r.0
  | none ↦ elim f.code [ [] ↦ codes "unknown" | c ∷ s ↦ c ∷ s ]
]
