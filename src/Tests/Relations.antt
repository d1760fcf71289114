-- ===== src/Tests/Relations.antt =====
-- A finding with what stands near it.

use zcc_analysis.Common.{
  ◌*◌, ℕ, ◌+◌, ◌≡◌, refl, true, false, keep, none, some, [], ◌∷◌, map, if◌then◌else◌, Str, str_eq,
  codes, String,
}
use zcc_analysis.Common.Outcome.{ok, raised}
use zcc_analysis.Relations.Events.{
  Datetime, Value, number, type_error, instant, Event, nothing, moment, dict, Finding,
}
use zcc_analysis.Relations.Near.{Near, Correlators, get_co_occurring, get_triggers, get_effects}
use zcc_analysis.Relations.Near.Laws.{findings, is_beside, get_co_occurring-AreBeside}

abbrev time : ℕ → Datetime
time n = record { wall = n; aware = true }

abbrev finding : String → ℕ → ℕ → Finding
finding code start stop = record { code = codes code; time_range = some (time start, time stop) }

abbrev isoformat : Datetime → Str
isoformat t = t.wall ∷ []

abbrev first : Finding
first = finding "ZPA" 10 20

abbrev beside : Finding
beside = finding "ZIA" 18 40

-- The finding itself stands first in the list.
get_co_occurring-AreBeside_example :
    ((beside ∷ [])
      ≡ keep
          (is_beside isoformat 0 first)
          (findings isoformat 0 (some first ∷ none ∷ some beside ∷ [])))
    × ((g : Finding) → is_beside isoformat 0 first g ≡ is_beside isoformat 0 g first)
    × (is_beside isoformat 0 first first ≡ false)
unfolding get_co_occurring
get_co_occurring-AreBeside_example =
    get_co_occurring-AreBeside isoformat 0 first (some first ∷ none ∷ some beside ∷ [])
      (beside ∷ []) refl

abbrev minute : ℕ
minute = 60_000_000

abbrev reauth : Finding
reauth = finding "REAUTH" (10 * minute) (20 * minute)

-- A cycle with its `exit_ts`.
abbrev cycle : ℕ → Event
cycle n = dict (λ name. if str_eq name (codes "exit_ts") then some (instant (time n)) else none)

-- A second is 1_000_000: the second event is too close to the cycle.
abbrev correlators : Correlators
correlators = record {
  modern_standby_cycles = cycle (12 * minute) ∷ nothing ∷ [];
  force_reauth_events = moment (time (15 * minute)) ∷ moment (time (12 * minute + 5)) ∷ [];
  service_starts = moment (time (9 * minute)) ∷ moment (time (30 * minute)) ∷ [];
  mtunnel_closes = moment (time (19 * minute)) ∷ moment (time (1 * minute)) ∷ [];
  auth_state_events = moment (time (11 * minute)) ∷ [];
}

abbrev bounds : ℕ × ℕ
bounds = (9 * minute, 21 * minute)

abbrev render : Datetime → Datetime → Str
render a b = []

abbrev shown : Value → Str
shown v = codes "value"

-- The times of the triggers: a start, the cycle and a force_reauth event.
times_of_triggers :
    elim (get_triggers render shown reauth correlators 60) [
      | raised e ↦ []
      | ok out ↦ map (λ (n : Near). n.ts.wall) out
    ]
    ≡ 9 * minute ∷ 12 * minute ∷ 15 * minute ∷ []
unfolding get_triggers str_eq
times_of_triggers = refl

-- A close whose host is a number.
abbrev numbered_host : Event
numbered_host = dict (λ name.
    if str_eq name (codes "ts")
    then some (instant (time (19 * minute)))
    else if str_eq name (codes "broker_host")
    then some (number 7)
    else none)

host_raises :
    get_effects shown reauth (record correlators { mtunnel_closes = numbered_host ∷ [] }) 60
    ≡ raised type_error
unfolding get_effects str_eq
host_raises = refl
