-- ===== src/Relations/Near/Causes.antt =====
-- What is near a finding is made of the events in its window, in order.

use zcc_analysis.Common.{
  ℕ, ◌≡◌, ◌⊎◌, Bool, true, false, not, Option, none, some, List, ◌++◌, Str, any, codes,
  if◌then◌else◌,
}
use zcc_analysis.Common.Outcome.{Outcome, ok, raised}
use zcc_analysis.Relations.Events.{
  Datetime, Value, instant, text, number, other, Event, Raised, type_error, nothing, moment, object,
  dict, true_attribute,
}
use zcc_analysis.Relations.Near.{Near, Correlators, standby, force_reauth, restart, closed, changed}
use zcc_analysis.Relations.Near.Collected.{AllIn, Apart, IsOrdered, faulty}

-- A value that is there and is no text.
abbrev pub no_text_there : Option Value → Bool
no_text_there none = false
no_text_there (some (text s)) = false
no_text_there (some (instant t)) = true
no_text_there (some (number n)) = true
no_text_there (some (other b)) = true

-- A close whose host counts as true and is no text.
abbrev pub bad_host : Event → Datetime → Bool
bad_host ev t = no_text_there (true_attribute "broker_host" ev)

-- A datetime that has a zone where `exit` has none, or the other way round.
abbrev pub other_zone : Datetime → Option Value → Bool
other_zone exit (some (instant fr)) = if fr.aware then not exit.aware else exit.aware
other_zone exit none = false
other_zone exit (some (text s)) = false
other_zone exit (some (number n)) = false
other_zone exit (some (other b)) = false

-- A cycle whose `force_reauth_ts` cannot be compared with its exit.
abbrev pub mixed_zones : Event → Datetime → Bool
mixed_zones (dict get) exit = other_zone exit (get (codes "force_reauth_ts"))
mixed_zones nothing exit = false
mixed_zones (moment t) exit = false
mixed_zones (object get) exit = false

-- A text, or TypeError where there is a fault.
abbrev FaultsAt : Bool → Outcome Raised Str → Type 0
FaultsAt fault r =
    ((fault ≡ true) × (r ≡ raised type_error)) ⊎ ((d : Str) × (fault ≡ false) × (r ≡ ok d))

-- The effects in the bounds, in the order of time, or TypeError because of a close.
abbrev pub AreEffects : (Value → Str) → ℕ × ℕ → Correlators → Outcome Raised (List Near) → Type 0
AreEffects shown b cs r =
    ((closes : List Near) × (states : List Near) × (out : List Near) × (r ≡ ok out)
      × IsOrdered (closes ++ states) out
      × AllIn b (closed shown) cs.mtunnel_closes closes
      × AllIn b (changed shown) cs.auth_state_events states
      × (any (faulty b (closed shown) bad_host) cs.mtunnel_closes ≡ false))
    ⊎ ((r ≡ raised type_error) × (any (faulty b (closed shown) bad_host) cs.mtunnel_closes ≡ true))

-- The triggers in the bounds, in the order of time, or TypeError because of a cycle.
abbrev pub AreTriggers :
    (Datetime → Datetime → Str)
    → (Value → Str)
    → ℕ × ℕ
    → Correlators
    → Outcome Raised (List Near)
    → Type 0
AreTriggers render shown b cs r =
    ((exits : List Near) × (new : List Near) × (starts : List Near) × (out : List Near) × (r
        ≡ ok out)
      × IsOrdered ((exits ++ new) ++ starts) out
      × AllIn b (standby render) cs.modern_standby_cycles exits
      × Apart b (force_reauth shown) exits cs.force_reauth_events new
      × AllIn b restart cs.service_starts starts
      × (any (faulty b (standby render) mixed_zones) cs.modern_standby_cycles ≡ false))
    ⊎ ((r ≡ raised type_error)
        × (any (faulty b (standby render) mixed_zones) cs.modern_standby_cycles ≡ true))
