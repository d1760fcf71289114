-- ===== src/Relations/Near.antt =====
-- `get_co_occurring`, `get_triggers` and `get_effects`.
pub mod Laws
pub mod Collected
pub mod Causes
use zcc_analysis.Common.{
  ℕ, zero, suc, ◌+◌, ◌-◌, ◌≤◌, ◌<◌, ◌≡◌, ◌≢◌, refl, sym, ap, subst, ◌∙◌, ◌↔◌, ◌⊎◌, inl, inr, Bool,
  true, false, not, ◌&&◌, ◌||◌, Option, none, some, List, [], ◌∷◌, ◌++◌, map, append-nil,
  append_assoc, arith, length, take, drop, get_elem?, keep, All, All-append, length-append,
  if◌then◌else◌, ltb, leb, ◌==◌, Bool-cases, Str, str_eq, str_eq_iff, codes, String, any,
}
use zcc_analysis.Common.Outcome.{Outcome, ok, raised, ◌>>=◌}
use zcc_analysis.Common.Sorting.{sort_by}
use zcc_analysis.Query.Atoms.{second}
use zcc_analysis.Relations.Texts.{no_text, paired_with, attribute_or, close_detail}
use zcc_analysis.Relations.Events.{
  Datetime, Value, instant, text, number, other, Event, nothing, moment, object, dict, Finding,
  Raised, type_error, true_attribute, ts_of, source_file_of, line_no_of, naive, widen, in_window,
  finding_id,
}

-- `TriggerEvent` and `EffectEvent`, without the fields that are not set.
pub record Near : Type 0 where
  pub ts : Datetime
  pub label : Str
  pub detail : Str
  pub source_file : Str
  pub line_no : Option ℕ
  pub correlator_id : Str

-- The events of the correlators that are read.
pub record Correlators : Type 0 where
  pub modern_standby_cycles : List Event
  pub force_reauth_events : List Event
  pub service_starts : List Event
  pub mtunnel_closes : List Event
  pub auth_state_events : List Event

-- Whether two findings' times overlap, the first's widened to `start` and `stop`.
unfoldable pub overlaps : ℕ × ℕ → Finding → Bool
overlaps bounds f = elim f.time_range [
  | none ↦ false
  | some r ↦ leb (naive r.0) bounds.1 && leb bounds.0 (naive r.1)
]

-- The other findings; one that is no dict is none.
unfoldable pub co_occurring : (Datetime → Str) → Str → ℕ × ℕ → List (Option Finding) → List Finding
unfolding finding_id str_eq overlaps
co_occurring isoformat self bounds [] = []
co_occurring isoformat self bounds (none ∷ all_findings) =
    co_occurring isoformat self bounds all_findings
co_occurring isoformat self bounds (some f ∷ all_findings) =
    let rest = co_occurring isoformat self bounds all_findings in
    if str_eq (finding_id isoformat f) self
    then rest
    else if overlaps bounds f
    then f ∷ rest
    else rest

-- The finding's time range decides.
unfoldable pub co_occurring_at :
    (Datetime → Str)
    → Finding
    → List (Option Finding)
    → ℕ
    → Option (Datetime × Datetime)
    → Outcome Raised (List Finding)
unfolding finding_id co_occurring widen
co_occurring_at isoformat f all_findings slack none = ok []
co_occurring_at isoformat f all_findings slack (some r) =
    widen r slack
    >>= (λ bounds. ok (co_occurring isoformat (finding_id isoformat f) bounds all_findings))

unfoldable pub get_co_occurring :
    (Datetime → Str) → Finding → List (Option Finding) → ℕ → Outcome Raised (List Finding)
unfolding co_occurring_at
get_co_occurring isoformat f all_findings slack =
    co_occurring_at isoformat f all_findings slack f.time_range

-- `exit_ts` of a cycle: its time, or a datetime under that key.
unfoldable pub exit_ts : Event → Option Datetime
unfolding ts_of
exit_ts ev = elim (ts_of ev) [
  | some t ↦ some t
  | none ↦ elim ev [
    | dict get ↦ elim (get (codes "exit_ts")) [ some (instant t) ↦ some t | _ ↦ none ]
    | _ ↦ none
  ]
]

-- What is read of the events of a correlator: their time, and the texts made of one.
pub record Kind : Type 0 where
  pub correlator_id : String
  pub time : Event → Option Datetime
  pub label : Event → Str
  pub detail : Event → Datetime → Outcome Raised Str

-- An event at its time, unless making its text raises.
unfoldable pub near_of : Kind → Event → Datetime → Outcome Raised Near
near_of k ev t = k.detail ev t >>= (λ detail. ok (record {
  ts = t;
  label = k.label ev;
  detail = detail;
  source_file = source_file_of ev;
  line_no = line_no_of ev;
  correlator_id = codes k.correlator_id;
}))

-- An event, in the window or not, when it has a time.
unfoldable pub within :
    Datetime × Datetime → ℕ → Kind → Event → Option Datetime → Outcome Raised (List Near)
unfolding in_window near_of
within window slack k ev none = ok []
within window slack k ev (some t) =
    in_window (some t) window slack
    >>= (λ b. if b then (near_of k ev t >>= (λ n. ok (n ∷ []))) else ok [])

-- The events of one correlator, in the order in which it gives them.
unfoldable pub collect : Datetime × Datetime → ℕ → Kind → List Event → Outcome Raised (List Near)
unfolding within
collect window slack k [] = ok []
collect window slack k (ev ∷ evs) =
    within window slack k ev (k.time ev)
    >>= (λ here. collect window slack k evs >>= (λ rest. ok (here ++ rest)))

-- Less than a second apart.
unfoldable pub is_close : Datetime → Near → Bool
is_close t near = ltb (naive t) (naive near.ts + second) && ltb (naive near.ts) (naive t + second)

-- The events that are not close to what was collected before.
unfoldable pub collect_apart :
    Datetime × Datetime → ℕ → Kind → List Event → List Near → Outcome Raised (List Near)
unfolding in_window is_close near_of
collect_apart window slack k [] out = ok out
collect_apart window slack k (ev ∷ evs) out = elim (k.time ev) [
  | none ↦ collect_apart window slack k evs out
  | some t ↦ in_window (some t) window slack >>= (λ b.
      (if b && not (any (is_close t) out) then (near_of k ev t >>= (λ n. ok (n ∷ []))) else ok [])
      >>= (λ here. collect_apart window slack k evs (out ++ here)))
]

abbrev pub earlier : Near → Near → Bool
earlier a b = leb (naive a.ts) (naive b.ts)

abbrev pub standby : (Datetime → Datetime → Str) → Kind
standby render = record {
  correlator_id = "power_change";
  time = exit_ts;
  label = λ ev. codes "Modern Standby exit";
  detail = paired_with render;
}

abbrev pub force_reauth : (Value → Str) → Kind
force_reauth shown = record {
  correlator_id = "force_reauth";
  time = ts_of;
  label =
      λ ev. codes "force_reauth (" ++ (attribute_or shown "kind" "force_reauth" ev ++ codes ")");
  detail = no_text;
}

abbrev pub restart : Kind
restart = record {
  correlator_id = "service_lifecycle";
  time = ts_of;
  label = λ ev. codes "ZSAService restart";
  detail = no_text;
}

abbrev pub closed : (Value → Str) → Kind
closed shown = record {
  correlator_id = "mtunnel";
  time = ts_of;
  label = λ ev.
      codes "mtunnel close (" ++ (attribute_or shown "reason" "unknown reason" ev ++ codes ")");
  detail = λ ev t. close_detail shown ev;
}

abbrev pub changed : (Value → Str) → Kind
changed shown = record {
  correlator_id = "auth_state";
  time = ts_of;
  label = λ ev. codes "auth-state: " ++ attribute_or shown "transition" "auth transition" ev;
  detail = no_text;
}

module _ (render : Datetime → Datetime → Str) (shown : Value → Str) where
  unfoldable pub triggers_at :
      Correlators → ℕ → Option (Datetime × Datetime) → Outcome Raised (List Near)
  unfolding exit_ts ts_of collect collect_apart sort_by paired_with attribute_or
  triggers_at cs slack none = ok []
  triggers_at cs slack (some r) =
      collect r slack (standby render) cs.modern_standby_cycles >>= (λ exits.
        collect_apart r slack (force_reauth shown) cs.force_reauth_events exits >>= (λ out.
          collect r slack restart cs.service_starts
          >>= (λ starts. ok (sort_by earlier (out ++ starts)))))

  unfoldable pub get_triggers : Finding → Correlators → ℕ → Outcome Raised (List Near)
  unfolding triggers_at
  get_triggers f cs slack = triggers_at cs slack f.time_range

module _ (shown : Value → Str) where
  unfoldable pub effects_at :
      Correlators → ℕ → Option (Datetime × Datetime) → Outcome Raised (List Near)
  unfolding collect ts_of sort_by close_detail attribute_or
  effects_at cs slack none = ok []
  effects_at cs slack (some r) = collect r slack (closed shown) cs.mtunnel_closes >>= (λ closes.
      collect r slack (changed shown) cs.auth_state_events
      >>= (λ states. ok (sort_by earlier (closes ++ states))))

  unfoldable pub get_effects : Finding → Correlators → ℕ → Outcome Raised (List Near)
  unfolding effects_at
  get_effects f cs slack = effects_at cs slack f.time_range
