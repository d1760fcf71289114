-- ===== src/Relations/Near/Collected.antt =====
-- What is collected of the events of a correlator: those with a time in the bounds.

use zcc_analysis.Common.{
  Option-cases, ℕ, ◌≡◌, refl, sym, ap, ◌∙◌, inl, inr, ◌⊎◌, Bool, true, false, ◌&&◌, Option, none,
  some, List, [], ◌∷◌, ◌++◌, append-nil, append_assoc, arith, length, keep, leb, Bool-cases, Str,
  any, codes,
}
use zcc_analysis.Common.Outcome.{Outcome, ok, raised, ◌>>=◌}
use zcc_analysis.Common.Sorting.{IsSortedBy, sort_by, sort_by-IsSortedBy, length-keep-sort_by}
use zcc_analysis.Relations.Events.{
  Datetime, Event, Raised, type_error, source_file_of, line_no_of, naive, widen, in_window,
}
use zcc_analysis.Relations.Near.{
  Near, Kind, near_of, within, collect, is_close, collect_apart, earlier,
}

-- A time in the bounds.
abbrev pub inside : ℕ × ℕ → Option Datetime → Bool
inside b none = false
inside b (some t) = leb b.0 (naive t) && leb (naive t) b.1

-- What is made of an event: its time, in the bounds, its texts, and where it stands in the logs.
pub record IsOf (b : ℕ × ℕ) (k : Kind) (ev : Event) (n : Near) : Type 0 where
  pub at : k.time ev ≡ some n.ts
  pub in_bounds : inside b (some n.ts) ≡ true
  pub label : n.label ≡ k.label ev
  pub detail : k.detail ev n.ts ≡ ok n.detail
  pub source_file : n.source_file ≡ source_file_of ev
  pub line_no : n.line_no ≡ line_no_of ev
  pub correlator_id : n.correlator_id ≡ codes k.correlator_id

-- One element of the second list for each of the first, in the same order.
abbrev pub Pairs : {A B : Type 0} → (A → B → Type 0) → List A → List B → Type 0
Pairs R [] [] = Unit
Pairs R [] (y ∷ ys) = ⊥
Pairs R (x ∷ xs) [] = ⊥
Pairs R (x ∷ xs) (y ∷ ys) = R x y × Pairs R xs ys

-- All events with a time in the bounds, one after the other.
abbrev pub AllIn : ℕ × ℕ → Kind → List Event → List Near → Type 0
AllIn b k evs out = Pairs (IsOf b k) (keep (λ ev. inside b (k.time ev)) evs) out

-- An event in the bounds that has a fault.
abbrev pub faulty_at : ℕ × ℕ → (Event → Datetime → Bool) → Event → Option Datetime → Bool
faulty_at b fault ev none = false
faulty_at b fault ev (some t) = inside b (some t) && fault ev t

abbrev pub faulty : ℕ × ℕ → Kind → (Event → Datetime → Bool) → Event → Bool
faulty b k fault ev = faulty_at b fault ev (k.time ev)

-- The detail of an event raises exactly where it has a fault.
unfoldable pub Faults : Kind → (Event → Datetime → Bool) → Type 0
Faults k fault =
    (ev : Event) (t : Datetime)
    → ((fault ev t ≡ true) × (k.detail ev t ≡ raised type_error))
      ⊎ ((d : Str) × (fault ev t ≡ false) × (k.detail ev t ≡ ok d))

-- All the events, or TypeError because of one.
abbrev pub Collected :
    ℕ × ℕ → Kind → (Event → Datetime → Bool) → List Event → Outcome Raised (List Near) → Type 0
Collected b k fault evs r =
    ((out : List Near) × (r ≡ ok out) × (any (faulty b k fault) evs ≡ false) × AllIn b k evs out)
    ⊎ ((r ≡ raised type_error) × (any (faulty b k fault) evs ≡ true))

-- The new elements that events add to `out`: those that are a second or more from all that stand
-- in the list before them.
pub data Apart (b : ℕ × ℕ) (k : Kind) : List Near → List Event → List Near → Type 0 where
  done : {out : List Near} → Apart b k out [] []
  outside :
      {out : List Near} {ev : Event} {evs : List Event} {new : List Near}
      → inside b (k.time ev) ≡ false
      → Apart b k out evs new
      → Apart b k out (ev ∷ evs) new
  close :
      {out : List Near} {ev : Event} {evs : List Event} {new : List Near} {t : Datetime}
      → k.time ev ≡ some t
      → any (is_close t) out ≡ true
      → Apart b k out evs new
      → Apart b k out (ev ∷ evs) new
  added :
      {out : List Near} {ev : Event} {evs : List Event} {new : List Near} {n : Near}
      → IsOf b k ev n
      → any (is_close n.ts) out ≡ false
      → Apart b k (out ++ n ∷ []) evs new
      → Apart b k out (ev ∷ evs) (n ∷ new)

-- The elements of `xs`, each as often, in the order of time.
abbrev pub IsOrdered : List Near → List Near → Type 0
IsOrdered xs out =
    IsSortedBy earlier out × ((p : Near → Bool) → length (keep p out) ≡ length (keep p xs))

earlier_total : (a c : Near) → earlier a c ≡ false → earlier c a ≡ true
earlier_total a c h = ground (arith, h)

earlier_trans : (a c d : Near) → earlier a c ≡ true → earlier c d ≡ true → earlier a d ≡ true
earlier_trans a c d h k = ground (arith, h, k)

pub sort_by-IsOrdered : (xs : List Near) → IsOrdered xs (sort_by earlier xs)
sort_by-IsOrdered xs = (
  sort_by-IsSortedBy earlier earlier_total earlier_trans xs,
  λ p. length-keep-sort_by earlier p xs,
)

near_of-IsOf :
    (b : ℕ × ℕ) (k : Kind) (ev : Event) (t : Datetime) (d : Str)
    → k.time ev ≡ some t
    → inside b (some t) ≡ true
    → k.detail ev t ≡ ok d
    → (n : Near) × (near_of k ev t ≡ ok n) × IsOf b k ev n × (n.ts ≡ t)
unfolding near_of
near_of-IsOf b k ev t d at h e = (
  record {
    ts = t;
    label = k.label ev;
    detail = d;
    source_file = source_file_of ev;
    line_no = line_no_of ev;
    correlator_id = codes k.correlator_id;
  },
  rw e refl,
  record {
    at = at;
    in_bounds = h;
    label = refl;
    detail = e;
    source_file = refl;
    line_no = refl;
    correlator_id = refl;
  },
  refl,
)

module _ (r : Datetime × Datetime) (slack : ℕ) (b : ℕ × ℕ) (h : widen r slack ≡ ok b)
    (k : Kind) where
  in_window-inside : (t : Datetime) → in_window (some t) r slack ≡ ok (inside b (some t))
  unfolding in_window
  in_window-inside t = rw h refl

  module _ (fault : Event → Datetime → Bool) (faults : Faults k fault) where
    -- One event: it is not in the bounds, something is made of it, or it has a fault.
    within-one :
        (ev : Event) (o : Option Datetime)
        → k.time ev ≡ o
        → ((inside b o ≡ false)
            × (faulty_at b fault ev o ≡ false)
            × (within r slack k ev o ≡ ok []))
          ⊎ ((n : Near) × (inside b o ≡ true)
              × (faulty_at b fault ev o ≡ false)
              × (within r slack k ev o ≡ ok (n ∷ []))
              × IsOf b k ev n)
          ⊎ ((faulty_at b fault ev o ≡ true) × (within r slack k ev o ≡ raised type_error))
    unfolding within near_of Faults
    within-one ev none at = inl (refl, refl, refl)
    within-one ev (some t) at = elim (Bool-cases (inside b (some t))) [
      | inr out ↦ inl (out, rw out refl, rw (in_window-inside t, out) refl)
      | inl hit ↦ inr (elim (faults ev t) [
        | inl f ↦ inr (rw (hit, f.0) refl, rw (in_window-inside t, hit, f.1) refl)
        | inr f ↦
            let made = near_of-IsOf b k ev t f.0 at hit f.2 in
            inl (
              made.0,
              hit,
              rw (hit, f.1) refl,
              rw (in_window-inside t, hit) (ap (λ o. o >>= (λ n. ok (n ∷ []))) made.1),
              made.2,
            )
      ])
    ]

    pub collect-Collected : (evs : List Event) → Collected b k fault evs (collect r slack k evs)
    unfolding collect
    collect-Collected [] = inl ([], refl, refl, tt)
    collect-Collected (ev ∷ evs) = elim (within-one ev (k.time ev) refl) [
      | inr (inr bad) ↦ inr (rw (collect, bad.1) refl, rw bad.0 refl)
      | inl miss ↦ elim (collect-Collected evs) [
        | inl c ↦ inl (c.0, rw (collect, miss.2, c.1) refl, rw miss.1 c.2, rw miss.0 c.3)
        | inr c ↦ inr (rw (collect, miss.2, c.0) refl, rw miss.1 c.1)
      ]
      | inr (inl one) ↦ elim (collect-Collected evs) [
        | inl c ↦
            inl (one.0 ∷ c.0, rw (collect, one.3, c.1) refl, rw one.2 c.2, rw one.1 (one.4, c.3))
        | inr c ↦ inr (rw (collect, one.3, c.0) refl, rw one.2 c.1)
      ]
    ]

  -- The events of a correlator that are added to those before, when no text raises.
  pub collect_apart-Apart :
      ((ev : Event) (t : Datetime) → (d : Str) × (k.detail ev t ≡ ok d))
      → (evs : List Event) (out : List Near)
      → (new : List Near) × (collect_apart r slack k evs out ≡ ok (out ++ new))
        × Apart b k out evs new
  unfolding collect_apart
  collect_apart-Apart plain [] out = ([], ap ok (sym (append-nil out)), Apart.done)
  collect_apart-Apart plain (ev ∷ evs) out = elim (Option-cases (k.time ev)) [
    | inl e ↦
        let rest = collect_apart-Apart plain evs out in
        (rest.0, rw (collect_apart, e) rest.1, Apart.outside (rw e refl) rest.2)
    | inr e ↦ elim (Bool-cases (inside b (some e.0))) [
      | inr o ↦
          let rest = collect_apart-Apart plain evs out in
          (
            rest.0,
            rw (collect_apart, e.1, in_window-inside e.0, o, append-nil out) rest.1,
            Apart.outside (rw e.1 o) rest.2,
          )
      | inl hit ↦ elim (Bool-cases (any (is_close e.0) out)) [
        | inl c ↦
            let rest = collect_apart-Apart plain evs out in
            (
              rest.0,
              rw (collect_apart, e.1, in_window-inside e.0, hit, c, append-nil out) rest.1,
              Apart.close e.1 c rest.2,
            )
        | inr c ↦
            let d = plain ev e.0 in
            let made = near_of-IsOf b k ev e.0 d.0 e.1 hit d.1 in
            let n = made.0 in
            let rest = collect_apart-Apart plain evs (out ++ n ∷ []) in
            (
              n ∷ rest.0,
              rw (collect_apart, e.1, in_window-inside e.0, hit, c, made.1, rest.1)
                  (ap ok (append_assoc out (n ∷ []) rest.0)),
              Apart.added made.2 (rw made.3 c) rest.2,
            )
      ]
    ]
  ]

-- Where texts never raise, all the events are collected.
pub collect_plain :
    (r : Datetime × Datetime) (slack : ℕ) (b : ℕ × ℕ) (h : widen r slack ≡ ok b) (k : Kind)
    → ((ev : Event) (t : Datetime) → (d : Str) × (k.detail ev t ≡ ok d))
    → (evs : List Event) → (out : List Near) × (collect r slack k evs ≡ ok out) × AllIn b k evs out
unfolding Faults
collect_plain r slack b h k plain evs =
    elim (collect-Collected r slack b h k (λ ev t. false)
      (λ ev t. inr ((plain ev t).0, refl, (plain ev t).1)) evs) [
        | inl c ↦ (c.0, c.1, c.3)
        | inr c ↦ absurd (impossible (sym (never evs) ∙ c.1))
      ]
  where
    impossible : false ≡ true → ⊥
    impossible e = cc

    at_none : (ev : Event) (o : Option Datetime) → faulty_at b (λ ev t. false) ev o ≡ false
    at_none ev none = refl
    at_none ev (some t) = ground arith

    never : (xs : List Event) → any (faulty b k (λ ev t. false)) xs ≡ false
    never [] = refl
    never (ev ∷ xs) = rw (at_none ev (k.time ev)) (never xs)
