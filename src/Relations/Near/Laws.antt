-- ===== src/Relations/Near/Laws.antt =====
-- Co-occurrence: the findings beside a finding, and that being beside goes both ways.

use zcc_analysis.Common.{
  Option-cases, ℕ, zero, suc, ◌+◌, ◌-◌, ◌≤◌, ◌≡◌, refl, sym, ap, subst, ◌∙◌, inl, inr, Bool, true,
  false, not, ◌&&◌, Option, none, some, List, [], ◌∷◌, arith, keep, leb, if◌then◌else◌, Str, str_eq,
  str_eq_iff, ◌*◌,
}
use zcc_analysis.Common.Outcome.{Outcome, ok, raised, ◌>>=◌}
use zcc_analysis.Query.Atoms.{minus, plus, second}
use zcc_analysis.Relations.Events.{Datetime, Finding, Raised, naive, moved, widen, finding_id}
use zcc_analysis.Relations.Near.{overlaps, co_occurring, co_occurring_at, get_co_occurring}

-- The bounds of a window, when they are times.
IsWidened : Datetime × Datetime → ℕ → ℕ × ℕ → Type 0
IsWidened r slack b =
    (slack * second ≤ naive r.0)
    × (b.0 ≡ naive r.0 - slack * second)
    × (b.1 ≡ naive r.1 + slack * second)

ok-injective : (a b : ℕ × ℕ) → ◌≡◌ {A = Outcome Raised (ℕ × ℕ)} (ok a) (ok b) → a ≡ b
ok-injective a b h = cc

bind-ok :
    (x y : Outcome Raised ℕ) (b : ℕ × ℕ)
    → (x >>= (λ start. y >>= (λ stop. ok (start, stop)))) ≡ ok b
    → (x ≡ ok b.0) × (y ≡ ok b.1)
bind-ok (raised e) y b h = cc
bind-ok (ok s) (raised e) b h = cc
bind-ok (ok s) (ok t) b h =
    let e : (s, t) ≡ b = ok-injective (s, t) b h in (λ i. ok ((e i).0), λ i. ok ((e i).1))

minus-ok : (t d n : ℕ) → moved (minus t d) ≡ ok n → (d ≤ t) × (n ≡ t - d)
unfolding minus moved
minus-ok t d n h = ground (arith, h)

plus-ok : (t d n : ℕ) → moved (plus t d) ≡ ok n → n ≡ t + d
unfolding plus moved
plus-ok t d n h = ground (arith, h)

widen-IsWidened :
    (r : Datetime × Datetime) (slack : ℕ) (b : ℕ × ℕ) → widen r slack ≡ ok b → IsWidened r slack b
unfolding widen IsWidened
widen-IsWidened r zero b h =
    let e : (naive r.0, naive r.1) ≡ b = ok-injective (naive r.0, naive r.1) b h in
    omega (arith, ap (λ p. p.0) e, ap (λ p. p.1) e)
widen-IsWidened r (suc slack) b h =
    let parts =
      bind-ok (moved (minus (naive r.0) (suc slack * second)))
        (moved (plus (naive r.1) (suc slack * second))) b h in
    let low = minus-ok (naive r.0) (suc slack * second) b.0 parts.0 in
    (low.0, low.1, plus-ok (naive r.1) (suc slack * second) b.1 parts.1)

-- A finding is beside another: both have times, one's start is at most the slack behind the other's
-- end, both ways round, and their identifiers differ.
module _ (isoformat : Datetime → Str) (slack : ℕ) where
  abbrev pub near_times : Option (Datetime × Datetime) → Option (Datetime × Datetime) → Bool
  near_times none s = false
  near_times (some r) none = false
  near_times (some r) (some s) =
      leb (naive s.0) (naive r.1 + slack * second) && leb (naive r.0) (naive s.1 + slack * second)

  abbrev pub is_beside : Finding → Finding → Bool
  is_beside f g =
      not (str_eq (finding_id isoformat g) (finding_id isoformat f))
      && near_times f.time_range g.time_range

  near_times_symm : (r s : Option (Datetime × Datetime)) → near_times r s ≡ near_times s r
  near_times_symm none none = refl
  near_times_symm none (some s) = refl
  near_times_symm (some r) none = refl
  near_times_symm (some r) (some s) = ground arith

  is_beside_symm : (f g : Finding) → is_beside f g ≡ is_beside g f
  is_beside_symm f g = ground (
    arith,
    near_times_symm f.time_range g.time_range,
    str_eq_iff (finding_id isoformat g) (finding_id isoformat f),
    str_eq_iff (finding_id isoformat f) (finding_id isoformat g),
  )

  not_beside_itself : (f : Finding) → is_beside f f ≡ false
  not_beside_itself f =
      ground (arith, (str_eq_iff (finding_id isoformat f) (finding_id isoformat f)).1 refl)

  -- The findings of a list that may hold other things.
  abbrev pub findings : List (Option Finding) → List Finding
  findings [] = []
  findings (none ∷ fs) = findings fs
  findings (some f ∷ fs) = f ∷ findings fs

  overlaps-near_times :
      (r : Datetime × Datetime) (b : ℕ × ℕ) (g : Finding)
      → IsWidened r slack b
      → overlaps b g ≡ near_times (some r) g.time_range
  unfolding overlaps IsWidened
  overlaps-near_times r b g w = elim (Option-cases g.time_range) [
    | inl e ↦ rw e refl
    | inr e ↦ rw e.1 (ground (arith, w))
  ]

  picked :
      (same near : Bool) (g : Finding) (rest : List Finding)
      → (if same then rest else if near then g ∷ rest else rest)
        ≡ (if not same && near then g ∷ rest else rest)
  picked true near g rest = refl
  picked false near g rest = refl

  co_occurring-keep :
      (f : Finding) (r : Datetime × Datetime) (b : ℕ × ℕ) (fs : List (Option Finding))
      → f.time_range ≡ some r
      → IsWidened r slack b
      → co_occurring isoformat (finding_id isoformat f) b fs ≡ keep (is_beside f) (findings fs)
  unfolding co_occurring
  co_occurring-keep f r b [] e w = refl
  co_occurring-keep f r b (none ∷ fs) e w = co_occurring-keep f r b fs e w
  co_occurring-keep f r b (some g ∷ fs) e w =
      let near : overlaps b g ≡ near_times f.time_range g.time_range =
        overlaps-near_times r b g w ∙ ap (λ o. near_times o g.time_range) (sym e) in
      rw (co_occurring-keep f r b fs e w, near)
        (picked (str_eq (finding_id isoformat g) (finding_id isoformat f))
          (near_times f.time_range g.time_range) g (keep (is_beside f) (findings fs)))

  keep-none : (f : Finding) (fs : List Finding) → f.time_range ≡ none → keep (is_beside f) fs ≡ []
  keep-none f [] e = refl
  keep-none f (g ∷ fs) e =
      let no : is_beside f g ≡ false = rw e (ground arith) in rw (no, keep-none f fs e) refl

  -- What a bind that returns was given.
  unwrap :
      {A B : Type 0} (w : Outcome Raised A) (f : A → B) (y : B)
      → (w >>= (λ a. ok (f a))) ≡ ok y
      → (a : A) × (w ≡ ok a) × (f a ≡ y)
  unwrap (raised e) f y h = cc
  unwrap (ok a) f y h = (a, refl, cc)

  ok_list :
      (xs ys : List Finding) → ◌≡◌ {A = Outcome Raised (List Finding)} (ok xs) (ok ys) → xs ≡ ys
  ok_list xs ys h = cc

  -- When the call returns, it gives the findings of the list that are beside the given one, each as
  -- often and in the same order as the list has them. To be beside goes both ways, and no finding
  -- is beside itself.
  pub get_co_occurring-AreBeside :
      (f : Finding) (all_findings : List (Option Finding)) (xs : List Finding)
      → get_co_occurring isoformat f all_findings slack ≡ ok xs
      → (xs ≡ keep (is_beside f) (findings all_findings))
        × ((g : Finding) → is_beside f g ≡ is_beside g f)
        × (is_beside f f ≡ false)
  unfolding get_co_occurring co_occurring_at
  get_co_occurring-AreBeside f fs xs h = elim (Option-cases f.time_range) [
    | inl e ↦
        let at_none : co_occurring_at isoformat f fs slack none ≡ ok xs =
          subst (λ o. co_occurring_at isoformat f fs slack o ≡ ok xs) e h in
        (
          sym (ok_list [] xs at_none) ∙ sym (keep-none f (findings fs) e),
          is_beside_symm f,
          not_beside_itself f,
        )
    | inr e ↦
        let at_r : co_occurring_at isoformat f fs slack (some e.0) ≡ ok xs =
          subst (λ o. co_occurring_at isoformat f fs slack o ≡ ok xs) e.1 h in
        let parts =
          unwrap (widen e.0 slack) (λ b. co_occurring isoformat (finding_id isoformat f) b fs) xs
            at_r in
        (
          sym parts.2
              ∙ co_occurring-keep f e.0 parts.0 fs e.1 (widen-IsWidened e.0 slack parts.0 parts.1),
          is_beside_symm f,
          not_beside_itself f,
        )
  ]
