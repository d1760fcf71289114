-- ===== src/Query/Atoms/Time.antt =====
-- The time filters: every range is ordered.
use zcc_analysis.Common.{ℕ, ◌≤◌, ◌≡◌, refl, arith, List, [], ◌∷◌, Str, codes, none, some}
use zcc_analysis.Common.{Bool, true, false, ltb, if◌then◌else◌}
use zcc_analysis.Common.Outcome.{Outcome, ok, raised, ◌>>=◌}
use zcc_analysis.Query.Engine.{Engine, strip}
use zcc_analysis.Query.Node.{Node, Raised, time_range}
use zcc_analysis.Query.Atoms.{
  parse_ts, parse_duration, parse_span, minus, plus, parse_around, parse_window, parse_time,
  partition, separators, second,
}

-- What is returned is a range of times in order.
pub data IsRange : Outcome Raised Node → Type 0 where
  range : (start end : ℕ) → start ≤ end → IsRange (ok (time_range start end))
  failed : (e : Raised) → IsRange (raised e)

IsRange-bind :
    (r : Outcome Raised ℕ) (f : ℕ → Outcome Raised Node)
    → ((t : ℕ) → r ≡ ok t → IsRange (f t))
    → IsRange (r >>= f)
IsRange-bind (ok t) f h = h t refl
IsRange-bind (raised e) f h = failed e

minus-le : (t d r : ℕ) → minus t d ≡ ok r → r ≤ t
unfolding minus
minus-le t d r h = ground arith

le-plus : (t d r : ℕ) → plus t d ≡ ok r → t ≤ r
unfolding plus
le-plus t d r h = ground arith

module _ (E : Engine) where
  parse_span-IsRange : (l r : Str) → IsRange (parse_span E l r)
  unfolding parse_span
  parse_span-IsRange l r =
      IsRange-bind (parse_ts E l) _
        λ s _. IsRange-bind (parse_ts E r) _ λ e _. ordered s e (ltb e s) refl
    where
      ordered :
          (s e : ℕ) (b : Bool)
          → ltb e s ≡ b
          → IsRange (ok (if b then time_range e s else time_range s e))
      ordered s e true h = range e s (ground arith)
      ordered s e false h = range s e (ground arith)

  parse_around-IsRange : (l r : Str) → IsRange (parse_around E l r)
  unfolding parse_around
  parse_around-IsRange l r = IsRange-bind (parse_ts E l) _ λ c _.
      IsRange-bind (parse_duration E r) _ λ d _. IsRange-bind (minus c d) _ λ a ha.
        IsRange-bind (plus c d) _
          λ b hb. range a b (omega (arith, minus-le c d a ha, le-plus c d b hb))

  parse_window-IsRange : (val : Str) (seps : List Str) → IsRange (parse_window E val seps)
  unfolding parse_window
  parse_window-IsRange val [] =
      IsRange-bind (parse_ts E val) _
        λ c _. IsRange-bind (plus c second) _ λ b hb. range c b (le-plus c second b hb)
  parse_window-IsRange val (sep ∷ seps) =
      elim (partition sep val)
        as (λ o. IsRange (elim o [
          | none ↦ parse_window E val seps
          | some (left, right) ↦ parse_around E left right
        ])) [
          | none ↦ parse_window-IsRange val seps
          | some (left, right) ↦ parse_around-IsRange left right
        ]

  -- Whatever the text of a `time:` filter, its two bounds in either order and the window around a
  -- centre included, the range that comes back has its start at or before its end.
  pub parse_time-IsRange : (raw : Str) → IsRange (parse_time E raw)
  unfolding parse_time
  parse_time-IsRange raw =
      elim (partition (codes "..") (strip E raw))
        as (λ o. IsRange (elim o [
          | none ↦ parse_window E (strip E raw) separators
          | some (left, right) ↦ parse_span E left right
        ])) [
          | none ↦ parse_window-IsRange (strip E raw) separators
          | some (left, right) ↦ parse_span-IsRange left right
        ]
