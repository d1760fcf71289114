-- ===== src/Buckets/Report/Known.antt =====
-- A line is unknown on an axis exactly where nothing resolved it.

use zcc_analysis.Common.{
  all, ℕ, suc, ◌+◌, ◌≡◌, refl, sym, ap, ◌∙◌, Bool, true, false, not, ◌&&◌, Option, none, some, List,
  [], ◌∷◌, arith, if◌then◌else◌, Str, str_eq, codes, String, total,
}
use zcc_analysis.Buckets.Rules.{Rule, rules, component_services, component_subsystems}
use zcc_analysis.Buckets.Lines.{Via, Class, decide, default_of, classify_line, or_rule}
use zcc_analysis.Buckets.Lines.Laws.{first_declared, declared, classify_line-IsFirst}
use zcc_analysis.Buckets.Report.{Pairs, add_pair, via_name, is_unknown}

abbrev pub pair_count : Pairs → ℕ
pair_count pairs = total (λ (p : (Str × Str) × ℕ). p.1) pairs

pub pair_count-add_pair :
    (pairs : Pairs) (s t : Str) → pair_count (add_pair pairs s t) ≡ suc (pair_count pairs)
unfolding add_pair
pair_count-add_pair [] s t = omega arith
pair_count-add_pair (p ∷ pairs) s t =
    elim (str_eq p.0.0 s && str_eq p.0.1 t)
      as (λ b.
        pair_count (if b then (p.0, p.1 + 1) ∷ pairs else p ∷ add_pair pairs s t)
        ≡ suc (p.1 + pair_count pairs)) [
          | true ↦ omega arith
          | false ↦ omega (arith, pair_count-add_pair pairs s t)
        ]

-- The value unknown is declared by no rule and by no default.
abbrev is_known : Option String → Bool
is_known none = true
is_known (some s) = not (is_unknown (codes s))

first_declared-known :
    (search : Str → Str → Bool) (axis : Rule → Option String) (rs : List Rule) (body : Str)
    → all (λ r. is_known (axis r)) rs ≡ true
    → is_known (first_declared search axis rs body) ≡ true
unfolding or_rule
first_declared-known search axis [] body h = refl
first_declared-known search axis (r ∷ rs) body h =
    let ih = first_declared-known search axis rs body (ground (arith, h)) in
    elim (search (codes r.pattern) body)
      as (λ b.
        is_known (
          if b
          then or_rule (axis r) (first_declared search axis rs body)
          else first_declared search axis rs body)
        ≡ true) [
          | false ↦ ih
          | true ↦ either (axis r) (first_declared search axis rs body) (ground (arith, h)) ih
        ]
  where
    either :
        (a b : Option String)
        → is_known a ≡ true
        → is_known b ≡ true
        → is_known (or_rule a b) ≡ true
    either none b h k = k
    either (some v) b h k = h

declared-known :
    (search : Str → Str → Bool) (axis : Rule → Option String) (body : Str)
    → all (λ r. is_known (axis r)) rules ≡ true
    → is_known (declared search axis body) ≡ true
declared-known search axis [] h = refl
declared-known search axis (c ∷ body) h = first_declared-known search axis rules (c ∷ body) h

default_of-known :
    (defaults : List (String × String)) (component : Str)
    → all (λ (d : String × String). is_known (some d.1)) defaults ≡ true
    → is_known (default_of defaults component) ≡ true
unfolding default_of
default_of-known [] component h = refl
default_of-known (d ∷ defaults) component h =
    elim (str_eq (codes d.0) component)
      as (λ b. is_known (if b then some d.1 else default_of defaults component) ≡ true) [
        | true ↦ ground (arith, h)
        | false ↦ default_of-known defaults component (ground (arith, h))
      ]

abbrev is_open : Via → Bool
is_open v = str_eq (via_name v) (codes "unresolved")

decide-open :
    (o d : Option String)
    → is_known o ≡ true
    → is_known d ≡ true
    → is_unknown (decide o d).0 ≡ is_open (decide o d).1
unfolding decide via_name str_eq
decide-open (some s) d h k = ground (arith, h)
decide-open none (some s) h k = ground (arith, k)
decide-open none none h k = refl

-- A line is unknown on an axis where nothing resolved it.
abbrev pub IsClass : Class → Type 0
IsClass c =
    (is_unknown c.service ≡ is_open c.service_via)
    × (is_unknown c.subsystem ≡ is_open c.subsystem_via)

pub classify_line-IsClass :
    (search : Str → Str → Bool) (body component : Str)
    → IsClass (classify_line search body component)
unfolding str_eq
classify_line-IsClass search body component =
    let facts = classify_line-IsFirst search body component in
    let s = declared search (λ (r : Rule). r.service) body in
    let t = declared search (λ (r : Rule). r.subsystem) body in
    (
      axis_open _ _ s (default_of component_services component) facts.0 facts.1
          (declared-known search (λ (r : Rule). r.service) body refl)
          (default_of-known component_services component refl),
      axis_open _ _ t (default_of component_subsystems component) facts.2 facts.3
          (declared-known search (λ (r : Rule). r.subsystem) body refl)
          (default_of-known component_subsystems component refl),
    )
  where
    axis_open :
        (v : Str) (w : Via) (o d : Option String)
        → v ≡ (decide o d).0
        → w ≡ (decide o d).1
        → is_known o ≡ true
        → is_known d ≡ true
        → is_unknown v ≡ is_open w
    axis_open v w o d e f h k = ap is_unknown e ∙ decide-open o d h k ∙ sym (ap is_open f)
