-- ===== src/Buckets/Lines.antt =====
-- `classify_line` and `line_shape`.
pub mod Laws
use zcc_analysis.Common.{
  ℕ, zero, suc, ◌+◌, ◌-◌, ◌≤◌, ◌<◌, ◌≡◌, ◌≢◌, refl, sym, ap, subst, ◌∙◌, ◌↔◌, ◌⊎◌, inl, inr, Bool,
  true, false, not, ◌&&◌, ◌||◌, Option, none, some, List, [], ◌∷◌, ◌++◌, map, append-nil,
  append_assoc, arith, length, take, drop, get_elem?, keep, All, All-append, length-append,
  if◌then◌else◌, ltb, leb, ◌==◌, Bool-cases, Str, str_eq, str_eq_iff, codes, String,
}
use zcc_analysis.Buckets.Rules.{Rule, rules, component_services, component_subsystems, shape_subs}

-- How an axis was decided.
pub data Via : Type 0 where
  by_rule : Via
  by_component : Via
  unresolved : Via

-- What `classify_line` returns.
pub record Class : Type 0 where
  pub service : Str
  pub subsystem : Str
  pub service_via : Via
  pub subsystem_via : Via

-- The axes while the rules are tried.
pub record Axes : Type 0 where
  pub service : Option String
  pub subsystem : Option String

-- `value is not None or rule_value is None`
unfoldable pub is_settled : Option String → Option String → Bool
is_settled none none = true
is_settled none (some r) = false
is_settled (some v) r = true

-- `if value is None and rule_value is not None: value = rule_value`
unfoldable pub or_rule : Option String → Option String → Option String
or_rule none r = r
or_rule (some v) r = some v

unfoldable pub is_done : Option String → Option String → Bool
is_done none t = false
is_done (some s) none = false
is_done (some s) (some t) = true

-- `COMPONENT_DEFAULT.get(component)`
unfoldable pub default_of : List (String × String) → Str → Option String
unfolding str_eq
default_of [] component = none
default_of ((k, v) ∷ defaults) component =
    if str_eq (codes k) component then some v else default_of defaults component

-- An axis after the rules, with its default.
unfoldable pub decide : Option String → Option String → Str × Via
decide (some s) fallback = (codes s, by_rule)
decide none (some s) = (codes s, by_component)
decide none none = (codes "unknown", unresolved)

-- `search pattern body` is `re.search`, ignoring case.
module _ (search : Str → Str → Bool) where
  -- The loop over the rules.
  unfoldable pub try_rules : List Rule → Str → Axes → Axes
  unfolding is_settled or_rule is_done
  try_rules [] body a = a
  try_rules (r ∷ rest) body a =
      let found : Axes = record {
        service = or_rule a.service r.service;
        subsystem = or_rule a.subsystem r.subsystem;
      } in
      let skipped = try_rules rest body a in
      let taken = try_rules rest body found in
      if is_settled a.service r.service && is_settled a.subsystem r.subsystem
      then skipped
      else if not (search (codes r.pattern) body)
      then skipped
      else if is_done found.service found.subsystem
      then found
      else taken

  unfoldable pub axes_of : Str → Axes
  unfolding try_rules
  axes_of [] = record { service = none; subsystem = none }
  axes_of (c ∷ body) = try_rules rules (c ∷ body) (record { service = none; subsystem = none })

  unfoldable pub classify_line : Str → Str → Class
  unfolding axes_of decide default_of
  classify_line body component =
      let a = axes_of body in
      let s = decide a.service (default_of component_services component) in
      let t = decide a.subsystem (default_of component_subsystems component) in
      record { service = s.0; subsystem = t.0; service_via = s.1; subsystem_via = t.1 }

-- `sub pattern text by` is `re.sub`, and `strip` is `str.strip`.
module _ (sub : Str → Str → Str → Str) (strip : Str → Str) where
  -- The loop over the substitutions.
  unfoldable pub substitute : List (String × String) → Str → Str
  substitute [] s = s
  substitute ((pattern, by) ∷ subs) s = substitute subs (sub (codes pattern) (codes by) s)

  unfoldable pub line_shape : Str → Str
  unfolding substitute
  line_shape [] = []
  line_shape (c ∷ body) =
      take 120 (strip (sub (codes "\\s+") (codes " ") (substitute shape_subs (strip (c ∷ body)))))
