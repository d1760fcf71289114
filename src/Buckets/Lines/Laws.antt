-- ===== src/Buckets/Lines/Laws.antt =====
-- Each axis of a line is that of the first rule that declares it and matches.

use zcc_analysis.Common.{
  ◌≡◌, refl, sym, ap, ◌∙◌, Bool, true, false, not, ◌&&◌, Option, none, some, List, [], ◌∷◌, arith,
  if◌then◌else◌, Str, codes, String,
}
use zcc_analysis.Buckets.Rules.{Rule, rules, component_services, component_subsystems}
use zcc_analysis.Buckets.Lines.{
  Via, Class, Axes, is_settled, or_rule, is_done, default_of, decide, try_rules, axes_of,
  classify_line,
}

module _ (search : Str → Str → Bool) where
  -- What the first rule that matches and declares an axis declares.
  abbrev pub first_declared : (Rule → Option String) → List Rule → Str → Option String
  first_declared axis [] body = none
  first_declared axis (r ∷ rest) body =
      if search (codes r.pattern) body
      then or_rule (axis r) (first_declared axis rest body)
      else first_declared axis rest body

  abbrev pub service_in : List Rule → Str → Option String
  service_in rs body = first_declared (λ (r : Rule). r.service) rs body

  abbrev pub subsystem_in : List Rule → Str → Option String
  subsystem_in rs body = first_declared (λ (r : Rule). r.subsystem) rs body

or_rule_assoc : (a b c : Option String) → or_rule (or_rule a b) c ≡ or_rule a (or_rule b c)
unfolding or_rule
or_rule_assoc none b c = refl
or_rule_assoc (some v) b c = refl

or_rule-none : (a : Option String) → or_rule a none ≡ a
unfolding or_rule
or_rule-none none = refl
or_rule-none (some v) = refl

settled-or_rule :
    (a r c : Option String) → is_settled a r ≡ true → or_rule a (or_rule r c) ≡ or_rule a c
unfolding is_settled or_rule
settled-or_rule none none c h = refl
settled-or_rule none (some r) c h = cc
settled-or_rule (some v) r c h = refl

-- Nothing is added to axes that are done.
done-or_rule :
    (s t b c : Option String) → is_done s t ≡ true → (or_rule s b ≡ s) × (or_rule t c ≡ t)
unfolding is_done or_rule
done-or_rule none t b c h = cc
done-or_rule (some s) none b c h = cc
done-or_rule (some s) (some t) b c h = (refl, refl)

-- The cases of a rule.
choose :
    (P : Axes → Type 0) (b c d : Bool) (skipped found taken : Axes)
    → (b ≡ true → P skipped)
    → (c ≡ false → P skipped)
    → (c ≡ true → d ≡ true → P found)
    → (c ≡ true → P taken)
    → P (if b then skipped else if not c then skipped else if d then found else taken)
choose P true c d x y z f g h k = f refl
choose P false false d x y z f g h k = g refl
choose P false true true x y z f g h k = h refl refl
choose P false true false x y z f g h k = k refl

module _ (search : Str → Str → Bool) where
  -- The axes are those that they were, and of the others the first that are declared.
  abbrev IsTried : List Rule → Str → Axes → Axes → Type 0
  IsTried rs body a b =
      (b.service ≡ or_rule a.service (service_in search rs body))
      × (b.subsystem ≡ or_rule a.subsystem (subsystem_in search rs body))

  try_rules-IsTried :
      (rs : List Rule) (body : Str) (a : Axes) → IsTried rs body a (try_rules search rs body a)
  unfolding try_rules
  try_rules-IsTried [] body a = (sym (or_rule-none a.service), sym (or_rule-none a.subsystem))
  try_rules-IsTried (r ∷ rs) body a =
      let found : Axes = record {
        service = or_rule a.service r.service;
        subsystem = or_rule a.subsystem r.subsystem;
      } in
      let skip = try_rules-IsTried rs body a in
      let take_it = try_rules-IsTried rs body found in
      let s = service_in search rs body in
      let t = subsystem_in search rs body in
      let b = is_settled a.service r.service && is_settled a.subsystem r.subsystem in
      let c = search (codes r.pattern) body in
      choose (IsTried (r ∷ rs) body a) b c (is_done found.service found.subsystem)
        (try_rules search rs body a) found (try_rules search rs body found)
        (λ e. settled_skip c r.service r.subsystem a s t (try_rules search rs body a) e skip)
        (λ e. rw e skip)
        (λ e d. rw e (
          sym (done-or_rule found.service found.subsystem s t d).0
              ∙ or_rule_assoc a.service r.service s,
          sym (done-or_rule found.service found.subsystem s t d).1
              ∙ or_rule_assoc a.subsystem r.subsystem t,
        ))
        (λ e. rw e (
          take_it.0 ∙ or_rule_assoc a.service r.service s,
          take_it.1 ∙ or_rule_assoc a.subsystem r.subsystem t,
        ))
    where
      settled_skip :
          (c : Bool) (rs rt : Option String) (a : Axes) (s t : Option String) (b : Axes)
          → (is_settled a.service rs && is_settled a.subsystem rt) ≡ true
          → (b.service ≡ or_rule a.service s) × (b.subsystem ≡ or_rule a.subsystem t)
          → (b.service ≡ or_rule a.service (if c then or_rule rs s else s))
            × (b.subsystem ≡ or_rule a.subsystem (if c then or_rule rt t else t))
      settled_skip true rs rt a s t b e h = (
        h.0 ∙ sym (settled-or_rule a.service rs s (ground (arith, e))),
        h.1 ∙ sym (settled-or_rule a.subsystem rt t (ground (arith, e))),
      )
      settled_skip false rs rt a s t b e h = h

  -- Of a line; an empty text matches no rule.
  abbrev pub declared : (Rule → Option String) → Str → Option String
  declared axis [] = none
  declared axis (c ∷ body) = first_declared search axis rules (c ∷ body)

  -- A line's service is what the first matching rule that declares one declares, else its component's default, else
  -- unknown, and it is marked with which; so is its subsystem, whatever the service is.
  pub classify_line-IsFirst :
      (body component : Str)
      → let c : Class = classify_line search body component in
        let s : Str × Via =
          decide
            (declared (λ (r : Rule). r.service) body)
            (default_of component_services component) in
        let t : Str × Via =
          decide
            (declared (λ (r : Rule). r.subsystem) body)
            (default_of component_subsystems component) in
        (c.service ≡ s.0) × (c.service_via ≡ s.1) × (c.subsystem ≡ t.0) × (c.subsystem_via ≡ t.1)
  unfolding classify_line axes_of or_rule
  classify_line-IsFirst [] component = (refl, refl, refl, refl)
  classify_line-IsFirst (x ∷ body) component =
      let tried =
        try_rules-IsTried rules (x ∷ body) (record { service = none; subsystem = none }) in
      let at_service = ap (λ o. decide o (default_of component_services component)) tried.0 in
      let at_subsystem = ap (λ o. decide o (default_of component_subsystems component)) tried.1 in
      (
        ap (λ p. p.0) at_service,
        ap (λ p. p.1) at_service,
        ap (λ p. p.0) at_subsystem,
        ap (λ p. p.1) at_subsystem,
      )
