-- ===== src/Query/Atoms/Total.antt =====
-- No atom runs the parser out of fuel: the leaves take none.
use zcc_analysis.Common.{
  ◌≢◌, List, [], ◌∷◌, arith, Str, codes, none, some, String, Option-cases, inl, inr,
}
use zcc_analysis.Common.Outcome.{Outcome, raised}
use zcc_analysis.Query.Engine.{Engine, strip}
use zcc_analysis.Query.Node.{Raised, out_of_fuel}
use zcc_analysis.Query.Atoms.{
  compile, first_format, parse_ts, parse_duration, parse_span, parse_around, parse_window,
  parse_time, event_node, err_code_node, code_node, derived_field, parse_field, parse_word,
  parse_atom_token, ts_formats, partition, separators, inner,
}

abbrev Ends {ℓ} : {A : Type ℓ} → Outcome Raised A → Type ℓ
Ends {A} r = ◌≢◌ {A = Outcome Raised A} r (raised out_of_fuel)

module _ (E : Engine) where
  first_format-Ends : (s : Str) (fs : List String) → Ends (first_format E s fs)
  unfolding first_format
  first_format-Ends s [] = ground arith
  first_format-Ends s (f ∷ fs) = ground (arith, first_format-Ends s fs)

  parse_ts-Ends : (s : Str) → Ends (parse_ts E s)
  unfolding parse_ts
  parse_ts-Ends s = first_format-Ends (strip E s) ts_formats

  parse_duration-Ends : (s : Str) → Ends (parse_duration E s)
  unfolding parse_duration
  parse_duration-Ends s = ground arith

  parse_span-Ends : (l r : Str) → Ends (parse_span E l r)
  unfolding parse_span parse_ts
  parse_span-Ends l r = ground (arith, parse_ts-Ends l, parse_ts-Ends r)

  parse_around-Ends : (l r : Str) → Ends (parse_around E l r)
  unfolding parse_around
  parse_around-Ends l r = ground (arith, parse_ts-Ends l, parse_duration-Ends r)

  parse_window-Ends : (val : Str) (seps : List Str) → Ends (parse_window E val seps)
  unfolding parse_window
  parse_window-Ends val [] = ground (arith, parse_ts-Ends val)
  parse_window-Ends val (sep ∷ seps) =
      elim (partition sep val)
        as (λ o. Ends (elim o [
          | none ↦ parse_window E val seps
          | some (left, right) ↦ parse_around E left right
        ])) [
          | none ↦ parse_window-Ends val seps
          | some (left, right) ↦ parse_around-Ends left right
        ]

  parse_time-Ends : (raw : Str) → Ends (parse_time E raw)
  unfolding parse_time
  parse_time-Ends raw =
      elim (partition (codes "..") (strip E raw))
        as (λ o. Ends (elim o [
          | none ↦ parse_window E (strip E raw) separators
          | some (left, right) ↦ parse_span E left right
        ])) [
          | none ↦ parse_window-Ends (strip E raw) separators
          | some (left, right) ↦ parse_span-Ends left right
        ]

  event_node-Ends : (name : Str) → Ends (event_node E name)
  unfolding event_node
  event_node-Ends name = ground arith

  derived_field-Ends : (key val : Str) → Ends (derived_field E key val)
  unfolding derived_field compile err_code_node code_node
  derived_field-Ends key val = ground (arith, parse_time-Ends val, event_node-Ends (strip E val))

  parse_field-Ends : (key raw : Str) → Ends (parse_field E key raw)
  unfolding parse_field
  parse_field-Ends key raw =
      ground (arith, derived_field-Ends key raw, derived_field-Ends key (inner raw))

  parse_word-Ends : (text : Str) → Ends (parse_word E text)
  unfolding parse_word
  parse_word-Ends text = elim (Option-cases (partition (codes ":") text)) [
    | inl e ↦ rw (e, parse_word) (ground arith)
    | inr (([], val), e) ↦ rw (e, parse_word) (ground arith)
    | inr ((k ∷ key, []), e) ↦ rw (e, parse_word) (ground arith)
    | inr ((k ∷ key, v ∷ val), e) ↦
        rw (e, parse_word) (parse_field-Ends (E.lower (k ∷ key)) (v ∷ val))
  ]

  pub parse_atom_token-Ends : (text : Str) → Ends (parse_atom_token E text)
  unfolding parse_atom_token compile
  parse_atom_token-Ends text = ground (arith, parse_word-Ends text)
