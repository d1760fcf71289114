-- ===== src/Fields/Harvest/First.antt =====
-- What the merged fields of a harvest hold.
use zcc_analysis.Common.{
  ◌≡◌, refl, sym, ap, arith, Bool, true, false, Option, none, some, List, [], ◌∷◌, if◌then◌else◌,
  Str, str_eq, eq_of_str_eq, ◌⊎◌, ◌∙◌, Bool-cases, inl, inr,
}
use zcc_analysis.Fields.Json.{Library, Json, Members, no_members, member, assign}
use zcc_analysis.Fields.Harvest.{
  lookup, collide, Found, flatten_json, Harvest, nothing, merge, take_object, take_objects,
  iter_json_objects, harvest_json,
}

abbrev pub or_else {ℓ} : {A : Type ℓ} → Option A → Option A → Option A
or_else (some a) o = some a
or_else none o = o

or_else-none {ℓ} : {A : Type ℓ} (a : Option A) → or_else a none ≡ a
or_else-none none = refl
or_else-none (some x) = refl

or_else_assoc {ℓ} :
    {A : Type ℓ} (a b c : Option A) → or_else (or_else a b) c ≡ or_else a (or_else b c)
or_else_assoc none b c = refl
or_else_assoc (some x) b c = refl

lookup-assign :
    (ms : Members) (key k : Str) (v : Json)
    → lookup key ms ≡ none
    → lookup k (assign ms key v) ≡ or_else (lookup k ms) (if str_eq key k then some v else none)
unfolding assign lookup
lookup-assign no_members key k v h = refl
lookup-assign (member j w ms) key k v h = ground (arith, lookup-assign ms key k v)

module _ (P : Library) where
  -- The first of the objects that has a key gives its value.
  abbrev pub first_value : Str → List Found → Option Json
  first_value key [] = none
  first_value key (f ∷ fs) =
      or_else (lookup key (flatten_json P f.members [] no_members)) (first_value key fs)

  lookup-merge :
      (flat : Members) (h : Harvest) (k : Str)
      → lookup k (merge P flat h).fields ≡ or_else (lookup k h.fields) (lookup k flat)
  unfolding merge lookup
  lookup-merge no_members h k = sym (or_else-none (lookup k h.fields))
  lookup-merge (member key v ms) h k = at_key (lookup key h.fields) refl (λ g. lookup-merge ms g k)
    where
      at_key :
          (o : Option Json)
          → lookup key h.fields ≡ o
          → ((g : Harvest)
              → lookup k (merge P ms g).fields ≡ or_else (lookup k g.fields) (lookup k ms))
          → lookup k
              (merge P ms (elim o [
                | some w ↦
                    if P.same w v then h else record h { collisions = collide h.collisions key w v }
                | none ↦ record h { fields = assign h.fields key v }
              ])).fields
            ≡ or_else (lookup k h.fields) (lookup k (member key v ms))
      at_key none e calls =
          rw
            (
              calls (record h { fields = assign h.fields key v }),
              lookup-assign h.fields key k v e,
              or_else_assoc (lookup k h.fields) (if str_eq key k then some v else none)
                  (lookup k ms),
            )
            (ap (or_else (lookup k h.fields)) (added (str_eq key k)))
        where
          added :
              (b : Bool)
              → or_else (if b then some v else none) (lookup k ms)
                ≡ (if b then some v else lookup k ms)
          added true = refl
          added false = refl
      at_key (some w) e calls = unchanged (P.same w v) ∙ kept (Bool-cases (str_eq key k))
        where
          unchanged :
              (b : Bool)
              → lookup k
                  (merge P ms (
                    if b then h else record h { collisions = collide h.collisions key w v })).fields
                ≡ or_else (lookup k h.fields) (lookup k ms)
          unchanged true = calls h
          unchanged false = calls (record h { collisions = collide h.collisions key w v })

          kept :
              (str_eq key k ≡ true) ⊎ (str_eq key k ≡ false)
              → or_else (lookup k h.fields) (lookup k ms)
                ≡ or_else (lookup k h.fields) (lookup k (member key v ms))
          kept (inl same) =
              let there : lookup k h.fields ≡ some w = rw (sym (eq_of_str_eq key k same)) e in
              rw there refl
          kept (inr other) = rw other refl

  lookup-take_object :
      (f : Found) (h : Harvest) (k : Str)
      → lookup k (take_object P f h).fields
        ≡ or_else (lookup k h.fields) (lookup k (flatten_json P f.members [] no_members))
  unfolding take_object
  lookup-take_object f h k = lookup-merge (flatten_json P f.members [] no_members) _ k

  lookup-take_objects :
      (fs : List Found) (h : Harvest) (k : Str)
      → lookup k (take_objects P fs h).fields ≡ or_else (lookup k h.fields) (first_value k fs)
  unfolding take_objects
  lookup-take_objects [] h k = sym (or_else-none (lookup k h.fields))
  lookup-take_objects (f ∷ fs) h k =
      rw
        (
          lookup-take_objects fs (take_object P f h) k,
          lookup-take_object f h k,
          or_else_assoc (lookup k h.fields) (lookup k (flatten_json P f.members [] no_members))
              (first_value k fs),
        )
        refl

  -- A field of the harvest is the value that the first object with that
  -- flattened key gives it, whatever later objects say; a key of none of the
  -- objects is not a field.
  pub harvest_json-first :
      (text : Str) (fs : List Found)
      → iter_json_objects P 1 text ≡ some fs
      → (h : Harvest) × (harvest_json P text ≡ some h)
        × ((key : Str) → lookup key h.fields ≡ first_value key fs)
  unfolding harvest_json
  harvest_json-first text fs e =
      rw (harvest_json, e)
        (take_objects P fs nothing, refl, λ key. lookup-take_objects fs nothing key)
