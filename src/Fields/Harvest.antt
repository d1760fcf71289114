-- ===== src/Fields/Harvest.antt =====
-- `iter_json_objects`, `flatten_json` and `harvest_json`: all objects of a text, flattened and merged.
pub mod Total
pub mod First
use zcc_analysis.Common.{
  ℕ, zero, suc, ◌+◌, ◌-◌, ◌*◌, Bool, true, false, ◌&&◌, ◌||◌, Option, none, some, List, [], ◌∷◌,
  ◌++◌,
}
use zcc_analysis.Common.{Str, str_eq, length, leb, ◌==◌, if◌then◌else◌}
use zcc_analysis.Fields.Json.{
  Library, Json, null, boolean, number, string, array, object, Items, no_items, item, Members,
  no_members, member, append, assign, Scan, scan_object,
}

-- `len(obj)`
unfoldable pub size : Members → ℕ
size no_members = 0
size (member k v ms) = suc (size ms)

-- `obj.get(key)`
unfoldable pub lookup : Str → Members → Option Json
unfolding str_eq
lookup key no_members = none
lookup key (member k v ms) = if str_eq k key then some v else lookup key ms

-- `(offset, object, complete)`
pub record Found : Type 0 where
  pub offset : ℕ
  pub members : Members
  pub complete : Bool

-- `text.find("{", i)`: the offset of a brace, and the text behind it.
unfoldable pub find_open : ℕ → Str → Option (ℕ × Str)
find_open i [] = none
find_open i (c ∷ t) = let on = find_open (i + 1) t in if c == b'{' then some (i, t) else on

-- What `_scan_object` returns.
unfoldable pub members_of : Option Json → Members
members_of (some (object ms)) = ms
members_of _ = no_members

abbrev pub add_found {ℓ} : {A : Type ℓ} → A → Option (List A) → Option (List A)
add_found f none = none
add_found f (some fs) = some (f ∷ fs)

-- An array that is not kept as one value.
unfoldable pub has_nested : Items → Bool
has_nested no_items = false
has_nested (item (object ms) vs) = true
has_nested (item (array ws) vs) = true
has_nested (item _ vs) = has_nested vs

module _ (P : Library) (min_keys : ℕ) where
  -- The loop of `iter_json_objects`, at the offset `i`; `none` for too little fuel.
  unfoldable pub objects_from : ℕ → ℕ → Str → Option (List Found)
  unfolding find_open scan_object size members_of
  objects_from zero i t = none
  objects_from (suc fuel) i t = elim (find_open i t) [
    | none ↦ some []
    | some at ↦ elim (scan_object P at.1) [
      | none ↦ none
      | some s ↦
          let obj = members_of s.value in
          let after = objects_from fuel (at.0 + 1 + (length at.1 - length s.rest)) s.rest in
          let inside = objects_from fuel (at.0 + 1) at.1 in
          if leb min_keys (size obj)
          then add_found (record { offset = at.0; members = obj; complete = s.complete }) after
          else inside
    ]
  ]

  unfoldable pub iter_json_objects : Str → Option (List Found)
  unfolding objects_from
  iter_json_objects text = objects_from (suc (length text)) 0 text

module _ (P : Library) where
  -- `f"{path}[{idx}]"`
  unfoldable pub indexed : Str → ℕ → Str
  indexed path i = path ++ (b'[' ∷ P.show i ++ (b']' ∷ []))

  unfoldable mutual
    unfolding assign has_nested indexed

    pub flatten_json : Members → Str → Members → Members
    flatten_json no_members prefix out = out
    flatten_json (member k v ms) prefix out =
        flatten_json ms prefix (flatten_entry v (prefix ++ k) out)

    pub flatten_entry : Json → Str → Members → Members
    flatten_entry null path out = assign out path null
    flatten_entry (boolean b) path out = assign out path (boolean b)
    flatten_entry (number raw) path out = assign out path (number raw)
    flatten_entry (string s) path out = assign out path (string s)
    flatten_entry (array vs) path out =
        let one_by_one = flatten_items vs path 0 out in
        if has_nested vs then one_by_one else assign out path (array vs)
    flatten_entry (object ms) path out = flatten_json ms (path ++ (b'.' ∷ [])) out

    pub flatten_items : Items → Str → ℕ → Members → Members
    flatten_items no_items path i out = out
    flatten_items (item v vs) path i out = flatten_items vs path (suc i) (flatten_item v path i out)

    pub flatten_item : Json → Str → ℕ → Members → Members
    flatten_item null path i out = assign out (indexed path i) null
    flatten_item (boolean b) path i out = assign out (indexed path i) (boolean b)
    flatten_item (number raw) path i out = assign out (indexed path i) (number raw)
    flatten_item (string s) path i out = assign out (indexed path i) (string s)
    flatten_item (array ws) path i out = assign out (indexed path i) (array ws)
    flatten_item (object ms) path i out = flatten_json ms (indexed path i ++ (b'.' ∷ [])) out

-- `JsonHarvest`; `objects_found` is the length of `objects`.
pub record Harvest : Type 0 where
  pub fields : Members
  pub objects : List Members
  pub collisions : List (Str × Items)
  pub truncated : ℕ

abbrev pub nothing : Harvest
nothing = record { fields = no_members; objects = []; collisions = []; truncated = 0 }

-- `collisions.setdefault(key, [first]).append(val)`
unfoldable pub collide : List (Str × Items) → Str → Json → Json → List (Str × Items)
unfolding append str_eq
collide [] key first v = (key, item first (item v no_items)) ∷ []
collide ((k, vs) ∷ cs) key first v =
    let rest = collide cs key first v in
    if str_eq k key then (k, append vs v) ∷ cs else (k, vs) ∷ rest

module _ (P : Library) where
  -- The loop on `flat.items()`.
  unfoldable pub merge : Members → Harvest → Harvest
  unfolding lookup assign collide
  merge no_members h = h
  merge (member key v ms) h = merge ms (elim (lookup key h.fields) [
    | some w ↦ if P.same w v then h else record h { collisions = collide h.collisions key w v }
    | none ↦ record h { fields = assign h.fields key v }
  ])

  -- One object.
  unfoldable pub take_object : Found → Harvest → Harvest
  unfolding flatten_json merge
  take_object f h =
      let flat = flatten_json P f.members [] no_members in
      merge flat (record h {
        objects = h.objects ++ (flat ∷ []);
        truncated = if f.complete then h.truncated else h.truncated + 1;
      })

  unfoldable pub take_objects : List Found → Harvest → Harvest
  unfolding take_object
  take_objects [] h = h
  take_objects (f ∷ fs) h = take_objects fs (take_object f h)

  -- `none` stands for too little fuel.
  unfoldable pub harvest_json : Str → Option Harvest
  unfolding iter_json_objects take_objects
  harvest_json text = elim (iter_json_objects P 1 text) [
    | none ↦ none
    | some fs ↦ some (take_objects fs nothing)
  ]
