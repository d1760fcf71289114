-- ===== src/Fields/Json.antt =====
-- `_skip_ws`, `_scan_string`, `_scan_value`, `_scan_array` and `_scan_object`. A position in the text is
-- what is left of the text from there. What Python's library does is a parameter.
pub mod Total
use zcc_analysis.Common.{
  ℕ, zero, suc, ◌+◌, Bool, true, false, ◌&&◌, ◌||◌, Option, none, some, List, [], ◌∷◌, ◌++◌,
}
use zcc_analysis.Common.{
  Str, codes, str_eq, starts_with, any, drop, length, ◌*◌, ltb, ◌==◌, if◌then◌else◌,
}

-- The values; a number is kept as the text that `int` or `float` reads.
mutual
  pub data Json : Type 0 where
    null : Json
    boolean : Bool → Json
    number : Str → Json
    string : Str → Json
    array : Items → Json
    object : Members → Json

  pub data Items : Type 0 where
    no_items : Items
    item : Json → Items → Items

  pub data Members : Type 0 where
    no_members : Members
    member : Str → Json → Members → Members

-- What the scanner calls in Python's library.
pub record Library : Type 0 where
  -- `chr(int(digits, 16))`, `none` for a ValueError
  pub chr16 : Str → Option ℕ
  -- `_RE_JSON_NUM.match`: the matched text and what follows it
  pub number : Str → Option (Str × Str)
  -- `str(n)`
  pub show : ℕ → Str
  -- `==` on two values
  pub same : Json → Json → Bool

unfoldable pub append : Items → Json → Items
append no_items v = item v no_items
append (item w vs) v = item w (append vs v)

-- `out[key] = val`
unfoldable pub assign : Members → Str → Json → Members
unfolding str_eq
assign no_members key v = member key v no_members
assign (member k w ms) key v =
    let rest = assign ms key v in if str_eq k key then member k v ms else member k w rest

unfoldable pub is_ws : ℕ → Bool
is_ws c = c == 32 || (c == 9 || (c == 13 || c == 10))

unfoldable pub skip_ws : Str → Str
unfolding is_ws
skip_ws [] = []
skip_ws (c ∷ t) = let rest = skip_ws t in if is_ws c then rest else c ∷ t

-- `_ESCAPES.get(esc, esc)`
unfoldable pub escape : ℕ → ℕ
escape e =
    if e == b'b'
    then 8
    else if e == b'f'
    then 12
    else if e == b'n'
    then 10
    else if e == b'r'
    then 13
    else if e == b't'
    then 9
    else e

-- `(value, next_i, complete)`, of a string.
abbrev pub Scanned : Type 0
Scanned = Str × Str × Bool

abbrev pub push : ℕ → Scanned → Scanned
push c s = (c ∷ s.0, s.1, s.2)

-- A character that is the escape, the closing quote, or the string's.
abbrev pub at_char : ℕ → Str → Scanned → Scanned → Scanned
at_char c t next escaped =
    if c == b'\\' then escaped else if c == b'"' then ([], t, true) else push c next

module _ (P : Library) where
  -- The loop of `_scan_string`.
  unfoldable pub string_from : Str → Scanned
  unfolding escape
  string_from [] = ([], [], false)
  string_from (c ∷ []) = at_char c [] ([], [], false) ([], [], false)
  string_from (c ∷ e ∷ a ∷ b ∷ d ∷ f ∷ t) =
      let long = string_from t in
      let short = push (escape e) (string_from (a ∷ b ∷ d ∷ f ∷ t)) in
      let next = string_from (e ∷ a ∷ b ∷ d ∷ f ∷ t) in
      let unicode : Scanned = elim (P.chr16 (a ∷ b ∷ d ∷ f ∷ [])) [
        | some x ↦ push x long
        | none ↦ short
      ] in
      at_char c (e ∷ a ∷ b ∷ d ∷ f ∷ t) next (if e == b'u' then unicode else short)
  string_from (c ∷ e ∷ t) =
      let short = push (escape e) (string_from t) in
      let next = string_from (e ∷ t) in at_char c (e ∷ t) next short

-- `(value, next_i, complete)`; `none` is `_MISSING`.
pub record Scan : Type 0 where
  pub value : Option Json
  pub rest : Str
  pub complete : Bool

-- Which function runs, with its depth: `_scan_value`, or the loop of `_scan_array` or `_scan_object` with
-- what it has collected.
pub data Job : Type 0 where
  value : ℕ → Job
  array_loop : ℕ → Items → Job
  object_loop : ℕ → Members → Job

abbrev pub max_depth : ℕ
max_depth = 40

abbrev pub scanned : Option Json → Str → Bool → Option Scan
scanned v t ok = some (record { value = v; rest = t; complete = ok })

abbrev pub collect : Items → Option Json → Items
collect out none = out
collect out (some v) = append out v

abbrev pub collect_at : Members → Str → Option Json → Members
collect_at out key none = out
collect_at out key (some v) = assign out key v

-- Goes on after a value when that value was complete, and stops with what there is when it was not.
abbrev pub go_on :
    Option Scan → (Option Json → Json) → (Option Json → Str → Option Scan) → Option Scan
go_on none kept more = none
go_on (some s) kept more =
    if s.complete then more s.value s.rest else scanned (some (kept s.value)) s.rest false

module _ (P : Library) where
  -- The literals and the numbers.
  unfoldable pub scalar : Str → Option Scan
  unfolding starts_with
  scalar t =
      if starts_with t (codes "true")
      then scanned (some (boolean true)) (drop 4 t) true
      else if starts_with t (codes "false")
      then scanned (some (boolean false)) (drop 5 t) true
      else if starts_with t (codes "null")
      then scanned (some null) (drop 4 t) true
      else elim (P.number t) [
        | none ↦ scanned none t false
        | some m ↦ scanned (some (number m.0)) m.1 (elim m.1 [ [] ↦ false | c ∷ u ↦ true ])
      ]

  unfoldable pub scan : ℕ → Job → Str → Option Scan
  unfolding skip_ws string_from scalar append assign
  scan zero job t0 = none
  scan (suc fuel) (value depth) t0 = elim (skip_ws t0) [
    | [] ↦ scanned none [] false
    | c ∷ t ↦
        let members = scan fuel (object_loop depth no_members) t in
        let items = scan fuel (array_loop depth no_items) t in
        let text = string_from P t in
        if ltb max_depth depth
        then scanned none (c ∷ t) false
        else if c == b'"'
        then scanned (some (string text.0)) text.1 text.2
        else if c == b'{'
        then members
        else if c == b'['
        then items
        else scalar (c ∷ t)
  ]
  scan (suc fuel) (array_loop depth out) t0 = elim (skip_ws t0) [
    | [] ↦ scanned (some (array out)) [] false
    | c ∷ t ↦
        let later = scan fuel (array_loop depth out) t in
        let next =
          go_on (scan fuel (value (suc depth)) (c ∷ t)) (λ v. array (collect out v))
            (λ v rest. scan fuel (array_loop depth (collect out v)) rest) in
        if c == b']' then scanned (some (array out)) t true else if c == b',' then later else next
  ]
  scan (suc fuel) (object_loop depth out) t0 = elim (skip_ws t0) [
    | [] ↦ scanned (some (object out)) [] false
    | c ∷ t ↦
        let later = scan fuel (object_loop depth out) t in
        let key = string_from P t in
        let stop = λ (r : Str). scanned (some (object out)) r false in
        let next : Option Scan = elim (skip_ws key.1) [
          | [] ↦ stop []
          | d ∷ u ↦
              let entry =
                go_on (scan fuel (value (suc depth)) u) (λ v. object (collect_at out key.0 v))
                  (λ v rest. scan fuel (object_loop depth (collect_at out key.0 v)) rest) in
              if d == b':' then entry else stop (d ∷ u)
        ] in
        if c == b'}'
        then scanned (some (object out)) t true
        else if c == b','
        then later
        else if c == b'"'
        then (if key.2 then next else stop key.1)
        else stop (c ∷ t)
  ]

  -- `_scan_object`, from behind the brace.
  unfoldable pub scan_object : Str → Option Scan
  unfolding scan
  scan_object t = scan (suc (suc (length t * 2))) (object_loop 0 no_members) t
