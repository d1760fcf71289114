-- ===== src/Ledger/Store.antt =====
-- What the ledger reads of the store (log_store.py): `_candidate_lines`, `record_text` and
-- `_lifetime_index`. A table is the list of its rows, in the order in which a statement reads them;
-- `like` is SQLite's operator on a pattern and a text.
pub mod Chunks
pub mod Laws
use zcc_analysis.Common.{
  ℕ, zero, suc, ◌+◌, ◌-◌, ◌≤◌, ◌<◌, ◌≡◌, ◌≢◌, refl, sym, ap, subst, ◌∙◌, ◌↔◌, ◌⊎◌, inl, inr, Bool,
  true, false, not, ◌&&◌, ◌||◌, Option, none, some, List, [], ◌∷◌, ◌++◌, map, append-nil,
  append_assoc, arith, length, take, drop, get_elem?, keep, All, All-append, length-append,
  if◌then◌else◌, ltb, leb, ◌==◌, Bool-cases, Str, str_eq, str_eq_iff, codes, any, mem_str,
}
use zcc_analysis.Common.Groups.{Groups, push}
use zcc_analysis.Common.Sorting.{sort_by}
use zcc_analysis.Common.Order.{str_le}
use zcc_analysis.Viewer.Index.{Line}

-- A row of `line_cont`.
pub record Cont : Type 0 where
  pub source_file : Str
  pub line_no : ℕ
  pub cont : Str

-- A row of `line_ids`.
pub record Edge : Type 0 where
  pub source_file : Str
  pub line_no : ℕ
  pub id_type : Str
  pub id_value : Str

pub record Store : Type 0 where
  pub lines : List Line
  pub conts : List Cont
  pub edges : List Edge
  pub ids_indexed : Bool
  pub duplicate_source_files : ℕ

-- A line of a connection.
pub record Mention : Type 0 where
  pub ts : ℕ
  pub source_file : Str
  pub line_no : ℕ
  pub body : Str

abbrev pub Address : Type 0
Address = Str × ℕ

unfoldable pub address_eq : Address → Address → Bool
unfolding str_eq
address_eq a b = str_eq a.0 b.0 && a.1 == b.1

abbrev concat_map : {A B : Type 0} → (A → List B) → List A → List B
concat_map f [] = []
concat_map f (x ∷ xs) = f x ++ concat_map f xs

-- `_CARRIER_LIKES`
abbrev pub carrier_likes : List Str
carrier_likes = codes "%clt_bytes%" ∷ codes "%Connection closed.%" ∷ codes "%destructor!!%" ∷ []

-- `c.source_file = l.source_file AND c.line_no = l.line_no`
unfoldable pub owns : Line → Cont → Bool
unfolding address_eq
owns ln c = address_eq (c.source_file, c.line_no) (ln.source_file, ln.line_no)

abbrev pub selected : (Str → Str → Bool) → Str → Bool
selected like text = any (λ p. like p text) carrier_likes

-- The lines selected by their text, then those selected by a continuation only.
unfoldable pub candidate_lines : (Str → Str → Bool) → Store → List Line
unfolding owns
candidate_lines like store =
    keep (λ ln. selected like ln.body) store.lines
    ++ concat_map
        (λ ln.
          map (λ (c : Cont). ln)
            (keep (λ c. owns ln c && (selected like c.cont && not (selected like ln.body)))
              store.conts))
        store.lines

-- `LogStore.continuation`: the first row of the line, or "".
unfoldable pub continuation : List Cont → Line → Str
unfolding owns
continuation [] ln = []
continuation (c ∷ conts) ln = if owns ln c then c.cont else continuation conts ln

-- `LogStore.record_text`
unfoldable pub record_text : Store → Line → Str
unfolding continuation
record_text store ln = elim ln.source_file [
  | [] ↦ ln.body
  | a ∷ f ↦ elim (continuation store.conts ln) [
    | [] ↦ ln.body
    | c ∷ cont ↦ ln.body ++ b'\n' ∷ c ∷ cont
  ]
]

-- The order of the tuples that `out[v].sort()` compares.
unfoldable pub mention_le : Mention → Mention → Bool
unfolding str_eq str_le
mention_le a b =
    ltb a.ts b.ts
    || a.ts == b.ts
      && (if str_eq a.source_file b.source_file
          then ltb a.line_no b.line_no || a.line_no == b.line_no && str_le a.body b.body
          else str_le a.source_file b.source_file)

abbrev pub mention_of : Line → Mention
mention_of ln = record {
  ts = ln.ts;
  source_file = ln.source_file;
  line_no = ln.line_no;
  body = ln.body;
}

-- The rows of one query: the lines of the edges whose value is in the chunk.
unfoldable pub mentions_of : Store → List Str → List (Str × Mention)
unfolding address_eq mem_str str_eq
mentions_of store chunk =
    concat_map
      (λ e.
        map (λ ln. (e.id_value, mention_of ln))
          (keep (λ (ln : Line). address_eq (ln.source_file, ln.line_no) (e.source_file, e.line_no))
            store.lines))
      (keep (λ (e : Edge). str_eq e.id_type (codes "conn_id") && mem_str e.id_value chunk)
        store.edges)

-- `out[v].append((ts, sf, ln, body))`, row by row.
unfoldable pub append_rows : List (Str × Mention) → Groups Str Mention → Groups Str Mention
unfolding push str_eq
append_rows [] out = out
append_rows (r ∷ rows) out = append_rows rows (push str_eq r.0 r.1 out)

-- The loop over the batches; each takes an identifier or more, so there are no more than identifiers.
unfoldable pub query_batches : ℕ → ℕ → Store → List Str → Groups Str Mention → Groups Str Mention
unfolding mentions_of append_rows
query_batches zero batch store ids out = out
query_batches (suc fuel) batch store [] out = out
query_batches (suc fuel) batch store (v ∷ ids) out =
    query_batches fuel batch store (drop batch (v ∷ ids))
      (append_rows (mentions_of store (take batch (v ∷ ids))) out)

-- `for v in out: out[v].sort()`
abbrev pub sort_values : Groups Str Mention → Groups Str Mention
sort_values [] = []
sort_values (e ∷ out) = (e.0, sort_by mention_le e.1) ∷ sort_values out

unfoldable pub lifetime_index : Store → List Str → Groups Str Mention
unfolding query_batches sort_by mention_le
lifetime_index store ids = sort_values (query_batches (length ids) 400 store ids [])
