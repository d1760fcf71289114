-- ===== src/Catalog.antt =====
-- zcc_diag/error_catalog.py: the entries of the catalogs of documented codes, and the search in them. The tables
-- of zcc_diag/data are arguments.
pub mod Laws
use zcc_analysis.Common.{
  ℕ, zero, suc, ◌+◌, ◌-◌, ◌≤◌, ◌<◌, ◌≡◌, ◌≢◌, refl, sym, ap, subst, ◌∙◌, ◌↔◌, ◌⊎◌, inl, inr, Bool,
  true, false, not, ◌&&◌, ◌||◌, Option, none, some, List, [], ◌∷◌, ◌++◌, map, append-nil,
  append_assoc, arith, length, take, drop, get_elem?, keep, All, All-append, length-append,
  if◌then◌else◌, ltb, leb, ◌==◌, Bool-cases, Str, str_eq, str_eq_iff, codes, any, mem_str, contains,
}
use zcc_analysis.Packet.Text.{decimal}

-- `_Source`, its table left to an argument.
pub record Source : Type 0 where
  pub module_name : Str
  pub product : Str
  pub family : Str
  pub code_fields : List Str
  pub label_fields : List Str
  pub description_fields : List Str
  pub resolution_fields : List Str
  pub component_fields : List Str
  pub source_url : Str

-- `CatalogEntry`, without the row and the module that it is made of.
pub record Entry : Type 0 where
  pub catalog_id : Str
  pub product : Str
  pub family : Str
  pub code : Str
  pub aliases : List Str
  pub label : Str
  pub description : Str
  pub resolution : Str
  pub severity : Str
  pub category : Str
  pub component : Str
  pub source_url : Str

pub data Reason : Type 0 where
  exact_code : Reason
  substring_code : Reason
  body_substring : Reason

-- `dict.fromkeys`, of the texts that are not empty, after those seen.
unfoldable pub from_keys : List Str → List Str → List Str
unfolding mem_str
from_keys seen [] = []
from_keys seen ([] ∷ xs) = from_keys seen xs
from_keys seen ((c ∷ s) ∷ xs) =
    let skipped = from_keys seen xs in
    let taken = from_keys ((c ∷ s) ∷ seen) xs in
    if mem_str (c ∷ s) seen then skipped else (c ∷ s) ∷ taken

-- `code.replace("_", " ")`
unfoldable pub spaced : Str → Str
spaced [] = []
spaced (c ∷ s) = (if c == b'_' then b' ' else c) ∷ spaced s

-- `s or t`
unfoldable pub or_else : Str → Str → Str
or_else [] t = t
or_else (c ∷ s) t = c ∷ s

-- `"\n".join(texts)`
unfoldable pub join_lines : List Str → Str
join_lines [] = []
join_lines (s ∷ []) = s
join_lines (s ∷ t ∷ texts) = s ++ b'\n' ∷ join_lines (t ∷ texts)

-- Cells and texts of Python: `str` of a cell, whether it is None or "", whether it is true.
pub record Python (V : Type 0) : Type 0 where
  pub str : V → Str
  pub is_blank : V → Bool
  pub is_true : V → Bool
  pub strip : Str → Str
  pub lower : Str → Str
  pub title : Str → Str
  pub casefold : Str → Str

module _ {V : Type 0} (py : Python V) where
  -- `row.get(name, "")` as a stripped text.
  abbrev pub cell : (Str → Option V) → Str → Str
  cell row name = elim (row name) [ none ↦ py.strip [] | some v ↦ py.strip (py.str v) ]

  -- `_first`
  unfoldable pub first : (Str → Option V) → List Str → Str
  first row [] = []
  first row (name ∷ names) =
      let rest = first row names in
      elim (row name) [ none ↦ rest | some v ↦ if py.is_blank v then rest else py.strip (py.str v) ]

  -- `row.get(name) or …`, as a text.
  unfoldable pub first_true : (Str → Option V) → List Str → Str → Str
  first_true row [] otherwise = otherwise
  first_true row (name ∷ names) otherwise =
      let rest = first_true row names otherwise in
      elim (row name) [ none ↦ rest | some v ↦ if py.is_true v then py.str v else rest ]

  unfoldable pub entry_of : Source → ℕ → (Str → Option V) → List Str → Str → Entry
  unfolding first first_true spaced or_else decimal
  entry_of s n row aliases code = record {
    catalog_id = s.module_name ++ b':' ∷ decimal n;
    product = s.product;
    family = s.family;
    code = code;
    aliases = aliases;
    label = or_else (first row s.label_fields) (py.title (spaced code));
    description = first row s.description_fields;
    resolution = first row s.resolution_fields;
    severity = py.lower (first_true row (codes "severity_hint" ∷ []) (codes "info"));
    category = py.strip (first_true row (codes "category" ∷ codes "group" ∷ []) []);
    component = first row s.component_fields;
    source_url = s.source_url;
  }

  -- The rows of a source, numbered from `n` on; one without a code is passed over.
  unfoldable pub entries_of : Source → ℕ → List (Str → Option V) → List Entry
  unfolding entry_of from_keys
  entries_of s n [] = []
  entries_of s n (row ∷ rows) =
      let rest = entries_of s (suc n) rows in
      let aliases = from_keys [] (map (cell row) s.code_fields) in
      elim aliases [ [] ↦ rest | code ∷ more ↦ entry_of s n row (code ∷ more) code ∷ rest ]

  unfoldable pub catalog_entries : List (Source × List (Str → Option V)) → List Entry
  unfolding entries_of
  catalog_entries [] = []
  catalog_entries (s ∷ sources) = entries_of s.0 1 s.1 ++ catalog_entries sources

  -- How an entry matches a query that is stripped and folded.
  unfoldable pub reason_of : Str → Entry → Option Reason
  unfolding mem_str contains join_lines
  reason_of q e =
      let aliases = map py.casefold e.aliases in
      let body =
        join_lines (e.label ∷ e.description ∷ e.resolution ∷ e.category ∷ e.component ∷ []) in
      if mem_str q aliases
      then some exact_code
      else if any (contains q) aliases
      then some substring_code
      else if contains q (py.casefold body)
      then some body_substring
      else none

-- The three lists of the loop.
pub record Sifted : Type 0 where
  pub exact : List (Entry × Reason)
  pub partial : List (Entry × Reason)
  pub body : List (Entry × Reason)

unfoldable pub sift_one : Entry → Option Reason → Sifted → Sifted
sift_one e none s = s
sift_one e (some exact_code) s = record s { exact = (e, exact_code) ∷ s.exact }
sift_one e (some substring_code) s = record s { partial = (e, substring_code) ∷ s.partial }
sift_one e (some body_substring) s = record s { body = (e, body_substring) ∷ s.body }

module _ {V : Type 0} (py : Python V) where
  -- The loop, from its last entry to its first.
  unfoldable pub sift : Str → List Entry → Sifted
  unfolding sift_one reason_of
  sift q [] = record { exact = []; partial = []; body = [] }
  sift q (e ∷ entries) = sift_one e (reason_of py q e) (sift q entries)

  abbrev pub ranked : Str → List Entry → List (Entry × Reason)
  ranked q entries = (sift q entries).exact ++ ((sift q entries).partial ++ (sift q entries).body)

  unfoldable pub limited : Option ℕ → List (Entry × Reason) → List (Entry × Reason)
  limited none results = results
  limited (some n) results = take n results

  -- Of a query that is folded.
  unfoldable pub results_of : Str → Option ℕ → List Entry → List (Entry × Reason)
  unfolding sift limited
  results_of [] limit entries = []
  results_of (c ∷ q) limit entries = limited limit (ranked (c ∷ q) entries)

  unfoldable pub lookup_entries : Str → Option ℕ → List Entry → List (Entry × Reason)
  unfolding results_of
  lookup_entries query limit entries = results_of (py.casefold (py.strip query)) limit entries
