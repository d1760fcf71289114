-- ===== src/Tests/Catalog.antt =====
-- A catalog of four rows, one of them without a code.

use zcc_analysis.Common.{
  ◌≡◌, refl, Option, none, some, List, [], ◌∷◌, map, arith, length, take, keep, All, if◌then◌else◌,
  ltb, ◌==◌, Str, str_eq, codes, String,
}
use zcc_analysis.Common.Sorting.{IsSortedBy}
use zcc_analysis.Catalog.{Source, Entry, Reason, Python, catalog_entries, lookup_entries}
use zcc_analysis.Catalog.Laws.{before, is_match, IsReason, lookup_entries-IsRanked}

abbrev py : Python Str
py = record {
  str = λ v. v;
  is_blank = λ v. length v == 0;
  is_true = λ v. ltb 0 (length v);
  strip = λ s. s;
  lower = λ s. s;
  title = λ s. s;
  casefold = λ s. s;
}

abbrev row : String → String → Str → Option Str
row code label name =
    if str_eq name (codes "code")
    then some (codes code)
    else if str_eq name (codes "label")
    then some (codes label)
    else none

abbrev source : Source
source = record {
  module_name = codes "m";
  product = codes "ZPA";
  family = codes "ZPA";
  code_fields = codes "code" ∷ [];
  label_fields = codes "label" ∷ [];
  description_fields = [];
  resolution_fields = [];
  component_fields = [];
  source_url = [];
}

abbrev entries : List Entry
entries =
    catalog_entries py
      ((source, row "E_7" "" ∷ row "" "no code" ∷ row "77" "x" ∷ row "7" "y" ∷ []) ∷ [])

codes_of_entries : map (λ (e : Entry). e.code) entries ≡ codes "E_7" ∷ codes "77" ∷ codes "7" ∷ []
unfolding catalog_entries str_eq
codes_of_entries = refl

labels_of_entries : map (λ (e : Entry). e.label) entries ≡ codes "E 7" ∷ codes "x" ∷ codes "y" ∷ []
unfolding catalog_entries str_eq
labels_of_entries = refl

found_codes :
    map (λ (r : Entry × Reason). r.0.code) (lookup_entries py (codes "7") none entries)
    ≡ codes "7" ∷ codes "E_7" ∷ codes "77" ∷ []
unfolding lookup_entries catalog_entries str_eq
found_codes = refl

lookup_entries-IsRanked_example :
    let q : Str = codes "7" in
    let results : List (Entry × Reason) = lookup_entries py q none entries in
    (length (keep (λ (r : Entry × Reason). str_eq r.0.code q) results)
      ≡ length (keep (λ e. str_eq e.code q) (keep (is_match py q) entries)))
    × All (IsReason py q) results
    × IsSortedBy before results
    × (lookup_entries py q (some 1) entries ≡ take 1 results)
lookup_entries-IsRanked_example =
    lookup_entries-IsRanked py (codes "7") 1 entries (λ e. str_eq e.code (codes "7")) (omega arith)
