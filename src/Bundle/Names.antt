-- ===== src/Bundle/Names.antt =====
-- `_is_symlink` and `_safe_target`: which members of an archive may be written, and where.
pub mod Lexical
use zcc_analysis.Common.{ℕ, ◌/◌, ◌%◌, ◌^◌, Bool, true, false, not, ◌||◌, Option, none, some}
use zcc_analysis.Common.{List, [], ◌∷◌, Str, codes, str_eq, any, leb, ◌==◌, if◌then◌else◌}

-- The reasons that `_safe_target` returns.
pub data Reject : Type 0 where
  empty_name absolute_path drive_letter null_byte path_traversal zip_slip : Reject

abbrev pub slash : ℕ
slash = b'/'

abbrev pub backslash : ℕ
backslash = 92

-- A character that separates components, after `name.replace("\\", "/")`.
unfoldable pub is_separator : ℕ → Bool
is_separator c = c == slash || c == backslash

-- The first component of `s.split("/")`, and the rest of the components behind it.
abbrev pub extend : ℕ → List Str → List Str
extend c [] = (c ∷ []) ∷ []
extend c (p ∷ ps) = (c ∷ p) ∷ ps

-- `name.replace("\\", "/").split("/")`
unfoldable pub components : Str → List Str
unfolding is_separator
components [] = [] ∷ []
components (c ∷ s) = let rest = components s in if is_separator c then [] ∷ rest else extend c rest

abbrev pub dot_dot : Str
dot_dot = codes ".."

unfoldable pub has_null : Str → Bool
has_null [] = false
has_null (c ∷ s) = c == 0 || has_null s

unfoldable pub starts_absolute : Str → Bool
unfolding is_separator
starts_absolute [] = false
starts_absolute (c ∷ s) = is_separator c

-- `len(name) >= 2 and name[1] == ":"`
unfoldable pub has_drive : Str → Bool
has_drive [] = false
has_drive (c ∷ []) = false
has_drive (c ∷ d ∷ s) = d == b':'

unfoldable pub is_empty : Str → Bool
is_empty [] = true
is_empty (c ∷ s) = false

-- `any(p == ".." for p in parts)`
unfoldable pub has_dot_dot : List Str → Bool
unfolding str_eq
has_dot_dot ps = any (λ p. str_eq p dot_dot) ps

-- `inside` says whether `(root / name).resolve()` lies under `root.resolve()` on the file system.
unfoldable pub safe_target : (Str → Str → Bool) → Str → Str → Option Reject
unfolding is_empty starts_absolute has_drive has_null has_dot_dot components
safe_target inside root name =
    if is_empty name
    then some empty_name
    else if starts_absolute name
    then some absolute_path
    else if has_drive name
    then some drive_letter
    else if has_null name
    then some null_byte
    else if has_dot_dot (components name)
    then some path_traversal
    else if inside root name
    then none
    else some zip_slip

-- A member made on Unix whose mode is that of a link: `stat.S_ISLNK((attr >> 16) & 0xFFFF)`.
unfoldable pub is_symlink : ℕ → ℕ → Bool
is_symlink create_system external_attr =
    if create_system == 3 then (external_attr / 2 ^ 16 % 2 ^ 16) / 2 ^ 12 % 2 ^ 4 == 10 else false
