-- ===== src/Workspaces/Paths.antt =====
-- backend/src/spidey/workspaces/domain/paths.py: which paths may name a file of a workspace. A
-- `PurePosixPath` is the list of its parts; it drops empty segments and the segment `.`.
pub mod Containment
use Prim.Native.Char.{Char, code}
use Prim.Native.String.{◌++◌ as append}
use spidey.Base.{
  ℕ, zero, suc, String, Bool, true, false, not, ◌&&◌, ◌||◌, List, [], ◌∷◌, ◌==◌, if◌then◌else◌,
  keep, is_empty, is_space, str_eq, str_truthy, str_strip,
}

-- `PathPolicyError` with its text, or the path.
pub data Normalized : Type 0 where
  violation : String → Normalized
  relative : List String → Normalized

-- `chr(c) in s`
abbrev pub has_code : ℕ → String → Bool
has_code c String.[] = false
has_code c (String.◌∷◌ d s) = code d == c || has_code c s

abbrev pub slash : Char
slash = "/"

-- `raw.replace("\\", "/")`
abbrev pub unify : String → String
unify String.[] = String.[]
unify (String.◌∷◌ c s) = String.◌∷◌ (if code c == 92 then slash else c) (unify s)

-- `len(s) >= 2 and s[1] == ":"`
abbrev pub is_drive : String → Bool
is_drive (String.◌∷◌ c (String.◌∷◌ d s)) = code d == 58
is_drive _ = false

abbrev pub starts_slash : String → Bool
starts_slash String.[] = false
starts_slash (String.◌∷◌ c s) = code c == 47

abbrev pub extend : Char → List String → List String
extend c [] = String.◌∷◌ c String.[] ∷ []
extend c (p ∷ ps) = String.◌∷◌ c p ∷ ps

-- The segments between the slashes.
abbrev pub segments : String → List String
segments String.[] = String.[] ∷ []
segments (String.◌∷◌ c s) = let r = segments s in if code c == 47 then String.[] ∷ r else extend c r

abbrev pub is_part : String → Bool
is_part p = str_truthy p && not (str_eq p ".")

-- `PurePosixPath(s).parts` of a path that does not begin with a slash.
abbrev pub parts : String → List String
parts s = keep is_part (segments s)

abbrev pub has_parent : List String → Bool
has_parent [] = false
has_parent (p ∷ ps) = str_eq p ".." || has_parent ps

abbrev pub cleaned : List String → Normalized
cleaned [] = violation "path resolves to the workspace root"
cleaned (p ∷ ps) = relative (p ∷ ps)

unfoldable pub normalize_relative_path : String → Normalized
normalize_relative_path raw =
    let unified = unify raw in
    if not (str_truthy raw) || not (str_truthy (str_strip is_space raw))
    then violation "path must not be empty"
    else if has_code 0 raw
    then violation "path must not contain a NUL byte"
    else if is_drive unified
    then violation "drive-qualified paths are not permitted"
    else if starts_slash unified
    then violation "absolute paths are not permitted"
    else if has_parent (parts unified)
    then violation "parent-directory traversal is not permitted"
    else cleaned (keep is_part (parts unified))
