-- ===== src/Workspaces/Edits.antt =====
-- backend/src/spidey/workspaces/application/edits.py, over the `SafeFileSystem` port of
-- backend/src/spidey/workspaces/domain/ports.py. `difflib`, the secret scan and the texts of its findings
-- are parameters; the file system of a workspace is too.
pub mod Applied
use Prim.Native.Char.{Char}
use Prim.Native.String.{◌++◌ as append}
use spidey.Base.{
  ℕ, zero, suc, ◌+◌, ◌-◌, String, Bool, true, false, not, Option, none, some, List, [], ◌∷◌, ◌==◌,
  ltb, if◌then◌else◌, is_empty, starts_with, str_concat, str_eq, str_join, str_len, str_of_ℕ,
  str_take, str_truthy, split_lines,
}
use spidey.Base.Action.{Action, Result, ok, err, pure, raise, gets, ◌>>=◌, ◌>>◌}
use spidey.Platform.Errors.{Error}

-- What an operation raises, beside the errors of the platform: `PathPolicyError` and
-- `UnicodeDecodeError`.
pub data Fault : Type 0 where
  policy undecodable : Fault
  other : Error → Fault

pub data Read (A : Type 0) : Type 0 where
  value : A → Read A
  fault : Fault → Read A

-- `SafeFileSystem`: a write answers the new state, or faults and leaves what it leaves.
pub record SafeFileSystem : Type 1 where
  pub State : Type 0
  pub exists : String → State → Read Bool
  pub is_file : String → State → Read Bool
  pub size : String → State → Read ℕ
  pub read_text : String → State → Read String
  pub write_text : (path content : String) → State → Option Fault × State

-- `EditOutcome`
pub data EditOutcome : Type 0 where
  applied : (diff : String) → EditOutcome
  impossible : (error : String) → EditOutcome
  refused : (denied : String) → EditOutcome

pub record Screens (Finding : Type 0) : Type 0 where
  pub unified_diff : (path before after : String) → String
  pub scan_for_secrets : String → List Finding
  pub describe_findings : List Finding → String

abbrev pub max_read_chars : ℕ
max_read_chars = 100_000

abbrev pub max_edit_bytes : ℕ
max_edit_bytes = 1_000_000

-- `s[n:]`
abbrev pub str_drop : ℕ → String → String
str_drop zero s = s
str_drop (suc n) String.[] = String.[]
str_drop (suc n) (String.◌∷◌ c s) = str_drop n s

-- `s.count(old)` of a text that is not empty: `skip` code points are part of the last occurrence.
abbrev pub occurrences : (old : String) (skip : ℕ) → String → ℕ
occurrences old skip String.[] = 0
occurrences old zero (String.◌∷◌ c s) =
    let found = starts_with old (String.◌∷◌ c s) in
    (if found then 1 else 0) + occurrences old (if found then str_len old - 1 else 0) s
occurrences old (suc skip) (String.◌∷◌ c s) = occurrences old skip s

-- `s.replace(old, new, 1)`
abbrev pub replace_first : (old new : String) → String → String
replace_first old new String.[] = String.[]
replace_first old new (String.◌∷◌ c s) =
    let rest = replace_first old new s in
    if starts_with old (String.◌∷◌ c s)
    then append new (str_drop (str_len old) (String.◌∷◌ c s))
    else String.◌∷◌ c rest

-- `_resolve`: the contents before and after, or why there are none.
pub data Resolved : Type 0 where
  contents : (before after : String) → Resolved
  cannot : (error : String) → Resolved

abbrev pub count_error : ℕ → String
count_error n =
    str_concat ("old_string occurs " ∷ str_of_ℕ n ∷ " times; provide a unique match" ∷ [])

abbrev pub unique_match : (old new before : String) → ℕ → Resolved
unique_match old new before zero = cannot "old_string not found in file"
unique_match old new before (suc zero) = contents before (replace_first old new before)
unique_match old new before (suc (suc n)) = cannot (count_error (suc (suc n)))

-- `f"{index:>6}\t{line}"`
abbrev pub spaces : ℕ → String
spaces zero = String.[]
spaces (suc n) = String.◌∷◌ " " (spaces n)

abbrev pub number_lines : ℕ → List String → List String
number_lines index [] = []
number_lines index (line ∷ lines) =
    let digits = str_of_ℕ index in
    str_concat (spaces (6 - str_len digits) ∷ digits ∷ "\t" ∷ line ∷ [])
    ∷ number_lines (index + 1) lines

module _ (fs : SafeFileSystem) where
  open fs use {State, exists, is_file, size, read_text, write_text}

  abbrev pub numbered : Read String → Read (Option String)
  numbered (fault f) = fault f
  numbered (value t) =
      value (some (str_join "\n" (number_lines 1 (split_lines (str_take max_read_chars t)))))

  abbrev pub number_file : (path : String) → Read Bool → State → Read (Option String)
  number_file path (fault f) s = fault f
  number_file path (value false) s = value none
  number_file path (value true) s = numbered (read_text path s)

  unfoldable pub read_numbered : (path : String) → State → Read (Option String)
  read_numbered path s = number_file path (is_file path s) s

  abbrev pub match_text : (old new : String) → Read String → Read Resolved
  match_text old new (fault f) = fault f
  match_text old new (value before) = value (unique_match old new before (occurrences old 0 before))

  abbrev pub check_size : (path old new : String) → Read ℕ → State → Read Resolved
  check_size path old new (fault f) s = fault f
  check_size path old new (value n) s =
      if ltb max_edit_bytes n
      then value (cannot "file too large to edit")
      else match_text old new (read_text path s)

  abbrev pub replace_in : (path old new : String) → Read Bool → State → Read Resolved
  replace_in path old new (fault f) s = fault f
  replace_in path old new (value false) s = value (cannot (append "no such file: " path))
  replace_in path old new (value true) s = check_size path old new (size path s) s

  abbrev pub create_in : (path new : String) → Read Bool → Read Resolved
  create_in path new (fault f) = fault f
  create_in path new (value true) =
      value (cannot (append path " already exists; pass old_string to edit it"))
  create_in path new (value false) = value (contents "" new)

  -- `_resolve` and `_resolve_replacement`
  unfoldable pub resolve : (path old new : String) → State → Read Resolved
  resolve path old new s =
      if not (str_truthy old)
      then create_in path new (exists path s)
      else replace_in path old new (is_file path s) s

  module _ {Finding : Type 0} (S : Screens Finding) where
    abbrev pub written : (diff : String) → Option Fault × State → Read EditOutcome × State
    written diff (none, s) = (value (applied diff), s)
    written diff (some f, s) = (fault f, s)

    abbrev pub commit_edit : (path before after : String) → State → Read EditOutcome × State
    commit_edit path before after s =
        let diff = S.unified_diff path before after in
        let findings = S.scan_for_secrets diff in
        if not (is_empty findings)
        then (value (refused (S.describe_findings findings)), s)
        else written diff (write_text path after s)

    abbrev pub apply_resolved : (path : String) → Read Resolved → State → Read EditOutcome × State
    apply_resolved path (fault f) s = (fault f, s)
    apply_resolved path (value (cannot e)) s = (value (impossible e), s)
    apply_resolved path (value (contents before after)) s = commit_edit path before after s

    unfoldable pub apply_exact_edit :
        (path old_string new_string : String) → State → Read EditOutcome × State
    apply_exact_edit path old new s = apply_resolved path (resolve path old new s) s
