-- ===== src/Checks/Workspaces.antt =====
-- The paths and edits of backend/src/spidey/workspaces on a workspace of one file.
use spidey.Base.{
  str_of_ℕ, str_eq, ℕ, ◌==◌, List, ◌≡◌, refl, String, Bool, true, false, Option, none, some, [],
  ◌∷◌, ◌++◌, if◌then◌else◌, str_len, str_contains, str_strip, is_empty, All,
}
use spidey.Workspaces.Paths.{relative, violation, normalize_relative_path}
use spidey.Workspaces.Paths.Containment.{
  IsName, resolve_parts, normalize_relative_path-Names, normalize_relative_path_drive,
}
use spidey.Workspaces.Edits.{
  Read, value, fault, policy, SafeFileSystem, applied, impossible, refused, Screens, resolve,
  apply_exact_edit,
}
use spidey.Identity.Roles.{Role}
use spidey.Agents.Tools.{ToolContext, success, denied_result}
use spidey.Agents.CodeEdit.{CodeEdit, Files, invoke, edit, specs, read_spec, read_tool, edit_tool}
use spidey.Agents.CodeEdit.Touching.{Touch, invoke-Touch, invoke-specs}
use spidey.Workspaces.Edits.Applied.{IsEdit, apply_exact_edit-IsEdit}

backslashes : normalize_relative_path "src\\.//a.py" ≡ relative ("src" ∷ "a.py" ∷ [])
unfolding normalize_relative_path str_strip
backslashes = refl

drive_refused : normalize_relative_path "C:/x" ≡ violation "drive-qualified paths are not permitted"
unfolding normalize_relative_path str_strip
drive_refused = refl

normalize_relative_path-Names_example :
    All IsName ("src" ∷ "a.py" ∷ [])
    × (resolve_parts ("ws" ∷ []) ("src" ∷ "a.py" ∷ []) ≡ ("ws" ∷ []) ++ ("src" ∷ "a.py" ∷ []))
    × (is_empty {A = String} ("src" ∷ "a.py" ∷ []) ≡ false)
normalize_relative_path-Names_example =
    normalize_relative_path-Names "src\\.//a.py" ("ws" ∷ []) ("src" ∷ "a.py" ∷ []) backslashes

normalize_relative_path_drive_example :
    normalize_relative_path "./C:/x" ≡ relative ("C:" ∷ "x" ∷ [])
normalize_relative_path_drive_example =
    normalize_relative_path_drive "C:/x" "C:" ("x" ∷ []) drive_refused refl refl

-- The contents of `a.py`, if it is there.
abbrev read_some : Option String → Read String
read_some none = fault policy
read_some (some t) = value t

abbrev is_there : Option String → Bool
is_there none = false
is_there (some t) = true

abbrev size_some : Option String → Read ℕ
size_some none = fault policy
size_some (some t) = value (str_len t)

abbrev one_file : SafeFileSystem
one_file = record {
  State = Option String;
  exists = λ path s. value (is_there s);
  is_file = λ path s. value (is_there s);
  size = λ path s. size_some s;
  read_text = λ path s. read_some s;
  write_text = λ path content s. (none, some content);
}

abbrev screens : Screens String
screens = record {
  unified_diff = λ path before after. after;
  scan_for_secrets = λ d. if str_contains "sk-" d then "key" ∷ [] else [];
  describe_findings = λ fs. "key on line 1";
}

apply_exact_edit-IsEdit_example :
    IsEdit one_file "a.py" "x" "y" screens
      (some "a x b")
      (apply_exact_edit one_file screens "a.py" "x" "y" (some "a x b"))
apply_exact_edit-IsEdit_example =
    apply_exact_edit-IsEdit one_file "a.py" "x" "y" screens (some "a x b")

edit_applied :
    apply_exact_edit one_file screens "a.py" "x" "y" (some "a x b")
    ≡ (value (applied "a y b"), some "a y b")
unfolding apply_exact_edit resolve
edit_applied = refl

edit_ambiguous :
    apply_exact_edit one_file screens "a.py" "x" "y" (some "x x")
    ≡ (value (impossible "old_string occurs 2 times; provide a unique match"), some "x x")
unfolding apply_exact_edit resolve str_of_ℕ
edit_ambiguous = refl

-- The occurrences are counted apart, so one of two that overlap is replaced.
edit_overlapping :
    apply_exact_edit one_file screens "a.py" "aba" "y" (some "ababa")
    ≡ (value (applied "yba"), some "yba")
unfolding apply_exact_edit resolve
edit_overlapping = refl

edit_secret :
    apply_exact_edit one_file screens "a.py" "x" "sk-1" (some "x")
    ≡ (value (refused "key on line 1"), some "x")
unfolding apply_exact_edit resolve
edit_secret = refl

edit_created :
    apply_exact_edit one_file screens "a.py" "" "new" none ≡ (value (applied "new"), some "new")
unfolding apply_exact_edit resolve
edit_created = refl

abbrev field : String → List (String × String) → Option String
field key [] = none
field key ((k, v) ∷ rest) = let below = field key rest in if str_eq k key then some v else below

abbrev tools : CodeEdit
tools = record {
  Json = List (String × String);
  get_str = λ key arguments. field key arguments;
  read_schema = [];
  edit_schema = [];
  repr = λ s. s;
  fs = one_file;
  Finding = String;
  screens = screens;
}

abbrev in_workspace : ToolContext
in_workspace = record {
  actor_user_id = 7;
  role = Role.developer;
  run_id = some 1;
  session_id = none;
  workspace_id = some 3;
  trace_id = none;
  span_id = none;
}

abbrev an_edit : String → List (String × String)
an_edit path = ("path", path) ∷ ("old_string", "x") ∷ ("new_string", "y") ∷ []

abbrev two_files : Files tools
two_files w = if w == 3 then some "a x b" else some "x"

edit_touches :
    (invoke tools edit_tool (an_edit "a.py") in_workspace two_files).0
    ≡ value (success "a y b" false)
unfolding invoke edit apply_exact_edit resolve normalize_relative_path str_strip
edit_touches = refl

edit_escapes :
    (invoke tools edit_tool (an_edit "..\\a.py") in_workspace two_files).0
    ≡ value (denied_result "path escapes the workspace root")
unfolding invoke edit apply_exact_edit resolve normalize_relative_path str_strip
edit_escapes = refl

invoke-Touch_example :
    Touch tools edit_tool
      (an_edit "a.py")
      in_workspace
      two_files
      (invoke tools edit_tool (an_edit "a.py") in_workspace two_files)
invoke-Touch_example = invoke-Touch tools edit_tool (an_edit "a.py") in_workspace two_files

invoke-specs_example :
    (invoke tools read_tool (an_edit "a.py") in_workspace two_files).1 3 ≡ some "a x b"
unfolding specs
invoke-specs_example =
    invoke-specs tools 0 {spec = read_spec tools} (an_edit "a.py") in_workspace two_files 3 refl
      refl
