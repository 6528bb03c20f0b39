-- ===== src/Agents/CodeEdit.antt =====
-- backend/src/spidey/agents/infrastructure/code_edit.py: the tools that read and edit the files of a
-- workspace. Parameters: the JSON documents with `arguments.get` and `isinstance`, the file systems of
-- the workspaces, what the edits take, and `repr`. The state holds every workspace's file system.
pub mod Touching
use Prim.Native.String.{◌++◌ as append}
use spidey.Base.{
  ℕ, String, Bool, true, false, not, ◌&&◌, Option, none, some, List, [], ◌∷◌, ◌==◌, if◌then◌else◌,
  str_eq, str_concat,
}
use spidey.Identity.Roles.{Role}
use spidey.Agents.Tools.{
  SideEffect, TrustTier, ToolSpec, ToolContext, ToolResult, success, denied_result,
  unavailable_result, error_result,
}
use spidey.Workspaces.Paths.{Normalized, violation, relative, normalize_relative_path}
use spidey.Workspaces.Edits.{
  Fault, policy, undecodable, other, Read, value, fault, SafeFileSystem, EditOutcome, applied,
  impossible, refused, Screens, read_numbered, apply_exact_edit,
}

abbrev pub read_tool : String
read_tool = "workspace.read_file"

abbrev pub edit_tool : String
edit_tool = "workspace.apply_edit"

pub record CodeEdit : Type 1 where
  pub Json : Type 0
  -- `arguments.get(key)`, if it is a text
  pub get_str : (key : String) → Json → Option String
  pub read_schema : Json
  pub edit_schema : Json
  pub repr : String → String
  pub fs : SafeFileSystem
  pub Finding : Type 0
  pub screens : Screens Finding

module _ (ce : CodeEdit) where
  open ce use {Json, get_str, read_schema, edit_schema, repr, fs, screens}

  abbrev pub Files : Type 0
  Files = ℕ → fs.State

  abbrev pub put_files : ℕ → fs.State → Files → Files
  put_files workspace s files w = if w == workspace then s else files w

  abbrev pub read_spec : ToolSpec Json
  read_spec = record {
    name = read_tool;
    version = 1;
    description =
        "Read one file from the current workspace (UTF-8, line-numbered). Paths are workspace-relative.";
    input_schema = read_schema;
    side_effect = SideEffect.read;
    trust_tier = TrustTier.trusted;
    required_role = Role.viewer;
    timeout_seconds = 30_000;
    cost_hint = none;
  }

  abbrev pub edit_spec : ToolSpec Json
  edit_spec = record {
    name = edit_tool;
    version = 1;
    description =
        "Apply one exact-match edit to a workspace file: replace old_string (must occur exactly once) with new_string, or create a new file when old_string is empty. Returns the unified diff. Requires human approval.";
    input_schema = edit_schema;
    side_effect = SideEffect.write;
    trust_tier = TrustTier.trusted;
    required_role = Role.developer;
    timeout_seconds = 30_000;
    cost_hint = none;
  }

  unfoldable pub specs : List (ToolSpec Json)
  specs = read_spec ∷ edit_spec ∷ []

  -- The two `except` clauses of `invoke`.
  abbrev pub handled : Read ToolResult → Read ToolResult
  handled (value r) = value r
  handled (fault policy) = value (denied_result "path escapes the workspace root")
  handled (fault undecodable) = value (error_result "file is not valid UTF-8 text")
  handled (fault (other e)) = fault (other e)

  abbrev pub numbered_result : (path : String) → Read (Option String) → Read ToolResult
  numbered_result path (fault f) = fault f
  numbered_result path (value none) = value (error_result (append "no such file: " path))
  numbered_result path (value (some text)) = value (success text false)

  -- `_read`
  unfoldable pub read_file : (path : String) → fs.State → Read ToolResult
  read_file path s = numbered_result path (read_numbered fs path s)

  abbrev pub outcome_result : Read EditOutcome → Read ToolResult
  outcome_result (fault f) = fault f
  outcome_result (value (refused reason)) = value (denied_result reason)
  outcome_result (value (impossible e)) = value (error_result e)
  outcome_result (value (applied diff)) = value (success diff false)

  abbrev pub edit_with :
      (path : String) → (old new : Option String) → fs.State → Read ToolResult × fs.State
  edit_with path (some old) (some new) s =
      let (r, s') = apply_exact_edit fs screens path old new s in (outcome_result r, s')
  edit_with path _ _ s = (value (error_result "'old_string' and 'new_string' must be strings"), s)

  -- `_edit`
  unfoldable pub edit : (path : String) → Json → fs.State → Read ToolResult × fs.State
  edit path arguments s =
      edit_with path (get_str "old_string" arguments) (get_str "new_string" arguments) s

  abbrev pub dispatch :
      (name path : String) → Json → Normalized → fs.State → Read ToolResult × fs.State
  dispatch name path arguments (violation e) s = (fault policy, s)
  dispatch name path arguments (relative ps) s =
      if str_eq name read_tool then (read_file path s, s) else edit path arguments s

  abbrev pub invoke_path :
      (name : String) → Json → ℕ → Option String → Files → Read ToolResult × Files
  invoke_path name arguments workspace none files =
      (value (error_result "'path' must be a string"), files)
  invoke_path name arguments workspace (some path) files =
      let (r, s') = dispatch name path arguments (normalize_relative_path path) (files workspace) in
      (handled r, put_files workspace s' files)

  abbrev pub invoke_bound : (name : String) → Json → Option ℕ → Files → Read ToolResult × Files
  invoke_bound name arguments none files =
      (value (unavailable_result "no workspace is bound to this run"), files)
  invoke_bound name arguments (some workspace) files =
      invoke_path name arguments workspace (get_str "path" arguments) files

  -- A call of either tool; a fault that is not handled is raised.
  unfoldable pub invoke : (name : String) → Json → ToolContext → Files → Read ToolResult × Files
  invoke name arguments context files =
      if not (str_eq name read_tool) && not (str_eq name edit_tool)
      then (value (error_result (append "unknown tool " (repr name))), files)
      else invoke_bound name arguments context.workspace_id files
