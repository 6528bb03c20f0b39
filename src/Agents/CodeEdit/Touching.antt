-- ===== src/Agents/CodeEdit/Touching.antt =====
-- `CodeEditProvider` in backend/src/spidey/agents/infrastructure/code_edit.py: which files a call touches.
use spidey.Base.{
  ℕ, zero, suc, ◌≡◌, refl, sym, subst, String, true, false, not, ◌&&◌, Option, none, some, List,
  ◌==◌, Bool-cases, inl, inr, arith, ◌⊎◌, str_eq, eq_iff, get_elem?, ==_iff,
}
use spidey.Agents.Tools.{is_read, ToolSpec, ToolContext, ToolResult}
use spidey.Workspaces.Paths.{Normalized, violation, relative, normalize_relative_path}
use spidey.Workspaces.Edits.{Read, EditOutcome}
use spidey.Workspaces.Edits.Applied.{IsEdit, apply_exact_edit-IsEdit}
use spidey.Agents.CodeEdit.{
  CodeEdit, Files, put_files, specs, handled, outcome_result, edit_with, edit, dispatch,
  invoke_path, invoke_bound, invoke, read_spec, edit_spec, read_tool, edit_tool,
}

module _ (ce : CodeEdit) (name : String) (arguments : ce.Json) (context : ToolContext) where
  open ce use {get_str, fs, screens}

  -- What a call makes of the workspaces: nothing, or an edit of one file of the call's own workspace, at
  -- a path that passes the policy.
  pub data Touch (files : Files ce) : Read ToolResult × Files ce → Type 0 where
    untouched :
        {r : Read ToolResult} {files' : Files ce}
        → ((w : ℕ) → files' w ≡ files w)
        → Touch files (r, files')
    edited :
        {workspace : ℕ} {path old new : String} {ps : List String} {r : Read EditOutcome}
        {s' : fs.State} {files' : Files ce}
        → name ≡ edit_tool
        → context.workspace_id ≡ some workspace
        → get_str "path" arguments ≡ some path
        → get_str "old_string" arguments ≡ some old
        → get_str "new_string" arguments ≡ some new
        → normalize_relative_path path ≡ relative ps
        → IsEdit fs path old new screens (files workspace) (r, s')
        → files' workspace ≡ s'
        → ((w : ℕ) → (w == workspace) ≡ false → files' w ≡ files w)
        → Touch files (handled ce (outcome_result ce r), files')

  put-same :
      (files : Files ce) (workspace w : ℕ)
      → put_files ce workspace (files workspace) files w ≡ files w
  put-same files workspace w = elim (Bool-cases (w == workspace)) [
    | inl e ↦ rw (e, (==_iff w workspace).0 e) refl
    | inr e ↦ rw e refl
  ]

  edit_with-Touch :
      (workspace : ℕ) (files : Files ce) (path : String) (ps : List String)
      (old new : Option String)
      → name ≡ edit_tool
      → context.workspace_id ≡ some workspace
      → get_str "path" arguments ≡ some path
      → get_str "old_string" arguments ≡ old
      → get_str "new_string" arguments ≡ new
      → normalize_relative_path path ≡ relative ps
      → Touch files (
        handled ce (edit_with ce path old new (files workspace)).0,
        put_files ce workspace (edit_with ce path old new (files workspace)).1 files,
      )
  edit_with-Touch workspace files path ps none new named bound at was is norm =
      untouched (put-same files workspace)
  edit_with-Touch workspace files path ps (some old) none named bound at was is norm =
      untouched (put-same files workspace)
  edit_with-Touch workspace files path ps (some old) (some new) named bound at was is norm =
      edited named bound at was is norm
        (apply_exact_edit-IsEdit fs path old new screens (files workspace))
        (rw ((==_iff workspace workspace).1 refl) refl) (λ w e. rw e refl)

  dispatch-Touch :
      (workspace : ℕ) (files : Files ce) (path : String) (norm : Normalized)
      → (str_eq name read_tool ≡ true) ⊎ (str_eq name edit_tool ≡ true)
      → context.workspace_id ≡ some workspace
      → get_str "path" arguments ≡ some path
      → normalize_relative_path path ≡ norm
      → Touch files (
        handled ce (dispatch ce name path arguments norm (files workspace)).0,
        put_files ce workspace (dispatch ce name path arguments norm (files workspace)).1 files,
      )
  unfolding edit
  dispatch-Touch workspace files path (violation e) known bound at h =
      untouched (put-same files workspace)
  dispatch-Touch workspace files path (relative ps) known bound at h =
      elim (Bool-cases (str_eq name read_tool)) [
        | inl e ↦ rw e (untouched (put-same files workspace))
        | inr e ↦ rw e (
            edit_with-Touch workspace files path ps _ _
              ((eq_iff name edit_tool).0 (ground (arith, known, e))) bound at refl refl h)
      ]

  bound-Touch :
      (files : Files ce) (workspace : Option ℕ)
      → (str_eq name read_tool ≡ true) ⊎ (str_eq name edit_tool ≡ true)
      → context.workspace_id ≡ workspace
      → Touch files (invoke_bound ce name arguments workspace files)
  bound-Touch files none known bound = untouched (λ w. refl)
  bound-Touch files (some workspace) known bound = go (get_str "path" arguments) refl
    where
      go :
          (path : Option String)
          → get_str "path" arguments ≡ path
          → Touch files (invoke_path ce name arguments workspace path files)
      go none at = untouched (λ w. refl)
      go (some path) at =
          dispatch-Touch workspace files path (normalize_relative_path path) known bound at refl

  pub invoke-Touch : (files : Files ce) → Touch files (invoke ce name arguments context files)
  unfolding invoke
  invoke-Touch files =
      elim (Bool-cases (not (str_eq name read_tool) && not (str_eq name edit_tool))) [
        | inl e ↦ rw e (untouched (λ w. refl))
        | inr e ↦ rw e (bound-Touch files context.workspace_id (ground (arith, e)) refl)
      ]

Touch-read :
    (ce : CodeEdit) (name : String) (arguments : ce.Json) (context : ToolContext) (files : Files ce)
    (p : Read ToolResult × Files ce)
    → Touch ce name arguments context files p
    → str_eq name edit_tool ≡ false
    → (w : ℕ) → p.1 w ≡ files w
Touch-read ce name arguments context files p (untouched same) other w = same w
Touch-read ce name arguments context files p (edited named _ _ _ _ _ _ _ _) other w =
    absurd (ground (arith, (eq_iff name edit_tool).1 named, other))

-- A tool that is declared to read only leaves every workspace as it was.
pub invoke-specs :
    (ce : CodeEdit) (i : ℕ) {spec : ToolSpec ce.Json} (arguments : ce.Json) (context : ToolContext)
    (files : Files ce) (w : ℕ)
    → get_elem? (specs ce) i ≡ some spec
    → is_read spec.side_effect ≡ true
    → (invoke ce spec.name arguments context files).1 w ≡ files w
unfolding specs
invoke-specs ce zero {spec} arguments context files w at reads =
    let same : read_spec ce ≡ spec = cc in
    subst (λ (s : ToolSpec ce.Json). (invoke ce s.name arguments context files).1 w ≡ files w) same
      (Touch-read ce read_tool arguments context files _
        (invoke-Touch ce read_tool arguments context files) refl w)
invoke-specs ce (suc zero) {spec} arguments context files w at reads =
    let same : edit_spec ce ≡ spec = cc in
    absurd (
      ground
        (arith, subst (λ (s : ToolSpec ce.Json). is_read s.side_effect ≡ true) (sym same) reads))
invoke-specs ce (suc (suc i)) arguments context files w at reads = absurd (ground (arith, at))
