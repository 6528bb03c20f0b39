-- ===== src/Agents/Registry/Naming.antt =====
-- backend/src/spidey/agents/application/registry.py: the names of the tools, and the tools that a role
-- is shown.
use mathlib.Core.List.{Memᴰ}
use spidey.Base.{
  String, Bool, true, false, some, ◌≡◌, refl, List, [], ◌∷◌, arith, if◌then◌else◌, str_eq, eq_iff,
  Bool-cases, Option-cases, inl, inr, All,
}
use spidey.Identity.Roles.{Role, satisfies}
use spidey.Agents.Tools.{ToolSpec}
use spidey.Agents.Registry.{
  Services, ToolProvider, Entry, ToolRegistry, get_entry, put_entry, register_specs, register_all,
  new_registry, list_tools, spec_for, visible,
}

module _ (sv : Services) where
  open sv use {Json}

  -- Every tool of the dictionary stands under its name.
  abbrev pub Named : List (String × Entry sv) → Type 0
  Named [] = Unit
  Named ((k, (p, s)) ∷ d) = (s.name ≡ k) × Named d

  put_entry-Named :
      (p : ToolProvider sv) (s : ToolSpec Json) (d : List (String × Entry sv))
      → Named d
      → Named (put_entry sv s.name (p, s) d)
  put_entry-Named p s [] h = (refl, tt)
  put_entry-Named p s ((k, (q, t)) ∷ d) h =
      ground (arith, eq_iff k s.name, put_entry-Named p s d h.1)

  register_specs-Named :
      (p : ToolProvider sv) (ss : List (ToolSpec Json)) (d : List (String × Entry sv))
      → Named d
      → Named (register_specs sv p ss d)
  register_specs-Named p [] d h = h
  register_specs-Named p (s ∷ ss) d h =
      register_specs-Named p ss (put_entry sv s.name (p, s) d) (put_entry-Named p s d h)

  register_all-Named :
      (ps : List (ToolProvider sv)) (d : List (String × Entry sv))
      → Named d
      → Named (register_all sv ps d)
  register_all-Named [] d h = h
  register_all-Named (p ∷ ps) d h =
      register_all-Named ps (register_specs sv p p.specs d) (register_specs-Named p p.specs d h)

  pub new_registry-Named :
      (ps : List (ToolProvider sv)) (has_events allow : Bool)
      → Named (new_registry sv ps has_events allow).by_name
  unfolding new_registry
  new_registry-Named ps has_events allow = register_all-Named ps [] tt

  -- The tool that a name finds has that name.
  pub get_entry-Named :
      (name : String) (d : List (String × Entry sv)) {p : ToolProvider sv} {s : ToolSpec Json}
      → Named d
      → get_entry sv name d ≡ some (p, s)
      → s.name ≡ name
  get_entry-Named name [] h e = ground arith
  get_entry-Named name ((k, (q, t)) ∷ d) {p} {s} h e =
      ground (arith, eq_iff k name, get_entry-Named name d {p = p} {s = s} h.1)

  mem-if_tail :
      (b : Bool) (s t : ToolSpec Json) (l : List (ToolSpec Json))
      → Memᴰ s l
      → Memᴰ s (if b then t ∷ l else l)
  mem-if_tail true s t l m = Memᴰ.tail m
  mem-if_tail false s t l m = m

  mem-if_head :
      (b : Bool) (s t : ToolSpec Json) (l : List (ToolSpec Json))
      → b ≡ true
      → s ≡ t
      → Memᴰ s (if b then t ∷ l else l)
  mem-if_head true s t l h e = Memᴰ.head e
  mem-if_head false s t l h e = absurd (ground arith)

  visible-mem :
      (role : Role) (name : String) (d : List (String × Entry sv)) {p : ToolProvider sv}
      {s : ToolSpec Json}
      → get_entry sv name d ≡ some (p, s)
      → satisfies role s.required_role ≡ true
      → Memᴰ s (visible sv role d)
  visible-mem role name [] e h = absurd (ground arith)
  visible-mem role name ((k, (q, t)) ∷ d) {p} {s} e h = elim (Bool-cases (str_eq k name)) [
    | inl same ↦
        let found : s ≡ t = ground arith in
        mem-if_head (satisfies role t.required_role) s t (visible sv role d) (rw (← found) h) found
    | inr other ↦
        mem-if_tail (satisfies role t.required_role) s t (visible sv role d)
          (visible-mem role name d {p = p} (ground arith) h)
  ]

  -- A tool that a role may call is among those that the role is shown.
  pub mem-list_tools :
      (reg : ToolRegistry sv) (role : Role) (name : String) {s : ToolSpec Json}
      → spec_for sv reg name ≡ some s
      → satisfies role s.required_role ≡ true
      → Memᴰ s (list_tools sv reg role)
  unfolding spec_for list_tools
  mem-list_tools reg role name {s} e h = elim (Option-cases (get_entry sv name reg.by_name)) [
    | inl absent ↦ absurd (ground arith)
    | inr ((p, t), found) ↦ visible-mem role name reg.by_name {p = p} {s = s} (ground arith) h
  ]

  visible-allowed :
      (role : Role) (d : List (String × Entry sv))
      → All (λ s. satisfies role s.required_role ≡ true) (visible sv role d)
  visible-allowed role [] = tt
  visible-allowed role ((k, (q, t)) ∷ d) = ground (arith, visible-allowed role d)

  -- A role is shown only tools that it may call.
  pub list_tools-allowed :
      (reg : ToolRegistry sv) (role : Role)
      → All (λ s. satisfies role s.required_role ≡ true) (list_tools sv reg role)
  unfolding list_tools
  list_tools-allowed reg role = visible-allowed role reg.by_name
