-- ===== src/Agents/Registry/Gate.antt =====
-- backend/src/spidey/agents/application/registry.py: which calls reach a provider, and with what grant.
use spidey.Base.{
  ℕ, String, Bool, true, false, not, ◌&&◌, ◌||◌, Option, none, some, ◌≡◌, ◌≢◌, refl, ◌⊎◌, [], ◌∷◌,
  ◌++◌, arith, if◌then◌else◌, eq_iff, is_some,
}
use spidey.Identity.Roles.{satisfies}
use spidey.Agents.Runs.{Approval, ApprovalStatus, is_approved}
use spidey.Agents.Tools.{SideEffect, is_read, ToolSpec, ToolContext, ToolOutcome, is_ok}
use spidey.Agents.Registry.{
  Services, ToolProvider, Log, ToolRegistry, get_entry, mutation_permitted, invoke, invoke_entry,
  execute, run_tool, granted,
}

module _ (sv : Services) where
  open sv use {Json, schema_error}

  -- A call may reach the provider of a tool: the role suffices, the arguments fit the schema, and
  -- either the tool only reads or the mutation is permitted.
  abbrev pub may_run : ToolRegistry sv → ToolSpec Json → Json → ToolContext → Option Approval → Bool
  may_run reg spec arguments context approval =
      satisfies context.role spec.required_role
      && not (is_some (schema_error arguments spec.input_schema))
      && (is_read spec.side_effect || mutation_permitted sv reg spec context approval)

  abbrev pub admitted : ToolRegistry sv → String → Json → ToolContext → Option Approval → Bool
  admitted reg name arguments context approval = elim (get_entry sv name reg.by_name) [
    | none ↦ false
    | some (p, spec) ↦ may_run reg spec arguments context approval
  ]

  -- How a call that is not admitted ends: for an unknown tool and for arguments that do not fit, from
  -- someone whose role suffices, in an error; otherwise in a denial.
  abbrev pub refusal : ToolRegistry sv → String → Json → ToolContext → ToolOutcome
  refusal reg name arguments context = elim (get_entry sv name reg.by_name) [
    | none ↦ ToolOutcome.failed
    | some (p, spec) ↦
        if satisfies context.role spec.required_role
          && is_some (schema_error arguments spec.input_schema)
        then ToolOutcome.failed
        else ToolOutcome.denied
  ]

  -- A call reaches its provider exactly when it is admitted, and then once. A call that is not
  -- admitted ends in an error, if the tool is unknown or if the role suffices and the arguments do not
  -- fit, and else in a denial.
  pub calls-invoke :
      (reg : ToolRegistry sv) (name : String) (arguments : Json) (context : ToolContext)
      (approval : Option Approval) (latency : ℕ) (l : Log sv)
      → let p = invoke sv reg name arguments context approval latency l in
        let go = admitted reg name arguments context approval in
        (p.1.calls ≡ (
          if go
          then l.calls ++ (record { tool = name; arguments = arguments; context = context } ∷ [])
          else l.calls))
        × (p.0.outcome ≡ (if go then p.0.outcome else refusal reg name arguments context))
        × ((is_ok p.0 && not go) ≡ false)
  unfolding invoke invoke_entry execute run_tool
  calls-invoke reg name arguments context approval latency l = ground arith

  -- The grant that a mutation needs: a resolved approval of this very tool, and, where the call is part
  -- of a run, of that very run.
  pub record IsGrant (spec : ToolSpec Json) (context : ToolContext) (a : Approval) : Type 0 where
    pub approved : a.status ≡ ApprovalStatus.approved
    pub same_tool : a.tool ≡ spec.name
    pub same_run : (context.run_id ≡ none) ⊎ (context.run_id ≡ some a.run_id)

  is_approved→eq : (st : ApprovalStatus) → is_approved st ≡ true → st ≡ ApprovalStatus.approved
  is_approved→eq st h = ground arith

  pub granted-IsGrant :
      (spec : ToolSpec Json) (context : ToolContext) (a : Approval)
      → granted sv spec context (some a) ≡ true
      → IsGrant spec context a
  granted-IsGrant spec context a h = record {
    approved = is_approved→eq a.status (ground arith);
    same_tool = (eq_iff a.tool spec.name).0 (ground arith);
    same_run = ground arith;
  }

  -- Behind a registry with no escape hatch, a tool that writes or destroys is called only with a grant
  -- for that tool and that run, and only for a role that suffices.
  pub closed_registry :
      (reg : ToolRegistry sv) (name : String) (arguments : Json) (context : ToolContext)
      (approval : Option Approval) (latency : ℕ) (l : Log sv) {p : ToolProvider sv}
      {spec : ToolSpec Json}
      → reg.allow_mutations ≡ false
      → get_entry sv name reg.by_name ≡ some (p, spec)
      → spec.side_effect ≢ SideEffect.read
      → (invoke sv reg name arguments context approval latency l).1.calls ≢ l.calls
      → (a : Approval) × (approval ≡ some a)
        × IsGrant spec context a
        × (satisfies context.role spec.required_role ≡ true)
  unfolding mutation_permitted
  closed_registry reg name arguments context none latency l {p} {spec} closed e ne called =
      absurd (ground (arith, calls-invoke reg name arguments context none latency l))
  closed_registry reg name arguments context (some a) latency l {p} {spec} closed e ne called =
      let c = calls-invoke reg name arguments context (some a) latency l in
      (a, refl, granted-IsGrant spec context a (ground (arith, c)), ground (arith, c))
