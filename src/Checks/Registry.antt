-- ===== src/Checks/Registry.antt =====
-- backend/src/spidey/agents/application/registry.py with one provider of a tool that reads and one
-- that writes.
use spidey.Base.{arith, ◌&&◌, String, true, false, Option, none, some, ◌≡◌, refl, [], ◌∷◌}
use spidey.Identity.Roles.{Role, satisfies}
use spidey.Agents.Runs.{Approval, ApprovalStatus}
use spidey.Agents.Tools.{
  SideEffect, TrustTier, ToolOutcome, ToolSpec, ToolContext, ToolResult, success, is_ok,
}
use spidey.Agents.Registry
use spidey.Agents.Registry.{
  Services, ToolProvider, ToolRegistry, ToolCall, Log, Attempt, returned, emit_completed,
  emit_started, mutation_permitted,
}
use spidey.Agents.Registry.Gate.{calls-invoke, IsGrant, closed_registry}
use spidey.Agents.Registry.Events.{completed, invoke_entry-events}

-- JSON documents are texts here, and an empty text fits no schema.
abbrev no_text : String → Option String
no_text String.[] = some "empty"
no_text (String.◌∷◌ c s) = none

abbrev pub plain : Services
plain = record {
  Json = String;
  schema_error = λ arguments schema. no_text arguments;
  repr = λ s. s;
  scrub_text = λ s. s;
  looks_like_injection = λ s. false;
}

abbrev pub read_spec : ToolSpec String
read_spec = record {
  name = "workspace.read";
  version = 1;
  description = "";
  input_schema = "{}";
  side_effect = SideEffect.read;
  trust_tier = TrustTier.untrusted;
  required_role = Role.viewer;
  timeout_seconds = 30_000;
  cost_hint = none;
}

abbrev pub edit_spec : ToolSpec String
edit_spec = record read_spec {
  name = "workspace.edit";
  side_effect = SideEffect.write;
  required_role = Role.developer;
}

abbrev pub provider : ToolProvider plain
provider = record {
  specs = read_spec ∷ edit_spec ∷ [];
  invoke = λ name arguments context. returned (success "done" false);
}

abbrev pub guarded : ToolRegistry plain
guarded = Registry.new_registry plain (provider ∷ []) true false

abbrev by_developer : ToolContext
by_developer = record {
  actor_user_id = 7;
  role = Role.developer;
  run_id = some 1;
  session_id = none;
  workspace_id = some 30;
  trace_id = none;
  span_id = none;
}

abbrev pub grant : Approval
grant = record {
  id = 5;
  run_id = 1;
  tool = "workspace.edit";
  side_effect = "write";
  arguments_preview = "{}";
  status = ApprovalStatus.approved;
  requested_at = 2;
  decided_at = some 3;
  decided_by = some 7;
}

abbrev empty : Log plain
empty = record { events = []; calls = [] }

abbrev edit_call : ToolCall plain
edit_call = record { tool = "workspace.edit"; arguments = "{}"; context = by_developer }

abbrev edited : ToolResult × Log plain
edited = Registry.invoke plain guarded "workspace.edit" "{}" by_developer (some grant) 4 empty

edited_calls : edited.1.calls ≡ edit_call ∷ []
unfolding Registry.invoke Registry.new_registry Registry.invoke_entry Registry.execute
    Registry.run_tool satisfies mutation_permitted
edited_calls = refl

calls-invoke_example :
    let p = Registry.invoke plain guarded "workspace.edit" "{}" by_developer none 4 empty in
    (p.1.calls ≡ []) × (p.0.outcome ≡ ToolOutcome.denied) × ((is_ok p.0 && true) ≡ false)
unfolding Registry.new_registry satisfies mutation_permitted
calls-invoke_example = calls-invoke plain guarded "workspace.edit" "{}" by_developer none 4 empty

edit_listed : Registry.get_entry plain "workspace.edit" guarded.by_name ≡ some (provider, edit_spec)
unfolding Registry.new_registry
edit_listed = refl

closed_registry_example :
    (a : Approval) × (some grant ≡ some a)
    × IsGrant plain edit_spec by_developer a
    × (satisfies Role.developer Role.developer ≡ true)
closed_registry_example =
    closed_registry plain guarded "workspace.edit" "{}" by_developer (some grant) 4 empty
      {p = provider} {spec = edit_spec} (unfold Registry.new_registry in refl) edit_listed
      (λ e. absurd (ground arith)) (λ e. absurd (ground (arith, edited_calls)))

invoke_entry-events_example :
    (Registry.invoke_entry plain guarded
      (provider, edit_spec)
      "workspace.edit"
      "{}"
      by_developer
      none
      4
      empty).1.events
    ≡ completed plain edit_spec by_developer "denied" 0 ∷ []
unfolding satisfies mutation_permitted Registry.new_registry
invoke_entry-events_example =
    invoke_entry-events plain guarded provider edit_spec "workspace.edit" "{}" by_developer none 4
      empty
