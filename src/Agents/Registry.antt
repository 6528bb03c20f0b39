-- ===== src/Agents/Registry.antt =====
-- backend/src/spidey/agents/application/registry.py: the choke point of every tool call.
-- Parameters: the JSON documents, the schema validator (a third-party package), `repr` of the
-- standard library, the two text screens of backend/src/spidey/platform/security, and what each
-- provider does when it is called. The state is the outbox and the log of the calls that reached a
-- provider; the latency that the clock measures is an argument.
pub mod Gate
pub mod Events
pub mod Naming
use spidey.Base.{
  ℕ, String, Bool, true, false, not, ◌&&◌, ◌||◌, Option, none, some, List, [], ◌∷◌, ◌++◌, ◌==◌,
  if◌then◌else◌, str_eq, str_take, str_concat, same_option,
}
use spidey.Platform.Events.{EventPayload, EventEnvelope, envelope_of}
use spidey.Identity.Roles.{Role, satisfies}
use spidey.Agents.Runs.{Approval, is_approved}
use spidey.Agents.Tools.{
  SideEffect, side_effect_value, is_read, TrustTier, trust_tier_value, is_trusted, ToolOutcome,
  outcome_value, ToolSpec, ToolContext, ToolResult, is_ok, denied_result, unavailable_result,
  error_result,
}

-- How a provider's call ends: with a result, at its timeout, or in an exception.
pub data Attempt : Type 0 where
  returned : ToolResult → Attempt
  timed_out raised : Attempt

-- What the registry uses of code that is not its own.
pub record Services : Type 1 where
  pub Json : Type 0
  pub schema_error : (arguments schema : Json) → Option String
  pub repr : String → String
  pub scrub_text : String → String
  pub looks_like_injection : String → Bool

module _ (sv : Services) where
  open sv use {Json, schema_error, repr, scrub_text, looks_like_injection}

  -- A provider: the tools that it offers, and what a call of it does.
  pub record ToolProvider : Type 0 where
    pub specs : List (ToolSpec Json)
    pub invoke : String → Json → ToolContext → Attempt

  -- A call that reached a provider.
  pub record ToolCall : Type 0 where
    pub tool : String
    pub arguments : Json
    pub context : ToolContext

  pub record Log : Type 0 where
    pub events : List EventEnvelope
    pub calls : List ToolCall

  abbrev pub Entry : Type 0
  Entry = ToolProvider × ToolSpec Json

  -- A registry: the dictionary of tools, whether there is an outbox, and the escape hatch.
  pub record ToolRegistry : Type 0 where
    pub by_name : List (String × Entry)
    pub has_events : Bool
    pub allow_mutations : Bool

  -- `d[name] = entry`: a known key keeps its place.
  abbrev pub put_entry : String → Entry → List (String × Entry) → List (String × Entry)
  put_entry name e [] = (name, e) ∷ []
  put_entry name e ((k, old) ∷ d) =
      if str_eq k name then (k, e) ∷ d else (k, old) ∷ put_entry name e d

  abbrev pub get_entry : String → List (String × Entry) → Option Entry
  get_entry name [] = none
  get_entry name ((k, e) ∷ d) = if str_eq k name then some e else get_entry name d

  abbrev pub register_specs :
      ToolProvider → List (ToolSpec Json) → List (String × Entry) → List (String × Entry)
  register_specs p [] d = d
  register_specs p (s ∷ ss) d = register_specs p ss (put_entry s.name (p, s) d)

  abbrev pub register_all : List ToolProvider → List (String × Entry) → List (String × Entry)
  register_all [] d = d
  register_all (p ∷ ps) d = register_all ps (register_specs p p.specs d)

  -- `ToolRegistry.__init__`
  unfoldable pub new_registry :
      List ToolProvider → (has_events allow_mutations : Bool) → ToolRegistry
  new_registry providers has_events allow_mutations = record {
    by_name = register_all providers [];
    has_events = has_events;
    allow_mutations = allow_mutations;
  }

  abbrev pub visible : Role → List (String × Entry) → List (ToolSpec Json)
  visible role [] = []
  visible role ((k, (p, s)) ∷ d) =
      if satisfies role s.required_role then s ∷ visible role d else visible role d

  unfoldable pub list_tools : ToolRegistry → Role → List (ToolSpec Json)
  list_tools reg role = visible role reg.by_name

  abbrev spec_of : Option Entry → Option (ToolSpec Json)
  spec_of none = none
  spec_of (some (p, s)) = some s

  unfoldable pub spec_for : ToolRegistry → String → Option (ToolSpec Json)
  spec_for reg name = spec_of (get_entry name reg.by_name)

  abbrev pub granted : ToolSpec Json → ToolContext → Option Approval → Bool
  granted spec context none = false
  granted spec context (some a) =
      is_approved a.status
      && str_eq a.tool spec.name
      && elim context.run_id [ none ↦ true | some r ↦ a.run_id == r ]

  -- `_mutation_permitted`
  unfoldable pub mutation_permitted :
      ToolRegistry → ToolSpec Json → ToolContext → Option Approval → Bool
  mutation_permitted reg spec context approval =
      reg.allow_mutations || granted spec context approval

  abbrev of_context : ToolContext → EventPayload → EventEnvelope
  of_context c p =
      envelope_of p c.run_id c.session_id c.workspace_id (some c.actor_user_id) c.trace_id c.span_id

  abbrev publish : ToolRegistry → EventEnvelope → Log → Log
  publish reg e l = if reg.has_events then record l { events = l.events ++ (e ∷ []) } else l

  -- `_emit_started`
  abbrev pub emit_started : ToolRegistry → ToolSpec Json → ToolContext → Log → Log
  emit_started reg spec context = publish reg (
      of_context context (
        EventPayload.tool_invocation_started spec.name (side_effect_value spec.side_effect)
          (trust_tier_value spec.trust_tier)))

  -- `_emit_completed`
  abbrev pub emit_completed :
      ToolRegistry → ToolSpec Json → ToolContext → ToolOutcome → (latency_ms : ℕ) → Log → Log
  emit_completed reg spec context outcome latency_ms = publish reg (
      of_context context (
        EventPayload.tool_invocation_completed spec.name (side_effect_value spec.side_effect)
          (outcome_value outcome) latency_ms))

  abbrev max_output_chars : ℕ
  max_output_chars = 100_000

  -- `_sanitize`
  unfoldable pub sanitize : ToolResult → ToolResult
  sanitize result =
      let content = str_take max_output_chars (scrub_text result.content) in
      record { outcome = result.outcome; content = content; suspect = looks_like_injection content }

  abbrev pub result_of : Attempt → ToolResult
  result_of (Attempt.returned r) = r
  result_of Attempt.timed_out = unavailable_result "tool timed out"
  result_of Attempt.raised = error_result "tool invocation failed"

  -- `_run`: the provider is called, and however the call ends it is a result.
  unfoldable pub run_tool : ToolProvider → String → Json → ToolContext → Log → ToolResult × Log
  run_tool provider name arguments context l = (
    result_of (provider.invoke name arguments context),
    record l {
      calls = l.calls ++ (record { tool = name; arguments = arguments; context = context } ∷ []);
    },
  )

  abbrev pub screened : ToolSpec Json → ToolResult → ToolResult
  screened spec result =
      if not (is_trusted spec.trust_tier) && is_ok result then sanitize result else result

  -- The part of `invoke` behind the gates.
  unfoldable pub execute :
      ToolRegistry
      → ToolProvider
      → ToolSpec Json
      → String
      → Json
      → ToolContext
      → (latency_ms : ℕ) → Log
      → ToolResult × Log
  execute reg provider spec name arguments context latency_ms l =
      let (raw, l') = run_tool provider name arguments context (emit_started reg spec context l) in
      let result = screened spec raw in
      (result, emit_completed reg spec context result.outcome latency_ms l')

  abbrev refuse : ToolRegistry → ToolSpec Json → ToolContext → String → Log → ToolResult × Log
  refuse reg spec context reason l =
      (denied_result reason, emit_completed reg spec context ToolOutcome.denied 0 l)

  -- The gates of `invoke`, in their order: role, schema, approval.
  unfoldable pub invoke_entry :
      ToolRegistry
      → Entry
      → String
      → Json
      → ToolContext
      → Option Approval
      → (latency_ms : ℕ) → Log
      → ToolResult × Log
  invoke_entry reg (provider, spec) name arguments context approval latency_ms l =
      if not (satisfies context.role spec.required_role)
      then refuse reg spec context "insufficient role for this tool" l
      else elim (schema_error arguments spec.input_schema) [
        | some message ↦ (error_result (str_concat ("invalid arguments: " ∷ message ∷ [])), l)
        | none ↦
            if not (is_read spec.side_effect) && not (mutation_permitted reg spec context approval)
            then refuse reg spec context
                (str_concat (
                  side_effect_value spec.side_effect
                  ∷ " tools require a resolved human approval"
                  ∷ []))
                l
            else execute reg provider spec name arguments context latency_ms l
      ]

  unfoldable pub invoke :
      ToolRegistry
      → String
      → Json
      → ToolContext
      → Option Approval
      → (latency_ms : ℕ) → Log
      → ToolResult × Log
  invoke reg name arguments context approval latency_ms l = elim (get_entry name reg.by_name) [
    | none ↦ (error_result (str_concat ("unknown tool " ∷ repr name ∷ [])), l)
    | some e ↦ invoke_entry reg e name arguments context approval latency_ms l
  ]
