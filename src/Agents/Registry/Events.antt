-- ===== src/Agents/Registry/Events.antt =====
-- backend/src/spidey/agents/application/registry.py: what a call publishes, and what it lets out.
use spidey.Base.{
  ℕ, String, true, not, ◌&&◌, ◌||◌, Option, some, [], ◌∷◌, ◌++◌, Bool-cases, inl, inr, ◌≡◌, ◌≢◌,
  refl, ◌≤◌, arith, if◌then◌else◌, is_some, str_len, str_len-str_take,
}
use spidey.Identity.Roles.{satisfies}
use spidey.Agents.Runs.{Approval}
use spidey.Platform.Events.{EventPayload, EventEnvelope, envelope_of}
use spidey.Agents.Tools.{
  side_effect_value, trust_tier_value, outcome_value, TrustTier, ToolSpec, ToolContext, ToolResult,
  is_ok,
}
use spidey.Agents.Registry.{
  Services, ToolProvider, Log, ToolRegistry, invoke_entry, execute, run_tool, sanitize, screened,
  result_of,
}
use spidey.Agents.Registry.Gate.{may_run}

module _ (sv : Services) where
  open sv use {Json, schema_error, scrub_text, looks_like_injection}

  abbrev of_call : ToolContext → EventPayload → EventEnvelope
  of_call c p =
      envelope_of p c.run_id c.session_id c.workspace_id (some c.actor_user_id) c.trace_id c.span_id

  -- What is announced of a call, by its specification.
  abbrev pub started : ToolSpec Json → ToolContext → EventEnvelope
  started spec context = of_call context (
      EventPayload.tool_invocation_started spec.name (side_effect_value spec.side_effect)
        (trust_tier_value spec.trust_tier))

  abbrev pub completed : ToolSpec Json → ToolContext → String → (latency_ms : ℕ) → EventEnvelope
  completed spec context outcome latency_ms = of_call context (
      EventPayload.tool_invocation_completed spec.name (side_effect_value spec.side_effect) outcome
        latency_ms)

  -- If events are published, then the invocation of a registered tool that is admitted adds to the
  -- outbox its started event and then its completed event, with the name, the side effect and the value
  -- of the result's outcome; one that the role or the missing approval stops adds a completed event
  -- "denied" alone; one whose arguments do not fit adds nothing. If they are not published, the outbox
  -- stays as it was.
  pub invoke_entry-events :
      (reg : ToolRegistry sv) (p : ToolProvider sv) (spec : ToolSpec Json) (name : String)
      (arguments : Json) (context : ToolContext) (approval : Option Approval) (latency : ℕ)
      (l : Log sv)
      → let (result, l') =
          invoke_entry sv reg (p, spec) name arguments context approval latency l in
        let fits = not (is_some (schema_error arguments spec.input_schema)) in
        l'.events ≡ (
          if not reg.has_events || (satisfies context.role spec.required_role && not fits)
          then l.events
          else if may_run sv reg spec arguments context approval
          then (l.events ++ (started spec context ∷ []))
            ++ (completed spec context (outcome_value result.outcome) latency ∷ [])
          else l.events ++ (completed spec context "denied" 0 ∷ []))
  unfolding invoke_entry execute run_tool
  invoke_entry-events reg p spec name arguments context approval latency l =
      elim (Bool-cases reg.has_events) [ inl h ↦ ground (arith, h) | inr h ↦ ground (arith, h) ]

  sanitize_lem :
      (r : ToolResult)
      → (str_len (sanitize sv r).content ≤ 100_000)
        × ((sanitize sv r).suspect ≡ looks_like_injection (sanitize sv r).content)
        × ((sanitize sv r).outcome ≡ r.outcome)
  unfolding sanitize
  sanitize_lem r = (str_len-str_take 100_000 (scrub_text r.content), refl, refl)

  -- Nothing that the screen lets out with success is longer than the cap, or flagged for another text.
  abbrev IsScreened : ToolResult → Type 0
  IsScreened r = (str_len r.content ≤ 100_000) × (r.suspect ≡ looks_like_injection r.content)

  screened-IsScreened :
      (spec : ToolSpec Json) (r : ToolResult)
      → spec.trust_tier ≢ TrustTier.trusted
      → is_ok (screened sv spec r) ≡ true
      → IsScreened (screened sv spec r)
  screened-IsScreened spec r ne h = ground (arith, sanitize_lem r)

  -- What a tool that is not trusted returns with success is capped, and its flag is what the
  -- injection screen says of the very text that is handed on.
  pub untrusted_output :
      (reg : ToolRegistry sv) (p : ToolProvider sv) (spec : ToolSpec Json) (name : String)
      (arguments : Json) (context : ToolContext) (approval : Option Approval) (latency : ℕ)
      (l : Log sv)
      → spec.trust_tier ≢ TrustTier.trusted
      → is_ok (invoke_entry sv reg (p, spec) name arguments context approval latency l).0 ≡ true
      → let r = (invoke_entry sv reg (p, spec) name arguments context approval latency l).0 in
        (str_len r.content ≤ 100_000) × (r.suspect ≡ looks_like_injection r.content)
  unfolding invoke_entry execute run_tool
  untrusted_output reg p spec name arguments context approval latency l ne h =
      let raw = result_of sv (p.invoke name arguments context) in
      ground (arith, screened-IsScreened spec raw ne)
