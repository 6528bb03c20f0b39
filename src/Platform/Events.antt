-- ===== src/Platform/Events.antt =====
-- backend/src/spidey/platform/events/contracts.py: the payloads that the agent runtime, the tool plane
-- and the model gateway publish, and their envelope. A `uuid` and its text are one number here. The generated
-- `event_id` and `occurred_at` are left out, and so is the version, which is 1 for every payload.
use spidey.Base.{ℕ, String, Bool, Option, List}

-- A cost is in millionths of a dollar.
pub data EventPayload : Type 0 where
  llm_call_completed :
      (provider model role : String) (prompt_tokens completion_tokens latency_ms cost : ℕ)
      (interaction_id : Option ℕ) (cached : Bool)
      → EventPayload
  tool_invocation_started : (tool side_effect trust_tier : String) → EventPayload
  tool_invocation_completed : (tool side_effect outcome : String) (latency_ms : ℕ) → EventPayload
  run_completed : (outcome : String) (reason : Option String) → EventPayload
  run_started : (goal : String) → EventPayload
  run_status_changed : (status : String) (reason : Option String) → EventPayload
  plan_created : (version step_count : ℕ) → EventPayload
  approval_requested : (approval_id : ℕ) (tool side_effect : String) → EventPayload
  approval_resolved : (approval_id : ℕ) (approved : Bool) → EventPayload
  code_generated : (step_index : ℕ) (files : List String) → EventPayload
  review_completed : (step_index iteration : ℕ) (verdict : String) → EventPayload
  run_step_committed : (step_index : ℕ) (commit_sha branch : String) → EventPayload
  commit_blocked : (step_index : ℕ) (reason : String) → EventPayload
  fix_generated : (attempt : ℕ) (files : List String) → EventPayload
  docs_generated : (summary_chars : ℕ) → EventPayload
  pull_request_opened : (number : ℕ) (url branch : String) → EventPayload
  run_reported :
      (outcome : String) (steps : ℕ) (tests_passed : Option Bool) (pull_request_url : Option String)
      → EventPayload

abbrev pub event_type : EventPayload → String
event_type (EventPayload.llm_call_completed _ _ _ _ _ _ _ _ _) = "llm.call_completed"
event_type (EventPayload.tool_invocation_started _ _ _) = "tools.invocation_started"
event_type (EventPayload.tool_invocation_completed _ _ _ _) = "tools.invocation_completed"
event_type (EventPayload.run_completed _ _) = "chat.run_completed"
event_type (EventPayload.run_started _) = "agents.run_started"
event_type (EventPayload.run_status_changed _ _) = "agents.run_status_changed"
event_type (EventPayload.plan_created _ _) = "agents.plan_created"
event_type (EventPayload.approval_requested _ _ _) = "agents.approval_requested"
event_type (EventPayload.approval_resolved _ _) = "agents.approval_resolved"
event_type (EventPayload.code_generated _ _) = "agents.code_generated"
event_type (EventPayload.review_completed _ _ _) = "agents.review_completed"
event_type (EventPayload.run_step_committed _ _ _) = "agents.step_committed"
event_type (EventPayload.commit_blocked _ _) = "agents.commit_blocked"
event_type (EventPayload.fix_generated _ _) = "agents.fix_generated"
event_type (EventPayload.docs_generated _) = "agents.docs_generated"
event_type (EventPayload.pull_request_opened _ _ _) = "agents.pull_request_opened"
event_type (EventPayload.run_reported _ _ _ _) = "agents.run_reported"

pub record EventEnvelope : Type 0 where
  pub event_type : String
  pub run_id : Option ℕ
  pub session_id : Option ℕ
  pub workspace_id : Option ℕ
  pub actor : Option ℕ
  pub trace_id : Option String
  pub span_id : Option String
  pub payload : EventPayload

-- `EventEnvelope.of`
abbrev pub envelope_of :
    EventPayload
    → (run_id session_id workspace_id actor : Option ℕ) (trace_id span_id : Option String)
    → EventEnvelope
envelope_of p r s w a t i = record {
  event_type = event_type p;
  run_id = r;
  session_id = s;
  workspace_id = w;
  actor = a;
  trace_id = t;
  span_id = i;
  payload = p;
}
