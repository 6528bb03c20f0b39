-- ===== src/Agents/Tools.antt =====
-- backend/src/spidey/agents/domain/tools.py: the vocabulary of the tool plane. A JSON document (the
-- arguments of a call, an input schema) is a parameter, since only the schema validator reads it.
use spidey.Base.{ℕ, String, Bool, true, false, Option}
use spidey.Identity.Roles.{Role}

pub data SideEffect : Type 0 where
  read write destructive : SideEffect

abbrev pub side_effect_value : SideEffect → String
side_effect_value SideEffect.read = "read"
side_effect_value SideEffect.write = "write"
side_effect_value SideEffect.destructive = "destructive"

abbrev pub is_read : SideEffect → Bool
is_read SideEffect.read = true
is_read _ = false

pub data TrustTier : Type 0 where
  trusted verified untrusted : TrustTier

abbrev pub trust_tier_value : TrustTier → String
trust_tier_value TrustTier.trusted = "trusted"
trust_tier_value TrustTier.verified = "verified"
trust_tier_value TrustTier.untrusted = "untrusted"

abbrev pub is_trusted : TrustTier → Bool
is_trusted TrustTier.trusted = true
is_trusted _ = false

-- The member `OK` is `succeeded`, `ERROR` is `failed`.
pub data ToolOutcome : Type 0 where
  succeeded failed unavailable denied : ToolOutcome

abbrev pub outcome_value : ToolOutcome → String
outcome_value ToolOutcome.succeeded = "ok"
outcome_value ToolOutcome.failed = "error"
outcome_value ToolOutcome.unavailable = "unavailable"
outcome_value ToolOutcome.denied = "denied"

-- `timeout_seconds` is in milliseconds.
pub record ToolSpec (Json : Type 0) : Type 0 where
  pub name : String
  pub version : ℕ
  pub description : String
  pub input_schema : Json
  pub side_effect : SideEffect
  pub trust_tier : TrustTier
  pub required_role : Role
  pub timeout_seconds : ℕ
  pub cost_hint : Option String

pub record ToolContext : Type 0 where
  pub actor_user_id : ℕ
  pub role : Role
  pub run_id : Option ℕ
  pub session_id : Option ℕ
  pub workspace_id : Option ℕ
  pub trace_id : Option String
  pub span_id : Option String

pub record ToolResult : Type 0 where
  pub outcome : ToolOutcome
  pub content : String
  pub suspect : Bool

-- `ToolResult.ok`
abbrev pub is_ok : ToolResult → Bool
is_ok r = elim r.outcome [ ToolOutcome.succeeded ↦ true | _ ↦ false ]

-- `ToolResult.success`, `denied`, `unavailable` and `error`
abbrev pub success : String → Bool → ToolResult
success content suspect = record {
  outcome = ToolOutcome.succeeded;
  content = content;
  suspect = suspect;
}

abbrev pub denied_result : String → ToolResult
denied_result reason = record { outcome = ToolOutcome.denied; content = reason; suspect = false }

abbrev pub unavailable_result : String → ToolResult
unavailable_result reason = record {
  outcome = ToolOutcome.unavailable;
  content = reason;
  suspect = false;
}

abbrev pub error_result : String → ToolResult
error_result reason = record { outcome = ToolOutcome.failed; content = reason; suspect = false }
