-- ===== src/Llm/Capture.antt =====
-- backend/src/spidey/llm/infrastructure/orm.py: a row of `llm_interactions`, as
-- backend/src/spidey/llm/infrastructure/capture.py fills it.
use spidey.Base.{ℕ, String, Option, List}

pub record RedactedMessage : Type 0 where
  pub role : String
  pub content : String
  pub tool_calls : List String

pub record Interaction : Type 0 where
  pub id : ℕ
  pub run_id : Option ℕ
  pub provider : String
  pub model : String
  pub role : String
  pub messages : List RedactedMessage
  pub max_tokens : ℕ
  pub temperature : ℕ
  pub tools : List String
  pub content : String
  pub tool_calls : List String
  pub finish_reason : String
  pub prompt_tokens : ℕ
  pub completion_tokens : ℕ
