-- ===== src/Llm/Chat.antt =====
-- backend/src/spidey/llm/domain/chat.py: messages, requests and responses of a model call. The
-- arguments of a tool call and its schema are JSON documents.
use spidey.Base.{ℕ, String, Option, none, some, List, [], ◌+◌}

pub data Role : Type 0 where
  planner coder reviewer debugger documenter summarizer chat : Role

pub data MessageRole : Type 0 where
  system user assistant tool : MessageRole

pub data FinishReason : Type 0 where
  stop tool_use length content_filter : FinishReason

abbrev pub role_value : Role → String
role_value Role.planner = "planner"
role_value Role.coder = "coder"
role_value Role.reviewer = "reviewer"
role_value Role.debugger = "debugger"
role_value Role.documenter = "documenter"
role_value Role.summarizer = "summarizer"
role_value Role.chat = "chat"

abbrev pub message_role_value : MessageRole → String
message_role_value MessageRole.system = "system"
message_role_value MessageRole.user = "user"
message_role_value MessageRole.assistant = "assistant"
message_role_value MessageRole.tool = "tool"

abbrev pub finish_reason_value : FinishReason → String
finish_reason_value FinishReason.stop = "stop"
finish_reason_value FinishReason.tool_use = "tool_use"
finish_reason_value FinishReason.length = "length"
finish_reason_value FinishReason.content_filter = "content_filter"

module _ (Json : Type 0) where
  pub record ToolSchema : Type 0 where
    pub name : String
    pub description : String
    pub input_schema : Json

  pub record ToolCall : Type 0 where
    pub id : String
    pub name : String
    pub arguments : Json

  pub record ChatMessage : Type 0 where
    pub role : MessageRole
    pub content : String
    pub tool_calls : List ToolCall
    pub tool_call_id : Option String
    pub name : Option String

  -- `ChatMessage.system`, `user` and `tool_result`
  abbrev pub system_message : String → ChatMessage
  system_message content = record {
    role = MessageRole.system;
    content = content;
    tool_calls = [];
    tool_call_id = none;
    name = none;
  }

  abbrev pub user_message : String → ChatMessage
  user_message content = record {
    role = MessageRole.user;
    content = content;
    tool_calls = [];
    tool_call_id = none;
    name = none;
  }

  abbrev pub tool_result : (tool_call_id name content : String) → ChatMessage
  tool_result id name content = record {
    role = MessageRole.tool;
    content = content;
    tool_calls = [];
    tool_call_id = some id;
    name = some name;
  }

  -- The temperature is in hundredths.
  pub record ChatRequest : Type 0 where
    pub messages : List ChatMessage
    pub tools : List ToolSchema
    pub max_tokens : ℕ
    pub temperature : ℕ

pub record Usage : Type 0 where
  pub prompt_tokens : ℕ
  pub completion_tokens : ℕ

abbrev pub total_tokens : Usage → ℕ
total_tokens u = u.prompt_tokens + u.completion_tokens

pub record ChatResponse (Json : Type 0) : Type 0 where
  pub message : ChatMessage Json
  pub finish_reason : FinishReason
  pub usage : Usage
  pub provider : String
  pub model : String

-- `ChatResponse.text`
abbrev pub text : {Json : Type 0} → ChatResponse Json → String
text r = r.message.content

-- A delta of a stream.
pub record ChatChunk (Json : Type 0) : Type 0 where
  pub text_delta : String
  pub tool_call : Option (ToolCall Json)
  pub usage : Option Usage
  pub finish_reason : Option FinishReason
