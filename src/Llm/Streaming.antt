-- ===== src/Llm/Streaming.antt =====
-- backend/src/spidey/llm/application/gateway.py `stream` and `_assemble`.
use spidey.Base.{ℕ, ◌+◌, Option, none, some, List, [], ◌∷◌, map, str_concat, or_else}
use spidey.Base.Action.{Action, Result, ok, err, pure, raise, ◌>>=◌, ◌>>◌}
use spidey.Platform.Errors.{Error}
use spidey.Llm.Chat.{Role, MessageRole, FinishReason, ChatRequest, ChatResponse, ChatChunk}
use spidey.Llm.Routing
use spidey.Llm.Routing.{ChatModel}
use spidey.Llm.Calls.{Gateway, GatewayWorld, Account, resolved}
use spidey.Llm.Gateway.{settle, check_budget}

module _ {Json : Type 0} (G : Gateway Json) where
  -- `_assemble`: the text and the tool calls of the chunks, and the last usage and finish reason.
  abbrev pub last_some : {A B : Type 0} → (A → Option B) → List A → Option B
  last_some f [] = none
  last_some f (x ∷ xs) = or_else (last_some f xs) (f x)

  abbrev pub all_some : {A B : Type 0} → (A → Option B) → List A → List B
  all_some f [] = []
  all_some f (x ∷ xs) = elim (f x) [ none ↦ all_some f xs | some b ↦ b ∷ all_some f xs ]

  abbrev pub option_or : {A : Type 0} → Option A → A → A
  option_or none a = a
  option_or (some b) a = b

  unfoldable pub assemble : List (ChatChunk Json) → ChatModel Json → ChatResponse Json
  assemble chunks m = record {
    message = record {
      role = MessageRole.assistant;
      content = str_concat (map (λ c. c.text_delta) chunks);
      tool_calls = all_some (λ c. c.tool_call) chunks;
      tool_call_id = none;
      name = none;
    };
    finish_reason = option_or (last_some (λ c. c.finish_reason) chunks) FinishReason.stop;
    usage =
        option_or (last_some (λ c. c.usage) chunks)
          (record { prompt_tokens = 0; completion_tokens = 0 });
    provider = m.manifest.provider;
    model = m.manifest.model;
  }

  abbrev pub first_of : List (ChatModel Json) → Result (ChatModel Json)
  first_of [] = err Error.unhandled
  first_of (m ∷ _) = ok m

  abbrev pub finish_stream :
      ChatModel Json
      → Role
      → ChatRequest Json
      → Account
      → (latency_ms : ℕ) → List (ChatChunk Json)
      → Option Error
      → Action (GatewayWorld Json) (List (ChatChunk Json))
  finish_stream m role request a latency_ms chunks (some e) = raise e
  finish_stream m role request a latency_ms chunks none = do
    settle G (assemble chunks m) m role request latency_ms a
    pure chunks

  -- The chunks of one model's stream, consumed to the end or to its error.
  abbrev pub run_stream :
      ChatModel Json
      → Role
      → ChatRequest Json
      → Account
      → Action (GatewayWorld Json) (List (ChatChunk Json))
  run_stream m role request a w =
      let (chunks, broken, elapsed) = m.stream request w.now in
      finish_stream m role request a elapsed chunks broken (record w { now = w.now + elapsed })

  abbrev pub stream_first :
      Role
      → ChatRequest Json
      → Account
      → List (ChatModel Json)
      → Action (GatewayWorld Json) (List (ChatChunk Json))
  stream_first role request a models = do
    m ← resolved G (first_of models)
    run_stream m role request a

  unfoldable pub stream :
      Role → ChatRequest Json → Account → Action (GatewayWorld Json) (List (ChatChunk Json))
  stream role request a = do
    check_budget G a.budget_scope request
    models ← resolved G (Routing.chain G.registry role)
    stream_first role request a models
