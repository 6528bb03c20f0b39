-- ===== src/Llm/Calls.antt =====
-- `_invoke_chain` in backend/src/spidey/llm/application/gateway.py: the calls that reach a provider, with their
-- retries and the fallback along a chain. The world has the clock in milliseconds, the outbox, the captured
-- interactions, the ledger, the cache, and a log of those calls.
use spidey.Base.{
  ℕ, zero, suc, ◌+◌, String, Bool, Option, List, [], ◌∷◌, ◌++◌, ltb, if◌then◌else◌, str_concat,
}
use spidey.Base.Action.{Action, Result, ok, err, ◌>>=◌}
use spidey.Platform.Errors.{Error}
use spidey.Platform.Events.{EventEnvelope}
use spidey.Llm.Chat.{Role, role_value, ChatMessage, ChatRequest, ChatResponse}
use spidey.Llm.Routing.{
  ChatModel, Reply, response, transient, refused, crash, ProviderRegistry, RouteConfig, cost,
  primary, provider_value,
}
use spidey.Llm.Routing
use spidey.Llm.Capture.{Interaction}
use spidey.Llm.Ledger.{Limits, Spent, Cached}

-- How a write to Redis ends: it is answered, or it raises, before or after the server has taken it.
pub data Io : Type 0 where
  confirmed unreached unanswered : Io

module _ (Json : Type 0) where
  pub record Call : Type 0 where
    pub model : ChatModel Json
    pub reply : Reply Json

  pub record GatewayWorld : Type 0 where
    pub now : ℕ
    pub events : List EventEnvelope
    pub interactions : List Interaction
    pub ledger : List (String × Spent)
    pub cache : List (String × Cached Json)
    pub calls : List Call

  -- The collaborators that may be missing are options or tests. The digest is that of hashlib over the
  -- JSON document of the four values, the screen is `scrub_text`, and the time of a back-off is random.
  pub record Gateway : Type 0 where
    pub registry : ProviderRegistry Json
    pub publishes : Bool
    pub captures : Bool
    pub cache_ttl : Option ℕ
    pub limits : Option Limits
    pub max_retries : ℕ
    pub backoff : (attempt now : ℕ) → ℕ
    pub digest : (provider model : String) (max_tokens : ℕ) → List (ChatMessage Json) → String
    pub scrub : String → String
    -- Whether a read of the ledger or of the cache and the flush of a captured interaction succeed, and
    -- how the writes of the ledger and of the cache end, at a time.
    pub ledger_reads : (now : ℕ) → Bool
    pub cache_reads : (now : ℕ) → Bool
    pub flushes : (now : ℕ) → Bool
    pub charging : (now : ℕ) → Io
    pub caching : (now : ℕ) → Io

-- Whom a call is accounted to.
pub record Account : Type 0 where
  pub run_id : Option ℕ
  pub session_id : Option ℕ
  pub actor : Option ℕ
  pub budget_scope : Option String

pub data Tried (Json : Type 0) : Type 0 where
  answered : ChatResponse Json → Tried Json
  gave_up : Tried Json
  crashed : Error → Tried Json

abbrev pub all_failed : Role → Error
all_failed role =
    Error.service_unavailable
      (str_concat ("all providers failed for role '" ∷ role_value role ∷ "'" ∷ []))

module _ {Json : Type 0} (G : Gateway Json) where
  -- A call takes its time.
  unfoldable pub call :
      ChatModel Json → ChatRequest Json → GatewayWorld Json → Reply Json × GatewayWorld Json
  call m request w =
      let (reply, elapsed) = m.complete request w.now in
      (
        reply,
        record w {
          now = w.now + elapsed;
          calls = w.calls ++ (record { model = m; reply = reply } ∷ []);
        },
      )

  -- There is a pause after every transient failure but the last.
  abbrev pub sleep : (attempt : ℕ) → GatewayWorld Json → GatewayWorld Json
  sleep attempt w =
      if ltb attempt G.max_retries then record w { now = w.now + G.backoff attempt w.now } else w

  -- The attempts at one model, of which `rounds` are left.
  unfoldable pub try_model :
      (rounds attempt : ℕ)
      → ChatModel Json
      → ChatRequest Json
      → GatewayWorld Json
      → Tried Json × GatewayWorld Json
  unfolding call
  try_model zero attempt m request w = (gave_up, w)
  try_model (suc rounds) attempt m request w =
      let (reply, w') = call m request w in
      elim reply [
        | response r ↦ (answered r, w')
        | transient ↦ try_model rounds (attempt + 1) m request (sleep attempt w')
        | refused ↦ (gave_up, w')
        | crash e ↦ (crashed e, w')
      ]

  unfoldable pub walk_chain :
      Role
      → ChatRequest Json
      → List (ChatModel Json)
      → Action (GatewayWorld Json) (ChatResponse Json × ChatModel Json)
  unfolding try_model
  walk_chain role request [] w = (err (all_failed role), w)
  walk_chain role request (m ∷ ms) w =
      let (tried, w') = try_model (suc G.max_retries) 0 m request w in
      elim tried [
        | answered r ↦ (ok (r, m), w')
        | gave_up ↦ walk_chain role request ms w'
        | crashed e ↦ (err e, w')
      ]

  abbrev pub resolved : {A : Type 0} → Result A → Action (GatewayWorld Json) A
  resolved r w = (r, w)

  -- `_invoke_chain`
  unfoldable pub invoke_chain :
      Role → ChatRequest Json → Action (GatewayWorld Json) (ChatResponse Json × ChatModel Json)
  invoke_chain role request = do
    models ← resolved (Routing.chain G.registry role)
    walk_chain role request models
