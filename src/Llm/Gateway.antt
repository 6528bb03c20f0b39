-- ===== src/Llm/Gateway.antt =====
-- backend/src/spidey/llm/application/gateway.py and backend/src/spidey/llm/infrastructure/capture.py: the seam
-- that every model call passes, over the calls of Llm/Calls.
pub mod Reports
pub mod Chain
pub mod Settling
pub mod Metering
pub mod Promises
pub mod Spending
pub mod Replay
use spidey.Base.{
  ℕ, zero, suc, ◌+◌, ◌-◌, String, Bool, true, false, not, ◌&&◌, ◌||◌, Option, none, some, List, [],
  ◌∷◌, ◌++◌, ◌==◌, ltb, if◌then◌else◌, is_some, is_empty, map, length, str_concat, or_else,
}
use spidey.Base.Action.{
  Action, Result, ok, err, pure, raise, gets, raise_if, ◌>>=◌, ◌>>◌, modify, when,
}
use spidey.Platform.Errors.{Error}
use spidey.Platform.Events.{EventEnvelope, EventPayload, envelope_of}
use spidey.Llm.Chat
use spidey.Llm.Chat.{
  Role, role_value, message_role_value, finish_reason_value, MessageRole, FinishReason, ChatMessage,
  ChatRequest, ChatResponse, ChatChunk, Usage,
}
use spidey.Llm.Routing.{
  ChatModel, Reply, response, transient, refused, crash, ProviderRegistry, RouteConfig, cost,
  primary, provider_value,
}
use spidey.Llm.Routing
use spidey.Llm.Capture.{RedactedMessage, Interaction}
use spidey.Llm.Ledger.{Limits, Spent, Cached, would_exceed, record_usage, cache_get, cache_put}
use spidey.Llm.Calls.{
  Io, confirmed, unreached, unanswered, GatewayWorld, Call, Gateway, Account, Tried, answered,
  gave_up, crashed, all_failed, call, sleep, try_model, walk_chain, resolved, invoke_chain,
}

module _ {Json : Type 0} (G : Gateway Json) where
  -- A call of Redis or of the database that fails raises what nobody here handles.
  abbrev pub raise_at : (GatewayWorld Json → Bool) → Action (GatewayWorld Json) (Unit {0})
  raise_at failing w = if failing w then (err Error.unhandled, w) else (ok tt, w)

  abbrev pub write_io :
      Io → (GatewayWorld Json → GatewayWorld Json) → Action (GatewayWorld Json) (Unit {0})
  write_io confirmed f w = (ok tt, f w)
  write_io unreached f w = (err Error.unhandled, w)
  write_io unanswered f w = (err Error.unhandled, f w)

  abbrev pub asks_ledger : Option Limits → Option String → Bool
  asks_ledger none scope = false
  asks_ledger (some limits) none = false
  asks_ledger (some limits) (some scope) = true

  abbrev pub over_budget : Option Limits → Option String → ℕ → GatewayWorld Json → Bool
  over_budget none scope tokens w = false
  over_budget (some limits) none tokens w = false
  over_budget (some limits) (some scope) tokens w = would_exceed limits scope tokens w.now w.ledger

  abbrev pub exceeded : Option String → Error
  exceeded none = Error.rate_limited "budget exceeded for scope None"
  exceeded (some scope) =
      Error.rate_limited (str_concat ("budget exceeded for scope '" ∷ scope ∷ "'" ∷ []))

  unfoldable pub check_budget :
      Option String → ChatRequest Json → Action (GatewayWorld Json) (Unit {0})
  check_budget scope request = do
    raise_at (λ w. asks_ledger G.limits scope && not (G.ledger_reads w.now))
    over ← gets (over_budget G.limits scope request.max_tokens)
    raise_if over (exceeded scope)

  abbrev pub key_of : ChatRequest Json → RouteConfig → String
  key_of request r = str_concat (
      "llm:cache:"
      ∷ G.digest (provider_value (primary r).provider) (primary r).model request.max_tokens
          request.messages
      ∷ [])

  -- Only deterministic calls without tools have a key.
  unfoldable pub cache_key : Role → ChatRequest Json → Action (GatewayWorld Json) (Option String)
  cache_key role request =
      if not (request.temperature == 0) || not (is_empty request.tools)
      then pure none
      else do r ← resolved G (Routing.route G.registry role); pure (some (key_of request r))

  -- `_meter`
  abbrev pub metered :
      ChatResponse Json → Role → Account → (cost latency_ms : ℕ) → Option ℕ → Bool → EventEnvelope
  metered r role a cost latency_ms interaction_id cached =
      envelope_of
        (EventPayload.llm_call_completed r.provider r.model (role_value role) r.usage.prompt_tokens
          r.usage.completion_tokens latency_ms cost interaction_id cached)
        a.run_id a.session_id none a.actor none none

  abbrev pub add_event : EventEnvelope → GatewayWorld Json → GatewayWorld Json
  add_event e w = record w { events = w.events ++ (e ∷ []) }

  unfoldable pub meter :
      ChatResponse Json
      → Role
      → Account
      → (cost latency_ms : ℕ) → Option ℕ
      → Bool
      → Action (GatewayWorld Json) (Unit {0})
  meter r role a cost latency_ms interaction_id cached =
      when G.publishes (modify (add_event (metered r role a cost latency_ms interaction_id cached)))

  abbrev redact_message : ChatMessage Json → RedactedMessage
  redact_message m = record {
    role = message_role_value m.role;
    content = G.scrub m.content;
    tool_calls = map (λ t. t.name) m.tool_calls;
  }

  abbrev pub interaction_of :
      (id : ℕ) → Role → ChatRequest Json → ChatResponse Json → Option ℕ → Interaction
  interaction_of id role request r run_id = record {
    id = id;
    run_id = run_id;
    provider = r.provider;
    model = r.model;
    role = role_value role;
    messages = map redact_message request.messages;
    max_tokens = request.max_tokens;
    temperature = request.temperature;
    tools = map (λ t. t.name) request.tools;
    content = G.scrub r.message.content;
    tool_calls = map (λ t. t.name) r.message.tool_calls;
    finish_reason = finish_reason_value r.finish_reason;
    prompt_tokens = r.usage.prompt_tokens;
    completion_tokens = r.usage.completion_tokens;
  }

  -- `PostgresInteractionCapture.record`: the rows are numbered as they come.
  abbrev capture_if :
      Bool
      → Role
      → ChatRequest Json
      → ChatResponse Json
      → Option ℕ
      → Action (GatewayWorld Json) (Option ℕ)
  capture_if false role request r run_id w = (ok none, w)
  capture_if true role request r run_id w =
      let id = length w.interactions in
      (
        ok (some id),
        record w {
          interactions = w.interactions ++ (interaction_of id role request r run_id ∷ []);
        },
      )

  unfoldable pub capture :
      Role → ChatRequest Json → ChatResponse Json → Option ℕ → Action (GatewayWorld Json) (Option ℕ)
  capture role request r run_id = do
    raise_at (λ w. G.captures && not (G.flushes w.now))
    capture_if G.captures role request r run_id

  -- The charge of a scope, if there are a ledger and a scope.
  abbrev pub paid :
      Option Limits → Option String → Usage → ℕ → GatewayWorld Json → GatewayWorld Json
  paid none scope u cost w = w
  paid (some limits) none u cost w = w
  paid (some limits) (some scope) u cost w = record w {
    ledger = record_usage limits scope u cost w.now w.ledger;
  }

  unfoldable pub spend :
      Option Limits → Option String → Usage → ℕ → Action (GatewayWorld Json) (Unit {0})
  spend limits scope u cost w =
      if asks_ledger limits scope
      then write_io (G.charging w.now) (paid limits scope u cost) w
      else (ok tt, w)

  unfoldable pub settle :
      ChatResponse Json
      → ChatModel Json
      → Role
      → ChatRequest Json
      → (latency_ms : ℕ) → Account
      → Action (GatewayWorld Json) (Unit {0})
  settle r m role request latency_ms a = do
    let spent = cost m.manifest r.usage
    interaction_id ← capture role request r a.run_id
    meter r role a spent latency_ms interaction_id false
    spend G.limits a.budget_scope r.usage spent

  abbrev pub lookup_cache :
      Option ℕ → Option String → GatewayWorld Json → Option (ChatResponse Json)
  lookup_cache none key w = none
  lookup_cache (some ttl) none w = none
  lookup_cache (some ttl) (some key) w = cache_get key w.now w.cache

  abbrev pub asks_cache : Option ℕ → Option String → Bool
  asks_cache none key = false
  asks_cache (some ttl) none = false
  asks_cache (some ttl) (some key) = true

  unfoldable pub read_cache :
      Option String → Action (GatewayWorld Json) (Option (ChatResponse Json))
  read_cache key = do
    raise_at (λ w. asks_cache G.cache_ttl key && not (G.cache_reads w.now))
    gets (lookup_cache G.cache_ttl key)

  abbrev pub filed :
      Option ℕ → Option String → ChatResponse Json → GatewayWorld Json → GatewayWorld Json
  filed none key r w = w
  filed (some ttl) none r w = w
  filed (some ttl) (some key) r w = record w { cache = cache_put key r ttl w.now w.cache }

  unfoldable pub store_cache :
      Option ℕ → Option String → ChatResponse Json → Action (GatewayWorld Json) (Unit {0})
  store_cache ttl key r w =
      if asks_cache ttl key then write_io (G.caching w.now) (filed ttl key r) w else (ok tt, w)

  -- `complete` behind the walk of the chain.
  abbrev pub conclude_call :
      Role
      → ChatRequest Json
      → Account
      → Option String
      → (started : ℕ) → ChatResponse Json × ChatModel Json
      → Action (GatewayWorld Json) (ChatResponse Json)
  conclude_call role request a key started (r, m) = do
    finished ← gets (λ w. w.now)
    settle r m role request (finished - started) a
    store_cache G.cache_ttl key r
    pure r

  unfoldable pub complete_uncached :
      Role
      → ChatRequest Json
      → Account
      → Option String
      → Action (GatewayWorld Json) (ChatResponse Json)
  complete_uncached role request a key = do
    started ← gets (λ w. w.now)
    answer ← invoke_chain G role request
    conclude_call role request a key started answer

  abbrev pub or_complete :
      Role
      → ChatRequest Json
      → Account
      → Option String
      → Option (ChatResponse Json)
      → Action (GatewayWorld Json) (ChatResponse Json)
  or_complete role request a key none = complete_uncached role request a key
  or_complete role request a key (some hit) = do meter hit role a 0 0 none true; pure hit

  abbrev pub complete_keyed :
      Role
      → ChatRequest Json
      → Account
      → Option String
      → Action (GatewayWorld Json) (ChatResponse Json)
  complete_keyed role request a key = do hit ← read_cache key; or_complete role request a key hit

  abbrev pub complete_allowed :
      Role → ChatRequest Json → Account → Action (GatewayWorld Json) (ChatResponse Json)
  complete_allowed role request a = do
    key ← cache_key role request
    complete_keyed role request a key

  unfoldable pub complete :
      Role → ChatRequest Json → Account → Action (GatewayWorld Json) (ChatResponse Json)
  complete role request a = do check_budget a.budget_scope request; complete_allowed role request a
