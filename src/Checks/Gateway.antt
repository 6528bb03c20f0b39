-- ===== src/Checks/Gateway.antt =====
-- Runs of the model gateway (backend/src/spidey/llm) with a provider that fails at first.
use spidey.Base.{
  ◌≤◌, ◌+◌, ◌≡◌, refl, String, true, false, Option, none, some, [], ◌∷◌, ltb, if◌then◌else◌, arith,
}
use spidey.Base.Action.{ok}
use spidey.Platform.Errors.{Error}
use spidey.Llm.Chat.{
  Role, ChatRequest, ChatResponse, ChatChunk, FinishReason, MessageRole, user_message,
}
use spidey.Llm.Routing.{
  ChatModel, CapabilityManifest, ProviderName, ProviderRegistry, response, transient, refused, cost,
  chain, route,
}
use spidey.Llm.Ledger.{
  Limits, used_tokens, used_cost, would_exceed, record_usage, cache_get, cache_put,
}
use spidey.Llm.Calls.{
  confirmed, unanswered, Gateway, GatewayWorld, Account, walk_chain, try_model, call, invoke_chain,
}
use spidey.Llm.Gateway.{
  complete, check_budget, cache_key, settle, capture, meter, complete_uncached, spend, store_cache,
  read_cache,
}
use spidey.Llm.Gateway.Reports.{WalkReport}
use spidey.Llm.Gateway.Chain.{walk_chain-WalkReport}
use spidey.Llm.Gateway.Metering.{answered_hit}
use spidey.Llm.Gateway.Promises.{Trace, complete_err}
use spidey.Llm.Gateway.Spending.{used_tokens-complete}
use spidey.Llm.Gateway.Replay.{complete-complete}
use spidey.Llm.Streaming.{assemble, stream}
use spidey.Llm.Assembled.{stream-complete_uncached}

abbrev Json : Type 0
Json = Unit {0}

abbrev manifest : String → CapabilityManifest
manifest name = record {
  provider = "anthropic";
  model = name;
  supports_tools = true;
  supports_streaming = true;
  supports_vision = false;
  max_context_tokens = 1000;
  input_price_per_mtok = 3;
  output_price_per_mtok = 15;
}

abbrev reply_of : ChatResponse Json
reply_of = record {
  message = record {
    role = MessageRole.assistant;
    content = "yes";
    tool_calls = [];
    tool_call_id = none;
    name = none;
  };
  finish_reason = FinishReason.stop;
  usage = record { prompt_tokens = 20; completion_tokens = 4 };
  provider = "anthropic";
  model = "steady";
}

abbrev chunk : ChatChunk Json
chunk = record {
  text_delta = "yes";
  tool_call = none;
  usage = some (record { prompt_tokens = 20; completion_tokens = 4 });
  finish_reason = some FinishReason.stop;
}

-- It times out before the time 100, and refuses later.
abbrev flaky : ChatModel Json
flaky = record {
  manifest = manifest "flaky";
  complete = λ request now. (if ltb now 100 then transient else refused, 30);
  stream = λ request now. ([], some (Error.unhandled), 30);
}

abbrev steady : ChatModel Json
steady = record {
  manifest = manifest "steady";
  complete = λ request now. (response reply_of, 50);
  stream = λ request now. (chunk ∷ [], none, 50);
}

abbrev factory : ProviderName → Option (String → ChatModel Json)
factory ProviderName.anthropic = some (λ name. flaky)
factory ProviderName.openai_compatible = some (λ name. steady)
factory ProviderName.gemini = none

abbrev routed : (primary : ProviderName) → ProviderRegistry Json
routed primary = record {
  factories = factory;
  routes = λ role. some (record {
    provider = primary;
    model = "m";
    max_tokens = 64;
    temperature = 0;
    fallbacks =
        record { provider = ProviderName.gemini; model = "g" }
        ∷ record { provider = primary; model = "n" }
        ∷ [];
  });
}

abbrev limits : Limits
limits = record { max_tokens = 200; max_cost = 10_000; window = 1000 }

abbrev gateway : (primary : ProviderName) → Gateway Json
gateway primary = record {
  registry = routed primary;
  publishes = true;
  captures = true;
  cache_ttl = some 60;
  limits = some limits;
  max_retries = 2;
  backoff = λ attempt now. 5;
  digest = λ provider model max_tokens messages. model;
  scrub = λ s. s;
  ledger_reads = λ now. true;
  cache_reads = λ now. true;
  flushes = λ now. true;
  charging = λ now. confirmed;
  caching = λ now. confirmed;
}

abbrev working : Gateway Json
working = gateway ProviderName.openai_compatible

abbrev failing : Gateway Json
failing = gateway ProviderName.anthropic

abbrev question : ChatRequest Json
question = record {
  messages = user_message Json "well?" ∷ [];
  tools = [];
  max_tokens = 64;
  temperature = 0;
}

abbrev account : Account
account = record { run_id = some 1; session_id = none; actor = none; budget_scope = some "run:1" }

abbrev start : GatewayWorld Json
start = record { now = 1; events = []; interactions = []; ledger = []; cache = []; calls = [] }

walk_chain-WalkReport_example :
    WalkReport Role.chat 3
      (flaky ∷ steady ∷ [])
      (walk_chain working Role.chat question (flaky ∷ steady ∷ []) start).0
      start
      (walk_chain working Role.chat question (flaky ∷ steady ∷ []) start).1
walk_chain-WalkReport_example =
    walk_chain-WalkReport working Role.chat question (flaky ∷ steady ∷ []) start

-- The charge is made, and its answer is lost.
abbrev unheard : Gateway Json
unheard = record working { charging = λ now. unanswered }

complete_err_example :
    Trace unheard Role.chat question account start Error.unhandled
      (complete unheard Role.chat question account start).1
unfolding complete check_budget would_exceed used_tokens used_cost cache_key chain route cache_get
    read_cache complete_uncached invoke_chain walk_chain try_model call settle capture meter spend
    store_cache record_usage cache_put cost
complete_err_example = complete_err unheard Role.chat question account start Error.unhandled refl

used_tokens-complete_example :
    let w = (complete working Role.chat question account start).1 in
    used_tokens "run:1" w.now w.ledger ≤ 220
unfolding complete check_budget would_exceed used_tokens used_cost cache_key chain route cache_get
    complete_uncached invoke_chain walk_chain try_model call settle capture meter record_usage
    cache_put cost spend store_cache read_cache
used_tokens-complete_example =
    used_tokens-complete working limits refl Role.chat question account start reply_of "run:1" refl
      refl (omega arith)

complete-complete_example :
    let w = (complete working Role.chat question account start).1 in
    let later = record w { now = w.now + 59 } in
    complete working Role.chat question account later
    ≡ (ok reply_of, answered_hit working reply_of Role.chat account later)
unfolding complete check_budget would_exceed used_tokens used_cost cache_key chain route cache_get
    complete_uncached invoke_chain walk_chain try_model call settle capture meter record_usage
    cache_put cost spend store_cache read_cache
complete-complete_example =
    let w = (complete working Role.chat question account start).1 in
    complete-complete working 60 refl Role.chat question account account start
      (record w { now = w.now + 59 }) reply_of refl refl refl (λ e. absurd (ground (arith, e))) refl
      (omega arith) refl refl refl

stream-complete_uncached_example :
    let streamed = stream working Role.chat question account start in
    let completed = complete_uncached working Role.chat question account none start in
    (streamed.0 ≡ ok (chunk ∷ []))
    × (completed.0 ≡ ok (assemble working (chunk ∷ []) steady))
    × (streamed.1.events ≡ completed.1.events)
    × (streamed.1.interactions ≡ completed.1.interactions)
    × (streamed.1.ledger ≡ completed.1.ledger)
unfolding chain route would_exceed used_tokens used_cost assemble
stream-complete_uncached_example =
    stream-complete_uncached working Role.chat question account start steady (steady ∷ [])
      (chunk ∷ []) 50 refl refl refl refl refl refl refl
