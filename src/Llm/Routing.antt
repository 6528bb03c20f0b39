-- ===== src/Llm/Routing.antt =====
-- backend/src/spidey/llm/domain/routing.py, backend/src/spidey/llm/domain/capabilities.py, the `ChatModel`
-- port of backend/src/spidey/llm/domain/ports.py and the registry of
-- backend/src/spidey/llm/application/registry.py. A price is in millionths of a dollar per million
-- tokens, and a cost in millionths of those, so that the division by a million is exact.
use spidey.Base.{ℕ, ◌+◌, ◌*◌, String, Bool, Option, none, some, List, [], ◌∷◌, str_concat}
use spidey.Base.Action.{Result, ok, err}
use spidey.Platform.Errors.{Error}
use spidey.Llm.Chat.{Role, role_value, ChatRequest, ChatResponse, ChatChunk, Usage}

pub data ProviderName : Type 0 where
  anthropic openai_compatible gemini : ProviderName

abbrev pub provider_value : ProviderName → String
provider_value ProviderName.anthropic = "anthropic"
provider_value ProviderName.openai_compatible = "openai_compatible"
provider_value ProviderName.gemini = "gemini"

pub record ModelRef : Type 0 where
  pub provider : ProviderName
  pub model : String

pub record RouteConfig : Type 0 where
  pub provider : ProviderName
  pub model : String
  pub max_tokens : ℕ
  pub temperature : ℕ
  pub fallbacks : List ModelRef

abbrev pub primary : RouteConfig → ModelRef
primary r = record { provider = r.provider; model = r.model }

abbrev pub route_chain : RouteConfig → List ModelRef
route_chain r = primary r ∷ r.fallbacks

pub record CapabilityManifest : Type 0 where
  pub provider : String
  pub model : String
  pub supports_tools : Bool
  pub supports_streaming : Bool
  pub supports_vision : Bool
  pub max_context_tokens : ℕ
  pub input_price_per_mtok : ℕ
  pub output_price_per_mtok : ℕ

unfoldable pub cost : CapabilityManifest → Usage → ℕ
cost m u = u.prompt_tokens * m.input_price_per_mtok + u.completion_tokens * m.output_price_per_mtok

-- How a call of a provider ends: `TransientProviderError`, another `ProviderError`, or any other error.
pub data Reply (Json : Type 0) : Type 0 where
  response : ChatResponse Json → Reply Json
  transient refused : Reply Json
  crash : Error → Reply Json

-- A provider answers by the time of the call, and takes a time for it. A stream that breaks off has
-- an error behind its chunks.
pub record ChatModel (Json : Type 0) : Type 0 where
  pub manifest : CapabilityManifest
  pub complete : ChatRequest Json → (now : ℕ) → Reply Json × ℕ
  pub stream : ChatRequest Json → (now : ℕ) → List (ChatChunk Json) × Option Error × ℕ

-- A provider that is not configured has no factory.
pub record ProviderRegistry (Json : Type 0) : Type 0 where
  pub factories : ProviderName → Option (String → ChatModel Json)
  pub routes : Role → Option RouteConfig

module _ {Json : Type 0} (registry : ProviderRegistry Json) where
  unfoldable pub route : Role → Result RouteConfig
  route role = elim (registry.routes role) [
    | none ↦ err (
        Error.internal (str_concat ("no route configured for role '" ∷ role_value role ∷ "'" ∷ [])))
    | some r ↦ ok r
  ]

  abbrev pub build_one :
      ModelRef → Option (String → ChatModel Json) → List (ChatModel Json) → List (ChatModel Json)
  build_one ref none models = models
  build_one ref (some build) models = build ref.model ∷ models

  abbrev pub configured : List ModelRef → List (ChatModel Json)
  configured [] = []
  configured (ref ∷ refs) = build_one ref (registry.factories ref.provider) (configured refs)

  abbrev require_models : Role → List (ChatModel Json) → Result (List (ChatModel Json))
  require_models role [] = err (
      Error.internal
        (str_concat ("no configured provider for role '" ∷ role_value role ∷ "'" ∷ [])))
  require_models role (m ∷ ms) = ok (m ∷ ms)

  unfoldable pub chain : Role → Result (List (ChatModel Json))
  unfolding route
  chain role = elim (route role) [
    | ok r ↦ require_models role (configured (route_chain r))
    | err e ↦ err e
  ]
