-- ===== src/Llm/Ledger.antt =====
-- backend/src/spidey/llm/infrastructure/budget.py and backend/src/spidey/llm/infrastructure/cache.py: the
-- budgets of scopes and the cached responses, as keys with their times of expiry. The two counters of a
-- scope expire together, since one pipeline writes both.
use spidey.Base.{ℕ, ◌+◌, String, Bool, ◌||◌, Option, none, some, List, ltb, leb, if◌then◌else◌}
use spidey.Identity.Lockout.{look, set_key}
use spidey.Llm.Chat.{Usage, total_tokens, ChatResponse}

pub record Spent : Type 0 where
  pub tokens : ℕ
  pub cost : ℕ
  pub until : ℕ

pub record Limits : Type 0 where
  pub max_tokens : ℕ
  pub max_cost : ℕ
  pub window : ℕ

abbrev pub live_tokens : ℕ → Option Spent → ℕ
live_tokens now none = 0
live_tokens now (some s) = if ltb now s.until then s.tokens else 0

abbrev pub live_cost : ℕ → Option Spent → ℕ
live_cost now none = 0
live_cost now (some s) = if ltb now s.until then s.cost else 0

-- What a scope has used in its running window.
unfoldable pub used_tokens : (scope : String) (now : ℕ) → List (String × Spent) → ℕ
used_tokens scope now l = live_tokens now (look scope l)

unfoldable pub used_cost : (scope : String) (now : ℕ) → List (String × Spent) → ℕ
used_cost scope now l = live_cost now (look scope l)

unfoldable pub would_exceed :
    Limits → (scope : String) (tokens now : ℕ) → List (String × Spent) → Bool
unfolding used_tokens used_cost
would_exceed limits scope tokens now l =
    ltb limits.max_tokens (used_tokens scope now l + tokens)
    || leb limits.max_cost (used_cost scope now l)

-- INCRBY on a key that has expired starts at 0; EXPIRE begins a new window.
unfoldable pub record_usage :
    Limits
    → (scope : String) → Usage
    → (cost now : ℕ) → List (String × Spent)
    → List (String × Spent)
unfolding used_tokens used_cost
record_usage limits scope usage cost now l =
    set_key scope
      (record {
        tokens = used_tokens scope now l + total_tokens usage;
        cost = used_cost scope now l + cost;
        until = now + limits.window;
      })
      l

pub record Cached (Json : Type 0) : Type 0 where
  pub response : ChatResponse Json
  pub until : ℕ

module _ {Json : Type 0} where
  abbrev pub live_response : ℕ → Option (Cached Json) → Option (ChatResponse Json)
  live_response now none = none
  live_response now (some c) = if ltb now c.until then some c.response else none

  unfoldable pub cache_get :
      (key : String) (now : ℕ) → List (String × Cached Json) → Option (ChatResponse Json)
  cache_get key now cache = live_response now (look key cache)

  unfoldable pub cache_put :
      (key : String)
      → ChatResponse Json
      → (ttl now : ℕ) → List (String × Cached Json)
      → List (String × Cached Json)
  cache_put key r ttl now cache = set_key key (record { response = r; until = now + ttl }) cache
