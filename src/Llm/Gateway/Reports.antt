-- ===== src/Llm/Gateway/Reports.antt =====
-- What is said of the calls that a walk of a role's chain makes.
use spidey.Base.{ℕ, ◌+◌, ◌≤◌, ◌≡◌, ◌∙◌, Bool, true, false, List, [], ◌∷◌, ◌++◌, length, All}
use spidey.Base.Action.{Result, ok, err}
use spidey.Platform.Errors.{Error}
use spidey.Llm.Chat.{Role, ChatResponse}
use spidey.Llm.Routing.{ChatModel, Reply, response, transient, refused, crash}
use spidey.Llm.Calls.{GatewayWorld, Call, Tried, answered, gave_up, crashed, all_failed}

abbrev pub is_failure : {Json : Type 0} → Reply Json → Bool
is_failure transient = true
is_failure refused = true
is_failure (response r) = false
is_failure (crash e) = false

abbrev pub Failures : {Json : Type 0} → List (Call Json) → Type 0
Failures = All (λ c. is_failure c.reply ≡ true)

-- Only the clock and the log of calls move.
pub record SameBooks {Json : Type 0} (w w' : GatewayWorld Json) : Type 0 where
  pub events : w'.events ≡ w.events
  pub interactions : w'.interactions ≡ w.interactions
  pub ledger : w'.ledger ≡ w.ledger
  pub cache : w'.cache ≡ w.cache

pub SameBooks-trans :
    {Json : Type 0} {u v w : GatewayWorld Json} → SameBooks u v → SameBooks v w → SameBooks u w
SameBooks-trans a b = record {
  events = b.events ∙ a.events;
  interactions = b.interactions ∙ a.interactions;
  ledger = b.ledger ∙ a.ledger;
  cache = b.cache ∙ a.cache;
}

module _ {Json : Type 0} where
  -- The attempts at one model: failures, and then its answer, nothing or another error.
  pub data Tries (m : ChatModel Json) : Tried Json → List (Call Json) → Type 0 where
    answer :
        (r : ChatResponse Json)
        → Tries m (answered r) (record { model = m; reply = response r } ∷ [])
    nothing : Tries m gave_up []
    error : (e : Error) → Tries m (crashed e) (record { model = m; reply = crash e } ∷ [])

  -- The calls of a walk: failures, and then the answer that is returned, nothing if all models failed,
  -- or another error that is passed on.
  pub data Walk (role : Role)
      : Result (ChatResponse Json × ChatModel Json) → List (Call Json) → Type 0 where
    answer :
        (m : ChatModel Json) (r : ChatResponse Json)
        → Walk role (ok (r, m)) (record { model = m; reply = response r } ∷ [])
    exhausted : Walk role (err (all_failed role)) []
    error :
        (m : ChatModel Json) (e : Error)
        → Walk role (err e) (record { model = m; reply = crash e } ∷ [])

  pub record TryReport (m : ChatModel Json) (rounds : ℕ) (tried : Tried Json)
      (w w' : GatewayWorld Json) : Type 0 where
    pub early : List (Call Json)
    pub failures : Failures early
    pub last : List (Call Json)
    pub shape : Tries m tried last
    pub logged : w'.calls ≡ w.calls ++ (early ++ last)
    pub bound : length early + length last ≤ rounds
    pub called : 1 ≤ rounds → 1 ≤ length early + length last
    pub own : All (λ c. c.model ≡ m) (early ++ last)
    pub books : SameBooks w w'
    pub later : w.now ≤ w'.now

  -- The calls of models one after another, each called at least once and at most `most` times.
  pub data Runs (most : ℕ) : List (ChatModel Json) → List (Call Json) → Type 0 where
    stop : Runs most [] []
    run :
        (m : ChatModel Json) (here : List (Call Json)) {ms : List (ChatModel Json)}
        {cs : List (Call Json)}
        → All (λ c. c.model ≡ m) here
        → 1 ≤ length here
        → length here ≤ most
        → Runs most ms cs
        → Runs most (m ∷ ms) (here ++ cs)

  pub record WalkReport (role : Role) (most : ℕ) (ms : List (ChatModel Json))
      (result : Result (ChatResponse Json × ChatModel Json)) (w w' : GatewayWorld Json)
      : Type 0 where
    pub early : List (Call Json)
    pub failures : Failures early
    pub last : List (Call Json)
    pub shape : Walk role result last
    pub logged : w'.calls ≡ w.calls ++ (early ++ last)
    pub visited : List (ChatModel Json)
    pub rest : List (ChatModel Json)
    pub split : visited ++ rest ≡ ms
    pub runs : Runs most visited (early ++ last)
    pub whole : last ≡ [] → rest ≡ []
    pub books : SameBooks w w'
    pub later : w.now ≤ w'.now

  abbrev pub after : ChatModel Json → Reply Json → ℕ → GatewayWorld Json → GatewayWorld Json
  after m reply t w = record w {
    now = t;
    calls = w.calls ++ (record { model = m; reply = reply } ∷ []);
  }
