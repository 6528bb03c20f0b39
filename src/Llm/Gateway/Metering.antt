-- ===== src/Llm/Gateway/Metering.antt =====
-- How a completion ends, and what it leaves in the books.
use spidey.Base.{
  ℕ, ◌-◌, ◌≡◌, refl, sym, subst, ◌∙◌, String, true, false, Option, none, some, List, ◌++◌, Bool,
  Bool-cases, Option-cases, inl, inr, arith, is_empty, not, ◌&&◌, ◌||◌, ◌==◌, ◌⊎◌,
}
use mathlib.Core.List.{append-nil}
use spidey.Base.Action.{Action, Result, ok, err, pure, gets, raise_if, ◌>>=◌}
use spidey.Base.Action.Rules.{>>=-ok, >>=-err}
use spidey.Platform.Errors.{Error}
use spidey.Llm.Chat.{Role, ChatRequest, ChatResponse}
use spidey.Llm.Routing.{ChatModel, response, cost}
use spidey.Llm.Routing
use spidey.Llm.Calls.{confirmed, Gateway, GatewayWorld, Account, walk_chain, invoke_chain}
use spidey.Llm.Gateway.{
  asks_ledger, asks_cache, read_cache, raise_at, over_budget, exceeded, check_budget, key_of,
  cache_key, metered, meter, settle, lookup_cache, store_cache, complete_uncached, or_complete,
  complete, complete_allowed, complete_keyed, conclude_call,
}
use spidey.Llm.Gateway.Settling.{
  published, booked, closed, Stage, Concluded, given, filed_with, settle_lem,
  conclude_call-Concluded, raise_at-true, raise_at-false,
}

module _ {Json : Type 0} (G : Gateway Json) where
  abbrev pub answered_hit :
      ChatResponse Json → Role → Account → GatewayWorld Json → GatewayWorld Json
  answered_hit r role a w = record w {
    events = w.events ++ published G (metered G r role a 0 0 none true);
  }

  -- How a completion ends.
  pub data Completion (role : Role) (request : ChatRequest Json) (a : Account)
      (w : GatewayWorld Json) : Result (ChatResponse Json) → GatewayWorld Json → Type 0 where
    -- The budget forbids it.
    denied :
        over_budget G G.limits a.budget_scope request.max_tokens w ≡ true
        → Completion role request a w (err (exceeded G a.budget_scope)) w
    -- It raises before it reaches a provider: the role has no route, no provider of its route is
    -- configured, or the ledger or the cache cannot be read.
    misrouted : (e : Error) → Completion role request a w (err e) w
    -- The cache has the answer.
    hit :
        (key : Option String) (r : ChatResponse Json)
        → over_budget G G.limits a.budget_scope request.max_tokens w ≡ false
        → cache_key G role request w ≡ (ok key, w)
        → lookup_cache G G.cache_ttl key w ≡ some r
        → Completion role request a w (ok r) (answered_hit r role a w)
    -- No model of the chain answers.
    failed :
        (e : Error) (ms : List (ChatModel Json)) (w1 : GatewayWorld Json)
        → Routing.chain G.registry role ≡ ok ms
        → walk_chain G role request ms w ≡ (err e, w1)
        → Completion role request a w (err e) w1
    -- A model answers, and the database or Redis fails behind it.
    unsettled :
        (key : Option String) (ms : List (ChatModel Json)) (r : ChatResponse Json)
        (m : ChatModel Json) (w1 v : GatewayWorld Json)
        → over_budget G G.limits a.budget_scope request.max_tokens w ≡ false
        → cache_key G role request w ≡ (ok key, w)
        → lookup_cache G G.cache_ttl key w ≡ none
        → walk_chain G role request ms w ≡ (ok (r, m), w1)
        → Stage G r m role request a key w w1 v
        → Completion role request a w (err Error.unhandled) v
    -- A model answers.
    fresh :
        (key : Option String) (ms : List (ChatModel Json)) (r : ChatResponse Json)
        (m : ChatModel Json) (w1 : GatewayWorld Json)
        → over_budget G G.limits a.budget_scope request.max_tokens w ≡ false
        → cache_key G role request w ≡ (ok key, w)
        → lookup_cache G G.cache_ttl key w ≡ none
        → Routing.chain G.registry role ≡ ok ms
        → walk_chain G role request ms w ≡ (ok (r, m), w1)
        → Completion role request a w (ok r) (closed G r m role request a key w w1)

  pub Result-cases :
      {A : Type 0} (x : Result A) → ((e : Error) × (x ≡ err e)) ⊎ ((b : A) × (x ≡ ok b))
  Result-cases (ok b) = inr (b, refl)
  Result-cases (err e) = inl (e, refl)

  complete_uncached_answered :
      (role : Role) (request : ChatRequest Json) (a : Account) (key : Option String)
      (w w1 : GatewayWorld Json) (r : ChatResponse Json) (m : ChatModel Json)
      → invoke_chain G role request w ≡ (ok (r, m), w1)
      → complete_uncached G role request a key w
        ≡ conclude_call G role request a key w.now (r, m) w1
  unfolding complete_uncached
  complete_uncached_answered role request a key w w1 r m e =
      >>=-ok (invoke_chain G role request) (conclude_call G role request a key w.now) w e

  store_none :
      (ttl : Option ℕ) (r : ChatResponse Json) (w : GatewayWorld Json)
      → store_cache G ttl none r w ≡ (ok tt, w)
  unfolding store_cache
  store_none none r w = refl
  store_none (some ttl) r w = refl

  -- Where the database and the ledger answer, a completion without a key returns what the model said.
  pub complete_uncached_lem :
      (role : Role) (request : ChatRequest Json) (a : Account) (w w1 : GatewayWorld Json)
      (r : ChatResponse Json) (m : ChatModel Json)
      → invoke_chain G role request w ≡ (ok (r, m), w1)
      → G.flushes w1.now ≡ true
      → G.charging w1.now ≡ confirmed
      → complete_uncached G role request a none w
        ≡ (ok r, booked G r m role request (w1.now - w.now) a w1)
  complete_uncached_lem role request a w w1 r m e f c =
      let v = booked G r m role request (w1.now - w.now) a w1 in
      complete_uncached_answered role request a none w w1 r m e
      ∙ >>=-ok (settle G r m role request (w1.now - w.now) a) (filed_with G r none) w1
          (settle_lem G r m role request (w1.now - w.now) a w1 f c)
      ∙ >>=-ok (store_cache G G.cache_ttl none r) (given G r) v (store_none G.cache_ttl r v)

  concluded-Completion :
      (role : Role) (request : ChatRequest Json) (a : Account) (key : Option String)
      (ms : List (ChatModel Json)) (w w1 : GatewayWorld Json) (r : ChatResponse Json)
      (m : ChatModel Json) {p : Result (ChatResponse Json) × GatewayWorld Json}
      → over_budget G G.limits a.budget_scope request.max_tokens w ≡ false
      → cache_key G role request w ≡ (ok key, w)
      → lookup_cache G G.cache_ttl key w ≡ none
      → Routing.chain G.registry role ≡ ok ms
      → walk_chain G role request ms w ≡ (ok (r, m), w1)
      → Concluded G r m role request a key w w1 p
      → Completion role request a w p.0 p.1
  concluded-Completion role request a key ms w w1 r m b k l c walk Concluded.all_closed =
      Completion.fresh key ms r m w1 b k l c walk
  concluded-Completion role request a key ms w w1 r m b k l c walk (Concluded.broke {v} s) =
      Completion.unsettled key ms r m w1 v b k l walk s

  complete_uncached_err :
      (role : Role) (request : ChatRequest Json) (a : Account) (key : Option String)
      (w w1 : GatewayWorld Json) (x : Error)
      → invoke_chain G role request w ≡ (err x, w1)
      → complete_uncached G role request a key w ≡ (err x, w1)
  unfolding complete_uncached
  complete_uncached_err role request a key w w1 x e =
      >>=-err (invoke_chain G role request) (conclude_call G role request a key w.now) w e

  uncached :
      (role : Role) (request : ChatRequest Json) (a : Account) (key : Option String)
      (w : GatewayWorld Json)
      → over_budget G G.limits a.budget_scope request.max_tokens w ≡ false
      → cache_key G role request w ≡ (ok key, w)
      → lookup_cache G G.cache_ttl key w ≡ none
      → Completion role request a w
          (complete_uncached G role request a key w).0
          (complete_uncached G role request a key w).1
  unfolding invoke_chain
  uncached role request a key w b k l = elim (Result-cases (Routing.chain G.registry role)) [
    | inl (x, c) ↦
        rw (complete_uncached_err role request a key w w x (rw c refl)) (Completion.misrouted x)
    | inr (ms, c) ↦
        let (y, w1) = walk_chain G role request ms w in
        elim (Result-cases (walk_chain G role request ms w).0) [
          | inl (x, q) ↦
              let walk : walk_chain G role request ms w ≡ (err x, w1) = ground (arith, q) in
              rw (complete_uncached_err role request a key w w1 x (rw (c) walk))
                (Completion.failed x ms w1 c walk)
          | inr ((r, m), q) ↦
              let walk : walk_chain G role request ms w ≡ (ok (r, m), w1) = ground (arith, q) in
              rw (complete_uncached_answered role request a key w w1 r m (rw (c) walk)) (
                concluded-Completion role request a key ms w w1 r m b k l c walk
                  (conclude_call-Concluded G r m role request a key w w1))
        ]
  ]

  ended :
      {role : Role} {request : ChatRequest Json} {a : Account} {w : GatewayWorld Json}
      {x y : Result (ChatResponse Json) × GatewayWorld Json}
      → x ≡ y
      → Completion role request a w y.0 y.1
      → Completion role request a w x.0 x.1
  ended {role} {request} {a} {w} e c =
      subst
        (λ (z : Result (ChatResponse Json) × GatewayWorld Json).
          Completion role request a w z.0 z.1)
        (sym e) c

  pub meter_lem :
      (r : ChatResponse Json) (role : Role) (a : Account) (w : GatewayWorld Json)
      → meter G r role a 0 0 none true w ≡ (ok tt, answered_hit r role a w)
  unfolding meter
  meter_lem r role a w = elim (Bool-cases G.publishes) [
    | inl p ↦ rw p refl
    | inr p ↦ rw (p, append-nil) refl
  ]

  abbrev pub unread : Option String → GatewayWorld Json → Bool
  unread key w = asks_cache G G.cache_ttl key && not (G.cache_reads w.now)

  pub read_cache_lem :
      (key : Option String) (w : GatewayWorld Json)
      → unread key w ≡ false
      → read_cache G key w ≡ (ok (lookup_cache G G.cache_ttl key w), w)
  unfolding read_cache
  read_cache_lem key w u =
      >>=-ok (raise_at G (unread key)) (λ (_ : Unit {0}). gets (lookup_cache G G.cache_ttl key)) w
        (raise_at-false G (unread key) w u)

  read_cache_err :
      (key : Option String) (w : GatewayWorld Json)
      → unread key w ≡ true
      → read_cache G key w ≡ (err Error.unhandled, w)
  unfolding read_cache
  read_cache_err key w u =
      >>=-err (raise_at G (unread key)) (λ (_ : Unit {0}). gets (lookup_cache G G.cache_ttl key)) w
        (raise_at-true G (unread key) w u)

  looked_up :
      (role : Role) (request : ChatRequest Json) (a : Account) (key : Option String)
      (w : GatewayWorld Json)
      → over_budget G G.limits a.budget_scope request.max_tokens w ≡ false
      → cache_key G role request w ≡ (ok key, w)
      → let x = or_complete G role request a key (lookup_cache G G.cache_ttl key w) w in
        Completion role request a w x.0 x.1
  looked_up role request a key w b k = elim (Option-cases (lookup_cache G G.cache_ttl key w)) [
    | inl l ↦ rw l (uncached role request a key w b k l)
    | inr (r, l) ↦ rw l (
        ended (>>=-ok (meter G r role a 0 0 none true) (λ _. pure r) w (meter_lem r role a w))
          (Completion.hit key r b k l))
  ]

  served :
      (role : Role) (request : ChatRequest Json) (a : Account) (key : Option String)
      (w : GatewayWorld Json)
      → over_budget G G.limits a.budget_scope request.max_tokens w ≡ false
      → cache_key G role request w ≡ (ok key, w)
      → let x = complete_keyed G role request a key w in Completion role request a w x.0 x.1
  served role request a key w b k = elim (Bool-cases (unread key w)) [
    | inl u ↦
        ended
          (>>=-err (read_cache G key) (or_complete G role request a key) w (read_cache_err key w u))
          (Completion.misrouted Error.unhandled)
    | inr u ↦
        ended
          (>>=-ok (read_cache G key) (or_complete G role request a key) w (read_cache_lem key w u))
          (looked_up role request a key w b k)
  ]

  cache_key-cases :
      (role : Role) (request : ChatRequest Json) (w : GatewayWorld Json)
      → ((e : Error) × (cache_key G role request w ≡ (err e, w)))
        ⊎ ((key : Option String) × (cache_key G role request w ≡ (ok key, w)))
  unfolding cache_key
  cache_key-cases role request w =
      elim (Bool-cases (not (request.temperature == 0) || not (is_empty request.tools))) [
        | inl n ↦ inr (none, rw n refl)
        | inr y ↦ elim (Result-cases (Routing.route G.registry role)) [
          | inl (e, c) ↦ inl (e, rw (y, c) refl)
          | inr (x, c) ↦ inr (some (key_of G request x), rw (y, c) refl)
        ]
      ]

  abbrev pub unledgered : Account → GatewayWorld Json → Bool
  unledgered a w = asks_ledger G G.limits a.budget_scope && not (G.ledger_reads w.now)

  abbrev weighed : ChatRequest Json → Account → Unit {0} → Action (GatewayWorld Json) (Unit {0})
  weighed request a _ = do
    over ← gets (over_budget G G.limits a.budget_scope request.max_tokens)
    raise_if over (exceeded G a.budget_scope)

  check_budget_unread :
      (request : ChatRequest Json) (a : Account) (w : GatewayWorld Json)
      → unledgered a w ≡ true
      → check_budget G a.budget_scope request w ≡ (err Error.unhandled, w)
  unfolding check_budget
  check_budget_unread request a w u =
      >>=-err (raise_at G (unledgered a)) (weighed request a) w (raise_at-true G (unledgered a) w u)

  check_budget_err :
      (request : ChatRequest Json) (a : Account) (w : GatewayWorld Json)
      → unledgered a w ≡ false
      → over_budget G G.limits a.budget_scope request.max_tokens w ≡ true
      → check_budget G a.budget_scope request w ≡ (err (exceeded G a.budget_scope), w)
  unfolding check_budget
  check_budget_err request a w u o =
      >>=-ok (raise_at G (unledgered a)) (weighed request a) w (raise_at-false G (unledgered a) w u)
      ∙ rw o refl

  pub check_budget_ok :
      (request : ChatRequest Json) (a : Account) (w : GatewayWorld Json)
      → unledgered a w ≡ false
      → over_budget G G.limits a.budget_scope request.max_tokens w ≡ false
      → check_budget G a.budget_scope request w ≡ (ok tt, w)
  unfolding check_budget
  check_budget_ok request a w u o =
      >>=-ok (raise_at G (unledgered a)) (weighed request a) w (raise_at-false G (unledgered a) w u)
      ∙ rw o refl

  permitted :
      (role : Role) (request : ChatRequest Json) (a : Account) (w : GatewayWorld Json)
      → over_budget G G.limits a.budget_scope request.max_tokens w ≡ false
      → let x = complete_allowed G role request a w in Completion role request a w x.0 x.1
  permitted role request a w b = elim (cache_key-cases role request w) [
    | inl (e, k) ↦
        ended (>>=-err (cache_key G role request) (complete_keyed G role request a) w k)
          (Completion.misrouted e)
    | inr (key, k) ↦
        ended (>>=-ok (cache_key G role request) (complete_keyed G role request a) w k)
          (served role request a key w b k)
  ]

  -- Every completion ends in one of these ways, with exactly these books.
  pub complete-Completion :
      (role : Role) (request : ChatRequest Json) (a : Account) (w : GatewayWorld Json)
      → Completion role request a w (complete G role request a w).0 (complete G role request a w).1
  unfolding complete
  complete-Completion role request a w =
      let rest = λ (_ : Unit {0}). complete_allowed G role request a in
      let check = check_budget G a.budget_scope request in
      elim (Bool-cases (unledgered a w)) [
        | inl u ↦
            ended (>>=-err check rest w (check_budget_unread request a w u))
              (Completion.misrouted Error.unhandled)
        | inr u ↦ elim (Bool-cases (over_budget G G.limits a.budget_scope request.max_tokens w)) [
          | inl o ↦
              ended (>>=-err check rest w (check_budget_err request a w u o)) (Completion.denied o)
          | inr b ↦
              ended (>>=-ok check rest w (check_budget_ok request a w u b))
                (permitted role request a w b)
        ]
      ]
