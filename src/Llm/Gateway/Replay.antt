-- ===== src/Llm/Gateway/Replay.antt =====
-- A response that was cached is given again.
use spidey.Base.{
  ℕ, ◌-◌, ◌<◌, ◌+◌, ◌≡◌, refl, sym, ap, subst, ◌∙◌, true, false, not, ◌||◌, ◌==◌, String, Option,
  none, some, List, [], arith, is_empty, inl, inr, eq_refl,
}
use spidey.Base.Action.{Result, ok, err, pure}
use spidey.Base.Action.Rules.{>>=-ok}
use spidey.Llm.Chat.{Role, ChatRequest, ChatResponse}
use spidey.Llm.Routing
use spidey.Llm.Routing.{RouteConfig, cost}
use spidey.Llm.Ledger.{Cached, cache_get, cache_put}
use spidey.Llm.Calls.{Gateway, GatewayWorld, Account}
use spidey.Llm.Gateway.{
  over_budget, cache_key, key_of, lookup_cache, filed, read_cache, complete, check_budget,
  complete_allowed, complete_keyed, or_complete, meter,
}
use spidey.Llm.Gateway.Settling.{booked}
use spidey.Llm.Gateway.Metering.{
  Completion, complete-Completion, answered_hit, meter_lem, Result-cases, check_budget_ok,
  read_cache_lem,
}

cache_get-cache_put :
    {Json : Type 0} (key : String) (r : ChatResponse Json) (ttl now t : ℕ)
    (c : List (String × Cached Json))
    → t < now + ttl
    → cache_get key t (cache_put key r ttl now c) ≡ some r
unfolding cache_get cache_put
cache_get-cache_put key r ttl now t c h = rw (eq_refl key) (ground arith)

deterministic :
    {Json : Type 0} (request : ChatRequest Json)
    → request.temperature ≡ 0
    → request.tools ≡ []
    → (not (request.temperature == 0) || not (is_empty request.tools)) ≡ false
deterministic request t n = rw (t, n) refl

module _ {Json : Type 0} (G : Gateway Json) (ttl : ℕ) (cached : G.cache_ttl ≡ some ttl) where
  -- A completion that a model answered leaves its response under the request's key, for the whole of
  -- its time to live.
  kept :
      {role : Role} {request : ChatRequest Json} {a : Account} {w w' : GatewayWorld Json}
      {x : Result (ChatResponse Json)} {r : ChatResponse Json} (key : String) (t : ℕ)
      → Completion G role request a w x w'
      → x ≡ ok r
      → cache_key G role request w ≡ (ok (some key), w)
      → ¬ w'.calls ≡ w.calls
      → t < w'.now + ttl
      → cache_get key t w'.cache ≡ some r
  kept key t (Completion.denied o) q k fresh before = absurd (ground arith)
  kept key t (Completion.misrouted e) q k fresh before = absurd (ground arith)
  kept key t (Completion.hit k' y b k l) q k'' fresh before = absurd (fresh refl)
  kept key t (Completion.failed e ms w1 c walk) q k fresh before = absurd (ground arith)
  kept key t (Completion.unsettled k' ms y m w1 v b k l walk stage) q k'' fresh before =
      absurd (ground arith)
  kept {role} {request} {a} {w} key t (Completion.fresh k' ms y m w1 b k l c walk) q k'' fresh
        before =
      let same : k' ≡ some key = cc in
      let v = booked G y m role request (w1.now - w.now) a w1 in
      let here : filed G G.cache_ttl k' y v ≡ filed G (some ttl) (some key) y v =
        ap (λ (x : Option ℕ). filed G x k' y v) cached
        ∙ ap (λ (z : Option String). filed G (some ttl) z y v) same in
      ap (λ (u : GatewayWorld Json). cache_get key t u.cache) here
      ∙ cache_get-cache_put key y ttl v.now t v.cache
          (subst (λ (u : GatewayWorld Json). t < u.now + ttl) here before)
      ∙ (cc)

  cache_key-route :
      (role : Role) (request : ChatRequest Json) (x : RouteConfig) (v : GatewayWorld Json)
      → request.temperature ≡ 0
      → request.tools ≡ []
      → Routing.route G.registry role ≡ ok x
      → cache_key G role request v ≡ (ok (some (key_of G request x)), v)
  unfolding cache_key
  cache_key-route role request x v t n e = rw (deterministic request t n, e) refl

  succeeded_key :
      {role : Role} {request : ChatRequest Json} {a : Account} {w w' : GatewayWorld Json}
      {x : Result (ChatResponse Json)} {r : ChatResponse Json}
      → Completion G role request a w x w'
      → x ≡ ok r
      → (key : Option String) × (cache_key G role request w ≡ (ok key, w))
  succeeded_key (Completion.denied o) q = absurd (ground arith)
  succeeded_key (Completion.misrouted e) q = absurd (ground arith)
  succeeded_key (Completion.hit k' y b k l) q = (k', k)
  succeeded_key (Completion.failed e ms w1 c walk) q = absurd (ground arith)
  succeeded_key (Completion.unsettled k' ms y m w1 v b k l walk stage) q = absurd (ground arith)
  succeeded_key (Completion.fresh k' ms y m w1 b k l c walk) q = (k', k)

  routed :
      (role : Role) (request : ChatRequest Json) (w : GatewayWorld Json) (key : Option String)
      → request.temperature ≡ 0
      → request.tools ≡ []
      → cache_key G role request w ≡ (ok key, w)
      → (x : RouteConfig) × (Routing.route G.registry role ≡ ok x)
  unfolding cache_key
  routed role request w key t n k = elim (Result-cases G (Routing.route G.registry role)) [
    | inl (e, q) ↦
        let broken : cache_key G role request w ≡ (err e, w) =
          rw (deterministic request t n, q) refl in
        absurd (ground (arith, sym k ∙ broken))
    | inr (x, q) ↦ (x, q)
  ]

  -- The response to a deterministic request that a provider was called for is given again, from the
  -- cache, at every later time at which it has not expired, if the cache has stayed as it was, the
  -- budget of whoever asks allows it, and the ledger and the cache can be read: no provider is called.
  pub complete-complete :
      (role : Role) (request : ChatRequest Json) (a b : Account) (w v : GatewayWorld Json)
      (r : ChatResponse Json) {w' : GatewayWorld Json}
      → request.temperature ≡ 0
      → request.tools ≡ []
      → complete G role request a w ≡ (ok r, w')
      → ¬ w'.calls ≡ w.calls
      → v.cache ≡ w'.cache
      → v.now < w'.now + ttl
      → over_budget G G.limits b.budget_scope request.max_tokens v ≡ false
      → G.ledger_reads v.now ≡ true
      → G.cache_reads v.now ≡ true
      → complete G role request b v ≡ (ok r, answered_hit G r role b v)
  unfolding complete
  complete-complete role request a b w v r {w'} t n h fresh same before allowed ledger_read
        cache_read =
      let c = complete-Completion G role request a w in
      let first = ap (λ p. p.0) h in
      let (k', k) = succeeded_key c first in
      let (x, q) = routed role request w k' t n k in
      let key = key_of G request x in
      let again = cache_key-route role request x v t n q in
      let there : lookup_cache G (some ttl) (some key) v ≡ some r =
        ap (cache_get key v.now) same
        ∙ subst
            (λ (p : Result (ChatResponse Json) × GatewayWorld Json).
              ¬ p.1.calls ≡ w.calls
              → v.now < p.1.now + ttl
              → cache_get key v.now p.1.cache ≡ some r)
            h (kept key v.now c first (cache_key-route role request x w t n q)) fresh before in
      let rest = λ (_ : Unit {0}). complete_allowed G role request b in
      let read = or_complete G role request b (some key) in
      >>=-ok (check_budget G b.budget_scope request) rest v
        (check_budget_ok G request b v (ground (arith, ledger_read)) allowed)
      ∙ >>=-ok (cache_key G role request) (complete_keyed G role request b) v again
      ∙ >>=-ok (read_cache G (some key)) read v
          (read_cache_lem G (some key) v (ground (arith, cache_read)))
      ∙ ap (λ (o : Option (ChatResponse Json)). read o v)
          (ap (λ (y : Option ℕ). lookup_cache G y (some key) v) cached ∙ there)
      ∙ >>=-ok (meter G r role b 0 0 none true) (λ _. pure r) v (meter_lem G r role b v)
