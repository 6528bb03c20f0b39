-- ===== src/Llm/Gateway/Chain.antt =====
-- What a walk of a role's chain calls, and when it stops.
use spidey.Base.{
  ℕ, zero, suc, ◌+◌, ◌≤◌, ◌≡◌, refl, sym, ap, ◌∙◌, true, List, [], ◌∷◌, ◌++◌, length, All,
  All-append, arith, ltb, length-append, Bool-cases, subst, inl, inr,
}
use mathlib.Core.List.{append-nil, append_assoc}
use spidey.Base.Action.{Result, ok, err}
use spidey.Platform.Errors.{Error}
use spidey.Llm.Chat.{Role, ChatRequest, ChatResponse}
use spidey.Llm.Routing.{ChatModel, Reply, response, transient, refused, crash}
use spidey.Llm.Calls.{
  Gateway, GatewayWorld, Call, Tried, answered, gave_up, crashed, call, sleep, try_model,
  walk_chain,
}
use spidey.Llm.Gateway.Reports.{
  is_failure, SameBooks, SameBooks-trans, Tries, Walk, TryReport, Runs, WalkReport, after,
}

module _ {Json : Type 0} where
  after-SameBooks :
      (m : ChatModel Json) (reply : Reply Json) (t : ℕ) (w : GatewayWorld Json)
      → SameBooks w (after m reply t w)
  after-SameBooks m reply t w = record {
    events = refl;
    interactions = refl;
    ledger = refl;
    cache = refl;
  }

  calls-sleep :
      (G : Gateway Json) (attempt : ℕ) (w : GatewayWorld Json) → (sleep G attempt w).calls ≡ w.calls
  calls-sleep G attempt w = ground arith

  now-sleep :
      (G : Gateway Json) (attempt : ℕ) (w : GatewayWorld Json) → w.now ≤ (sleep G attempt w).now
  now-sleep G attempt w = ground arith

  sleep-SameBooks :
      (G : Gateway Json) (attempt : ℕ) (w : GatewayWorld Json) → SameBooks w (sleep G attempt w)
  sleep-SameBooks G attempt w = elim (Bool-cases (ltb attempt G.max_retries)) [
    | inl e ↦ rw e (record { events = refl; interactions = refl; ledger = refl; cache = refl })
    | inr e ↦ rw e (record { events = refl; interactions = refl; ledger = refl; cache = refl })
  ]

  module _ (G : Gateway Json) where
    -- One more failed attempt stands before those of a report.
    retried :
        (m : ChatModel Json) (rounds attempt t : ℕ) (w w' : GatewayWorld Json) (tried : Tried Json)
        → w.now ≤ t
        → TryReport m rounds tried (sleep G attempt (after m transient t w)) w'
        → TryReport m (suc rounds) tried w w'
    retried m rounds attempt t w w' tried h r = record {
      early = record { model = m; reply = transient } ∷ r.early;
      failures = (refl, r.failures);
      last = r.last;
      shape = r.shape;
      logged = r.logged ∙ rw (calls-sleep G attempt (after m transient t w), append_assoc) refl;
      bound = omega (arith, r.bound);
      called = λ h. omega arith;
      own = (refl, r.own);
      books =
          SameBooks-trans
            (SameBooks-trans (after-SameBooks m transient t w)
              (sleep-SameBooks G attempt (after m transient t w)))
            r.books;
      later = omega (arith, h, now-sleep G attempt (after m transient t w), r.later);
    }

    last-gave_up :
        {m : ChatModel Json} {t : Tried Json} {cs : List (Call Json)}
        → Tries m t cs
        → t ≡ gave_up
        → cs ≡ []
    last-gave_up (Tries.answer r) e = absurd (ground arith)
    last-gave_up Tries.nothing e = refl
    last-gave_up (Tries.error x) e = absurd (ground arith)

    last-answered :
        {m : ChatModel Json} {t : Tried Json} {cs : List (Call Json)} {r : ChatResponse Json}
        → Tries m t cs
        → t ≡ answered r
        → cs ≡ record { model = m; reply = response r } ∷ []
    last-answered (Tries.answer r) e = ground arith
    last-answered Tries.nothing e = absurd (ground arith)
    last-answered (Tries.error x) e = absurd (ground arith)

    last-crashed :
        {m : ChatModel Json} {t : Tried Json} {cs : List (Call Json)} {x : Error}
        → Tries m t cs
        → t ≡ crashed x
        → cs ≡ record { model = m; reply = crash x } ∷ []
    last-crashed (Tries.answer r) e = absurd (ground arith)
    last-crashed Tries.nothing e = absurd (ground arith)
    last-crashed (Tries.error x) e = ground arith

    attempted :
        (m : ChatModel Json) (rounds attempt t : ℕ) (request : ChatRequest Json)
        (w : GatewayWorld Json) (reply : Reply Json)
        → w.now ≤ t
        → (x : Tried Json × GatewayWorld Json)
        → TryReport m rounds x.0 (sleep G attempt (after m reply t w)) x.1
        → let y = elim reply as (λ _. Tried Json × GatewayWorld Json) [
          | response r ↦ (answered r, after m reply t w)
          | transient ↦ x
          | refused ↦ (gave_up, after m reply t w)
          | crash e ↦ (crashed e, after m reply t w)
        ] in
          TryReport m (suc rounds) y.0 w y.1
    attempted m rounds attempt t request w (response r) k x h = record {
      early = [];
      failures = tt;
      last = record { model = m; reply = response r } ∷ [];
      shape = Tries.answer r;
      logged = refl;
      bound = omega arith;
      called = λ h. omega arith;
      own = (refl, tt);
      books = after-SameBooks m (response r) t w;
      later = k;
    }
    attempted m rounds attempt t request w transient k x h =
        retried m rounds attempt t w x.1 x.0 k h
    attempted m rounds attempt t request w refused k x h = record {
      early = record { model = m; reply = refused } ∷ [];
      failures = (refl, tt);
      last = [];
      shape = Tries.nothing;
      logged = refl;
      bound = omega arith;
      called = λ h. omega arith;
      own = (refl, tt);
      books = after-SameBooks m refused t w;
      later = k;
    }
    attempted m rounds attempt t request w (crash e) k x h = record {
      early = [];
      failures = tt;
      last = record { model = m; reply = crash e } ∷ [];
      shape = Tries.error e;
      logged = refl;
      bound = omega arith;
      called = λ h. omega arith;
      own = (refl, tt);
      books = after-SameBooks m (crash e) t w;
      later = k;
    }

    try_model-TryReport :
        (rounds attempt : ℕ) (m : ChatModel Json) (request : ChatRequest Json)
        (w : GatewayWorld Json)
        → TryReport m rounds
            (try_model G rounds attempt m request w).0
            w
            (try_model G rounds attempt m request w).1
    unfolding try_model call
    try_model-TryReport zero attempt m request w = record {
      early = [];
      failures = tt;
      last = [];
      shape = Tries.nothing;
      logged = sym (append-nil w.calls);
      bound = omega arith;
      called = λ h. omega (arith, h);
      own = tt;
      books = record { events = refl; interactions = refl; ledger = refl; cache = refl };
      later = omega arith;
    }
    try_model-TryReport (suc rounds) attempt m request w =
        let reply = (m.complete request w.now).0 in
        let t = w.now + (m.complete request w.now).1 in
        let w' = after m reply t w in
        attempted m rounds attempt t request w reply (omega arith)
          (try_model G rounds (attempt + 1) m request (sleep G attempt w'))
          (try_model-TryReport rounds (attempt + 1) m request (sleep G attempt w'))

    -- The calls of a model that is passed over.
    passed_by :
        {m : ChatModel Json} {ms : List (ChatModel Json)} (cs last : List (Call Json))
        {u v : GatewayWorld Json}
        → (a : TryReport m (suc G.max_retries) gave_up u v)
        → Runs (suc G.max_retries) ms (cs ++ last)
        → Runs (suc G.max_retries) (m ∷ ms) ((a.early ++ cs) ++ last)
    passed_by {m} {ms} cs last a r =
        let none_last = last-gave_up a.shape refl in
        let n = ap length none_last in
        subst (Runs (suc G.max_retries) (m ∷ ms)) (sym (append_assoc a.early cs last)) (
          Runs.run m a.early
            (subst (All (λ c. c.model ≡ m))
              (ap (λ ls. a.early ++ ls) none_last ∙ append-nil a.early) a.own)
            (omega (arith, a.called (omega arith), n)) (omega (arith, a.bound, n)) r)

    -- The calls of the model that ends a walk.
    ended_by :
        {m : ChatModel Json} {tried : Tried Json} {u v : GatewayWorld Json}
        → (a : TryReport m (suc G.max_retries) tried u v) → (c : Call Json) → a.last ≡ c ∷ []
        → Runs (suc G.max_retries) (m ∷ []) (a.early ++ (c ∷ []))
    ended_by {m} a c e =
        let n = length-append a.early (c ∷ []) in
        let k = ap length e in
        subst (Runs (suc G.max_retries) (m ∷ [])) (append-nil (a.early ++ (c ∷ []))) (
          Runs.run m (a.early ++ (c ∷ []))
            (subst (λ ls. All (λ c. c.model ≡ m) (a.early ++ ls)) e a.own) (omega (arith, n))
            (omega (arith, n, k, a.bound)) Runs.stop)

    -- Failed attempts at one model stand before a walk of the rest.
    passed :
        (role : Role) (m : ChatModel Json) (ms : List (ChatModel Json)) (u v w : GatewayWorld Json)
        (result : Result (ChatResponse Json × ChatModel Json))
        → TryReport m (suc G.max_retries) gave_up u v
        → WalkReport role (suc G.max_retries) ms result v w
        → WalkReport role (suc G.max_retries) (m ∷ ms) result u w
    passed role m ms u v w result a b = record {
      early = a.early ++ b.early;
      failures = All-append (λ c. is_failure c.reply ≡ true) a.early b.early a.failures b.failures;
      last = b.last;
      shape = b.shape;
      logged =
          b.logged
          ∙ rw (a.logged, last-gave_up a.shape refl, append-nil, append_assoc, append_assoc) refl;
      visited = m ∷ b.visited;
      rest = b.rest;
      split = ap (λ xs. m ∷ xs) b.split;
      runs = passed_by b.early b.last a b.runs;
      whole = b.whole;
      books = SameBooks-trans a.books b.books;
      later = omega (arith, a.later, b.later);
    }

    walked :
        (role : Role) (m : ChatModel Json) (ms : List (ChatModel Json)) (u v : GatewayWorld Json)
        (tried : Tried Json) (x : Result (ChatResponse Json × ChatModel Json) × GatewayWorld Json)
        → TryReport m (suc G.max_retries) tried u v
        → WalkReport role (suc G.max_retries) ms x.0 v x.1
        → let y =
            elim tried as (λ _. Result (ChatResponse Json × ChatModel Json) × GatewayWorld Json) [
              | answered r ↦ (ok (r, m), v)
              | gave_up ↦ x
              | crashed e ↦ (err e, v)
            ] in
          WalkReport role (suc G.max_retries) (m ∷ ms) y.0 u y.1
    walked role m ms u v (answered r) x a b = record {
      early = a.early;
      failures = a.failures;
      last = record { model = m; reply = response r } ∷ [];
      shape = Walk.answer m r;
      logged = a.logged ∙ rw (last-answered a.shape refl) refl;
      visited = m ∷ [];
      rest = ms;
      split = refl;
      runs = ended_by a (record { model = m; reply = response r }) (last-answered a.shape refl);
      whole = λ h. absurd (ground (arith, h));
      books = a.books;
      later = a.later;
    }
    walked role m ms u v gave_up x a b = passed role m ms u v x.1 x.0 a b
    walked role m ms u v (crashed e) x a b = record {
      early = a.early;
      failures = a.failures;
      last = record { model = m; reply = crash e } ∷ [];
      shape = Walk.error m e;
      logged = a.logged ∙ rw (last-crashed a.shape refl) refl;
      visited = m ∷ [];
      rest = ms;
      split = refl;
      runs = ended_by a (record { model = m; reply = crash e }) (last-crashed a.shape refl);
      whole = λ h. absurd (ground (arith, h));
      books = a.books;
      later = a.later;
    }

    -- A walk of a chain calls its models in their order, beginning with the first, each of those that it
    -- visits at least once and at most `max_retries + 1` times before the next. All its calls fail but
    -- the last one, whose answer is returned or whose other error is passed on; with no such call it has
    -- visited every model and raises that all failed. Neither the outbox, the captures, the ledger nor
    -- the cache changes.
    pub walk_chain-WalkReport :
        (role : Role) (request : ChatRequest Json) (ms : List (ChatModel Json))
        (w : GatewayWorld Json)
        → WalkReport role
            (suc G.max_retries)
            ms
            (walk_chain G role request ms w).0
            w
            (walk_chain G role request ms w).1
    unfolding walk_chain
    walk_chain-WalkReport role request [] w = record {
      early = [];
      failures = tt;
      last = [];
      shape = Walk.exhausted;
      logged = sym (append-nil w.calls);
      visited = [];
      rest = [];
      split = refl;
      runs = Runs.stop;
      whole = λ h. refl;
      books = record { events = refl; interactions = refl; ledger = refl; cache = refl };
      later = omega arith;
    }
    walk_chain-WalkReport role request (m ∷ ms) w =
        let (tried, w') = try_model G (suc G.max_retries) 0 m request w in
        walked role m ms w w' tried (walk_chain G role request ms w')
          (try_model-TryReport (suc G.max_retries) 0 m request w)
          (walk_chain-WalkReport role request ms w')
