-- ===== src/Llm/Gateway/Promises.antt =====
-- What the gateway promises of a completion that fails, and of one that answers.
use spidey.Base.{
  ℕ, ◌-◌, ◌≤◌, ◌≡◌, refl, sym, ap, subst, ◌∙◌, true, false, Option, none, some, List, [], ◌∷◌, ◌++◌,
  length, if◌then◌else◌, arith, suc, String,
}
use spidey.Base.Action.{Result, ok, err}
use spidey.Platform.Errors.{Error}
use spidey.Llm.Chat.{Role, ChatRequest, ChatResponse, Usage}
use spidey.Llm.Routing.{ChatModel, response, cost}
use spidey.Llm.Ledger.{Limits, Spent, record_usage}
use spidey.Llm.Capture.{Interaction}
use spidey.Llm.Calls.{Gateway, GatewayWorld, Account, Call, walk_chain}
use spidey.Llm.Gateway.{metered, filed, paid, complete, interaction_of}
use spidey.Llm.Gateway.Reports.{SameBooks, Walk, WalkReport, Failures}
use spidey.Llm.Gateway.Chain.{walk_chain-WalkReport}
use spidey.Llm.Gateway.Settling.{Stage, booked, closed, published, captured, capture_id}
use spidey.Llm.Gateway.Metering.{Completion, complete-Completion, answered_hit}

same_books : {Json : Type 0} (w : GatewayWorld Json) → SameBooks w w
same_books w = record { events = refl; interactions = refl; ledger = refl; cache = refl }

-- A ledger behind the charge of a call, where there are limits and a scope.
abbrev pub charge :
    Option Limits
    → Option String
    → Usage
    → (cost now : ℕ) → List (String × Spent)
    → List (String × Spent)
charge none scope u cost now l = l
charge (some limits) none u cost now l = l
charge (some limits) (some scope) u cost now l = record_usage limits scope u cost now l

module _ {Json : Type 0} (G : Gateway Json) where
  walk_books :
      (role : Role) (request : ChatRequest Json) (ms : List (ChatModel Json))
      (w w1 : GatewayWorld Json) (x : Result (ChatResponse Json × ChatModel Json))
      → walk_chain G role request ms w ≡ (x, w1)
      → SameBooks w w1
  walk_books role request ms w w1 x e =
      subst
        (λ (p : Result (ChatResponse Json × ChatModel Json) × GatewayWorld Json). SameBooks w p.1) e
        (walk_chain-WalkReport G role request ms w).books

  walk_report :
      (role : Role) (request : ChatRequest Json) (ms : List (ChatModel Json))
      (r : ChatResponse Json) (m : ChatModel Json) (w w1 : GatewayWorld Json)
      → walk_chain G role request ms w ≡ (ok (r, m), w1)
      → WalkReport role (suc G.max_retries) ms (ok (r, m)) w w1
  walk_report role request ms r m w w1 walk =
      subst
        (λ (p : Result (ChatResponse Json × ChatModel Json) × GatewayWorld Json).
          WalkReport role (suc G.max_retries) ms p.0 w p.1)
        walk (walk_chain-WalkReport G role request ms w)

  last-ok :
      {role : Role} {x : Result (ChatResponse Json × ChatModel Json)} {cs : List (Call Json)}
      {r : ChatResponse Json} {m : ChatModel Json}
      → Walk role x cs
      → x ≡ ok (r, m)
      → cs ≡ record { model = m; reply = response r } ∷ []
  last-ok (Walk.answer m r) e = ground arith
  last-ok Walk.exhausted e = absurd (ground arith)
  last-ok (Walk.error m x) e = absurd (ground arith)

  -- What a completion that raised has left: nothing, or what was written behind the answer of a model
  -- before the database or Redis failed, at the world `w1` of that answer.
  pub data Trace (role : Role) (request : ChatRequest Json) (a : Account) (w : GatewayWorld Json)
      (e : Error) (w' : GatewayWorld Json) : Type 0 where
    clean : SameBooks w w' → Trace role request a w e w'
    partial :
        (key : Option String) (r : ChatResponse Json) (m : ChatModel Json)
        (early : List (Call Json)) (w1 : GatewayWorld Json)
        → e ≡ Error.unhandled
        → Failures early
        → w1.calls ≡ w.calls ++ (early ++ (record { model = m; reply = response r } ∷ []))
        → SameBooks w w1
        → Stage G r m role request a key w w1 w'
        → Trace role request a w e w'

  answered-Trace :
      (role : Role) (request : ChatRequest Json) (a : Account) (key : Option String)
      (ms : List (ChatModel Json)) (r : ChatResponse Json) (m : ChatModel Json)
      (w w1 v : GatewayWorld Json) (e : Error)
      → e ≡ Error.unhandled
      → walk_chain G role request ms w ≡ (ok (r, m), w1)
      → Stage G r m role request a key w w1 v
      → Trace role request a w e v
  answered-Trace role request a key ms r m w w1 v e u walk stage =
      let report = walk_report role request ms r m w w1 walk in
      Trace.partial key r m report.early w1 u report.failures
        (report.logged ∙ ap (λ cs. w.calls ++ (report.early ++ cs)) (last-ok report.shape refl))
        report.books stage

  err-Trace :
      {role : Role} {request : ChatRequest Json} {a : Account} {w w' : GatewayWorld Json}
      {x : Result (ChatResponse Json)} (e : Error)
      → Completion G role request a w x w'
      → x ≡ err e
      → Trace role request a w e w'
  err-Trace {w = w} e (Completion.denied o) q = Trace.clean (same_books w)
  err-Trace {w = w} e (Completion.misrouted x) q = Trace.clean (same_books w)
  err-Trace e (Completion.hit key r b k l) q = absurd (ground arith)
  err-Trace {role} {request} {w = w} e (Completion.failed x ms w1 c walk) q =
      Trace.clean (walk_books role request ms w w1 (err x) walk)
  err-Trace {role} {request} {a} {w} e (Completion.unsettled key ms r m w1 v b k l walk stage) q =
      answered-Trace role request a key ms r m w w1 v e (ground arith) walk stage
  err-Trace e (Completion.fresh key ms r m w1 b k l c walk) q = absurd (ground arith)

  -- A completion that raises leaves the outbox, the captures, the ledger and the cache as they were;
  -- or the error is an unhandled one, of the database or of Redis, behind the answer of a model, and
  -- the books hold for that answer, in this order and from the first on: nothing, the captured
  -- interaction and the published event, the charge, the cached response.
  pub complete_err :
      (role : Role) (request : ChatRequest Json) (a : Account) (w : GatewayWorld Json) (e : Error)
      {w' : GatewayWorld Json}
      → complete G role request a w ≡ (err e, w')
      → Trace role request a w e w'
  complete_err role request a w e {w'} h =
      subst (λ (p : Result (ChatResponse Json) × GatewayWorld Json). Trace role request a w e p.1) h
        (err-Trace e (complete-Completion G role request a w) (ap (λ p. p.0) h))

  -- How an answer is accounted for: from the cache, or by the call of a model that answered it.
  pub data Metered (role : Role) (a : Account) (w : GatewayWorld Json) (r : ChatResponse Json)
      (w' : GatewayWorld Json) : Type 0 where
    from_cache :
        w'.events ≡ w.events ++ published G (metered G r role a 0 0 none true)
        → w'.calls ≡ w.calls
        → w'.now ≡ w.now
        → w'.ledger ≡ w.ledger
        → w'.interactions ≡ w.interactions
        → Metered role a w r w'
    from_model :
        (m : ChatModel Json) (early : List (Call Json)) (latency : ℕ)
        → Failures early
        → w.now ≤ w'.now
        → w'.calls ≡ w.calls ++ (early ++ (record { model = m; reply = response r } ∷ []))
        → w'.events
          ≡ w.events
            ++ published G
                (metered G r role a (cost m.manifest r.usage) latency (capture_id G w) false)
        → w'.ledger
          ≡ charge G.limits a.budget_scope r.usage (cost m.manifest r.usage) w'.now w.ledger
        → Metered role a w r w'

  -- What keeping a response in the cache and charging a scope leave alone.
  record SameCall (w w' : GatewayWorld Json) : Type 0 where
    now : w'.now ≡ w.now
    events : w'.events ≡ w.events
    calls : w'.calls ≡ w.calls

  stored :
      (ttl : Option ℕ) (key : Option String) (r : ChatResponse Json) (w : GatewayWorld Json)
      → SameCall w (filed G ttl key r w) × ((filed G ttl key r w).ledger ≡ w.ledger)
  stored none key r w = (record { now = refl; events = refl; calls = refl }, refl)
  stored (some ttl) none r w = (record { now = refl; events = refl; calls = refl }, refl)
  stored (some ttl) (some key) r w = (record { now = refl; events = refl; calls = refl }, refl)

  charged :
      (limits : Option Limits) (scope : Option String) (u : Usage) (c : ℕ) (w v : GatewayWorld Json)
      → v.ledger ≡ w.ledger
      → SameCall v (paid G limits scope u c v)
        × ((paid G limits scope u c v).ledger ≡ charge limits scope u c v.now w.ledger)
  charged none scope u c w v e = (record { now = refl; events = refl; calls = refl }, e)
  charged (some limits) none u c w v e = (record { now = refl; events = refl; calls = refl }, e)
  charged (some limits) (some scope) u c w v e = (
    record { now = refl; events = refl; calls = refl },
    ap (record_usage limits scope u c v.now) e,
  )

  fresh-Metered :
      (role : Role) (request : ChatRequest Json) (a : Account) (key : Option String)
      (ms : List (ChatModel Json)) (r : ChatResponse Json) (m : ChatModel Json)
      (w w1 : GatewayWorld Json)
      → walk_chain G role request ms w ≡ (ok (r, m), w1)
      → Metered role a w r (closed G r m role request a key w w1)
  fresh-Metered role request a key ms r m w w1 walk =
      let report = walk_report role request ms r m w w1 walk in
      let latency = w1.now - w.now in
      let spent = cost m.manifest r.usage in
      let entry = metered G r role a spent latency (capture_id G w1) false in
      let noted = record w1 {
        events = w1.events ++ published G entry;
        interactions =
            w1.interactions
            ++ captured G (interaction_of G (length w1.interactions) role request r a.run_id);
      } in
      let v = booked G r m role request latency a w1 in
      let kept = stored G.cache_ttl key r v in
      let due = charged G.limits a.budget_scope r.usage spent w noted report.books.ledger in
      Metered.from_model m report.early latency report.failures
        (omega (arith, report.later, kept.0.now ∙ due.0.now))
        (kept.0.calls
          ∙ due.0.calls
          ∙ report.logged
          ∙ ap (λ cs. w.calls ++ (report.early ++ cs)) (last-ok report.shape refl))
        (kept.0.events
          ∙ due.0.events
          ∙ ap (λ es. es ++ published G entry) report.books.events
          ∙ ap
              (λ (is : List Interaction).
                w.events
                ++ published G (
                    metered G r role a spent latency (if G.captures then some (length is) else none)
                      false))
              report.books.interactions)
        (kept.1
          ∙ due.1
          ∙ ap (λ t. charge G.limits a.budget_scope r.usage spent t w.ledger)
              (sym (kept.0.now ∙ due.0.now)))

  ok-Metered :
      {role : Role} {request : ChatRequest Json} {a : Account} {w w' : GatewayWorld Json}
      {x : Result (ChatResponse Json)} (r : ChatResponse Json)
      → Completion G role request a w x w'
      → x ≡ ok r
      → Metered role a w r w'
  ok-Metered r (Completion.denied o) q = absurd (ground arith)
  ok-Metered r (Completion.misrouted e) q = absurd (ground arith)
  ok-Metered {role} {request} {a} {w} r (Completion.hit key y b k l) q =
      let same : y ≡ r = ground arith in
      subst (λ (z : ChatResponse Json). Metered role a w z (answered_hit G y role a w)) same
        (Metered.from_cache refl refl refl refl refl)
  ok-Metered r (Completion.failed e ms w1 c walk) q = absurd (ground arith)
  ok-Metered r (Completion.unsettled key ms y m w1 v b k l walk stage) q = absurd (ground arith)
  ok-Metered {role} {request} {a} {w} r (Completion.fresh key ms y m w1 b k l c walk) q =
      let same : y ≡ r = ground arith in
      subst (λ (z : ChatResponse Json). Metered role a w z (closed G y m role request a key w w1))
        same (fresh-Metered role request a key ms y m w w1 walk)

  pub complete-Metered :
      (role : Role) (request : ChatRequest Json) (a : Account) (w : GatewayWorld Json)
      (r : ChatResponse Json) {w' : GatewayWorld Json}
      → complete G role request a w ≡ (ok r, w')
      → Metered role a w r w'
  complete-Metered role request a w r {w'} h =
      subst (λ (p : Result (ChatResponse Json) × GatewayWorld Json). Metered role a w r p.1) h
        (ok-Metered r (complete-Completion G role request a w) (ap (λ p. p.0) h))
