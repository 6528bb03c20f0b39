-- ===== src/Llm/Assembled.antt =====
-- A stream that is consumed to its end is accounted for as the completion that it assembles to.
use spidey.Base.{
  ℕ, ◌+◌, ◌-◌, ◌≡◌, refl, sym, ap, ◌∙◌, true, false, not, ◌&&◌, Option, none, some, List, ◌∷◌, suc,
  String, arith,
}
use spidey.Base.Action.{Result, ok, ◌>>=◌, pure}
use spidey.Base.Action.Rules.{>>=-ok}
use spidey.Llm.Chat.{Role, Usage, ChatRequest, ChatResponse, ChatChunk}
use spidey.Llm.Ledger.{Limits}
use spidey.Llm.Routing
use spidey.Llm.Routing.{ChatModel, response}
use spidey.Llm.Calls.{
  confirmed, Gateway, GatewayWorld, Account, answered, Call, walk_chain, invoke_chain, try_model,
  call, resolved,
}
use spidey.Llm.Gateway.{asks_ledger, over_budget, check_budget, settle, complete_uncached, paid}
use spidey.Llm.Gateway.Settling.{booked, settle_lem}
use spidey.Llm.Gateway.Metering.{complete_uncached_lem, check_budget_ok}
use spidey.Llm.Gateway.Reports.{after}
use spidey.Platform.Errors.{Error}
use spidey.Llm.Streaming.{stream_first, assemble, stream, finish_stream}

module _ {Json : Type 0} (G : Gateway Json) where
  first_try :
      (role : Role) (request : ChatRequest Json) (w : GatewayWorld Json) (m : ChatModel Json)
      (r : ChatResponse Json) (t n : ℕ)
      → m.complete request w.now ≡ (response r, t)
      → try_model G (suc n) 0 m request w ≡ (answered r, after m (response r) (w.now + t) w)
  unfolding try_model call
  first_try role request w m r t n k = rw (k, try_model) (rw (k, call) refl)

  first_answers :
      (role : Role) (request : ChatRequest Json) (w : GatewayWorld Json) (m : ChatModel Json)
      (ms : List (ChatModel Json)) (r : ChatResponse Json) (t : ℕ)
      → m.complete request w.now ≡ (response r, t)
      → walk_chain G role request (m ∷ ms) w ≡ (ok (r, m), after m (response r) (w.now + t) w)
  unfolding walk_chain
  first_answers role request w m ms r t k =
      let answers = first_try role request w m r t G.max_retries k in
      rw (answers, walk_chain) (rw answers refl)

  paid_calls :
      (limits : Option Limits) (scope : Option String) (u : Usage) (c : ℕ) (v : GatewayWorld Json)
      (cs : List (Call Json))
      → paid G limits scope u c (record v { calls = cs })
        ≡ record (paid G limits scope u c v) { calls = cs }
  paid_calls none scope u c v cs = refl
  paid_calls (some limits) none u c v cs = refl
  paid_calls (some limits) (some scope) u c v cs = refl

  -- The log of calls is not read by the books.
  booked_calls :
      (r : ChatResponse Json) (m : ChatModel Json) (role : Role) (request : ChatRequest Json)
      (t : ℕ) (a : Account) (v : GatewayWorld Json) (cs : List (Call Json))
      → booked G r m role request t a (record v { calls = cs })
        ≡ record (booked G r m role request t a v) { calls = cs }
  booked_calls r m role request t a v cs = paid_calls G.limits a.budget_scope r.usage _ _ cs

  invoked :
      (role : Role) (request : ChatRequest Json) (w : GatewayWorld Json) (m : ChatModel Json)
      (ms : List (ChatModel Json)) (r : ChatResponse Json) (t : ℕ)
      → Routing.chain G.registry role ≡ ok (m ∷ ms)
      → m.complete request w.now ≡ (response r, t)
      → invoke_chain G role request w ≡ (ok (r, m), after m (response r) (w.now + t) w)
  unfolding invoke_chain
  invoked role request w m ms r t c k =
      >>=-ok (resolved G (Routing.chain G.registry role)) (walk_chain G role request) w
        (ap (λ (x : Result (List (ChatModel Json))). (x, w)) c)
      ∙ first_answers role request w m ms r t k

  streamed_lem :
      (role : Role) (request : ChatRequest Json) (a : Account) (w : GatewayWorld Json)
      (m : ChatModel Json) (ms : List (ChatModel Json)) (chunks : List (ChatChunk Json)) (t : ℕ)
      → over_budget G G.limits a.budget_scope request.max_tokens w ≡ false
      → Routing.chain G.registry role ≡ ok (m ∷ ms)
      → m.stream request w.now ≡ (chunks, none, t)
      → (asks_ledger G G.limits a.budget_scope && not (G.ledger_reads w.now)) ≡ false
      → G.flushes (w.now + t) ≡ true
      → G.charging (w.now + t) ≡ confirmed
      → stream G role request a w ≡ (
        ok chunks,
        booked G (assemble G chunks m) m role request t a (record w { now = w.now + t }),
      )
  unfolding stream
  streamed_lem role request a w m ms chunks t b c s l f p =
      >>=-ok (check_budget G a.budget_scope request)
        (λ _. resolved G (Routing.chain G.registry role) >>= stream_first G role request a) w
        (check_budget_ok G request a w l b)
      ∙ >>=-ok (resolved G (Routing.chain G.registry role)) (stream_first G role request a) w
          (ap (λ (x : Result (List (ChatModel Json))). (x, w)) c)
      ∙ ap
          (λ (p : List (ChatChunk Json) × Option Error × ℕ).
            finish_stream G m role request a p.2 p.0 p.1 (record w { now = w.now + p.2 }))
          s
      ∙ >>=-ok (settle G (assemble G chunks m) m role request t a) (λ _. pure chunks)
          (record w { now = w.now + t })
          (settle_lem G (assemble G chunks m) m role request t a (record w { now = w.now + t }) f p)

  -- If the first model of the role streams chunks to the end, and would have completed with the
  -- response that they assemble to in the same time, and the database and Redis
  -- answer, then the stream leaves the same outbox, captures
  -- and ledger as that completion without a cache key.
  pub stream-complete_uncached :
      (role : Role) (request : ChatRequest Json) (a : Account) (w : GatewayWorld Json)
      (m : ChatModel Json) (ms : List (ChatModel Json)) (chunks : List (ChatChunk Json)) (t : ℕ)
      → over_budget G G.limits a.budget_scope request.max_tokens w ≡ false
      → Routing.chain G.registry role ≡ ok (m ∷ ms)
      → m.stream request w.now ≡ (chunks, none, t)
      → m.complete request w.now ≡ (response (assemble G chunks m), t)
      → G.ledger_reads w.now ≡ true
      → G.flushes (w.now + t) ≡ true
      → G.charging (w.now + t) ≡ confirmed
      → let streamed = stream G role request a w in
        let completed = complete_uncached G role request a none w in
        (streamed.0 ≡ ok chunks)
        × (completed.0 ≡ ok (assemble G chunks m))
        × (streamed.1.events ≡ completed.1.events)
        × (streamed.1.interactions ≡ completed.1.interactions)
        × (streamed.1.ledger ≡ completed.1.ledger)
  stream-complete_uncached role request a w m ms chunks t b c s k l f p =
      let r = assemble G chunks m in
      let st = streamed_lem role request a w m ms chunks t b c s (ground (arith, l)) f p in
      let w1 = after m (response r) (w.now + t) w in
      let run =
        complete_uncached_lem G role request a w w1 r m (invoked role request w m ms r t c k) f p in
      let time : w1.now - w.now ≡ t = omega arith in
      let done : complete_uncached G role request a none w
          ≡ (ok r, booked G r m role request t a w1) =
        run ∙ ap (λ (l : ℕ). (ok r, booked G r m role request l a w1)) time in
      let same = ap (λ p. p.1) st in
      let books =
        ap (λ p. p.1) done
        ∙ booked_calls r m role request t a (record w { now = w.now + t }) w1.calls in
      (
        ap (λ p. p.0) st,
        ap (λ p. p.0) done,
        ap (λ (v : GatewayWorld Json). v.events) same
            ∙ sym (ap (λ (v : GatewayWorld Json). v.events) books),
        ap (λ (v : GatewayWorld Json). v.interactions) same
            ∙ sym (ap (λ (v : GatewayWorld Json). v.interactions) books),
        ap (λ (v : GatewayWorld Json). v.ledger) same
            ∙ sym (ap (λ (v : GatewayWorld Json). v.ledger) books),
      )
