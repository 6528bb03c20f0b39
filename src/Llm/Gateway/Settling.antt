-- ===== src/Llm/Gateway/Settling.antt =====
-- What the answer of a model leaves in the books: the outbox, the captures, the ledger and the cache; and
-- how far they get where the database or Redis fails.
use spidey.Base.{
  ℕ, ◌-◌, ◌≡◌, refl, sym, ap, subst, ◌∙◌, String, true, false, Option, none, some, List, [], ◌∷◌,
  ◌++◌, Bool, length, if◌then◌else◌, Bool-cases, inl, inr, arith, not, ◌&&◌,
}
use mathlib.Core.List.{append-nil}
use spidey.Base.Action.{Action, Result, ok, err, pure, ◌>>=◌, ◌>>◌}
use spidey.Base.Action.Rules.{>>=-ok, >>=-err}
use spidey.Platform.Errors.{Error}
use spidey.Platform.Events.{EventEnvelope}
use spidey.Llm.Chat.{Role, ChatRequest, ChatResponse, Usage}
use spidey.Llm.Routing.{ChatModel, cost}
use spidey.Llm.Capture.{Interaction}
use spidey.Llm.Calls.{Io, confirmed, unreached, unanswered, Gateway, GatewayWorld, Account}
use spidey.Llm.Ledger.{Limits}
use spidey.Llm.Gateway.{
  write_io, paid, filed, raise_at, capture_if, metered, meter, interaction_of, capture, spend,
  settle, store_cache, conclude_call,
}

module _ {Json : Type 0} (G : Gateway Json) where
  abbrev pub published : EventEnvelope → List EventEnvelope
  published e = if G.publishes then e ∷ [] else []

  abbrev pub captured : Interaction → List Interaction
  captured i = if G.captures then i ∷ [] else []

  abbrev pub capture_id : GatewayWorld Json → Option ℕ
  capture_id w = if G.captures then some (length w.interactions) else none

  -- The books behind a call that a provider answered, before it is charged.
  abbrev pub noted :
      ChatResponse Json
      → ChatModel Json
      → Role
      → ChatRequest Json
      → (latency_ms : ℕ) → Account
      → GatewayWorld Json
      → GatewayWorld Json
  noted r m role request latency a w = record w {
    events =
        w.events
        ++ published (metered G r role a (cost m.manifest r.usage) latency (capture_id w) false);
    interactions =
        w.interactions
        ++ captured (interaction_of G (length w.interactions) role request r a.run_id);
  }

  abbrev pub booked :
      ChatResponse Json
      → ChatModel Json
      → Role
      → ChatRequest Json
      → (latency_ms : ℕ) → Account
      → GatewayWorld Json
      → GatewayWorld Json
  booked r m role request latency a w =
      paid G G.limits a.budget_scope r.usage (cost m.manifest r.usage)
        (noted r m role request latency a w)

  -- The books behind a completion with no hit, from the end of the walk on.
  abbrev pub closed :
      ChatResponse Json
      → ChatModel Json
      → Role
      → ChatRequest Json
      → Account
      → Option String
      → (w w1 : GatewayWorld Json) → GatewayWorld Json
  closed r m role request a key w w1 =
      filed G G.cache_ttl key r (booked r m role request (w1.now - w.now) a w1)

  -- A write as it may end.
  pub data Wrote (f : GatewayWorld Json → GatewayWorld Json) (w : GatewayWorld Json)
      : Result (Unit {0}) × GatewayWorld Json → Type 0 where
    through : Wrote f w (ok tt, f w)
    unsent : Wrote f w (err Error.unhandled, w)
    unheard : Wrote f w (err Error.unhandled, f w)

  write_io-Wrote :
      (io : Io) (f : GatewayWorld Json → GatewayWorld Json) (w : GatewayWorld Json)
      → Wrote f w (write_io G io f w)
  write_io-Wrote confirmed f w = Wrote.through
  write_io-Wrote unreached f w = Wrote.unsent
  write_io-Wrote unanswered f w = Wrote.unheard

  spend-Wrote :
      (limits : Option Limits) (scope : Option String) (u : Usage) (c : ℕ) (w : GatewayWorld Json)
      → Wrote (paid G limits scope u c) w (spend G limits scope u c w)
  unfolding spend
  spend-Wrote none scope u c w = Wrote.through
  spend-Wrote (some limits) none u c w = Wrote.through
  spend-Wrote (some limits) (some scope) u c w = write_io-Wrote (G.charging w.now) _ w

  spend_confirmed :
      (limits : Option Limits) (scope : Option String) (u : Usage) (c : ℕ) (w : GatewayWorld Json)
      → G.charging w.now ≡ confirmed
      → spend G limits scope u c w ≡ (ok tt, paid G limits scope u c w)
  unfolding spend
  spend_confirmed none scope u c w e = refl
  spend_confirmed (some limits) none u c w e = refl
  spend_confirmed (some limits) (some scope) u c w e =
      ap (λ (io : Io). write_io G io (paid G (some limits) (some scope) u c) w) e

  store_cache-Wrote :
      (ttl : Option ℕ) (key : Option String) (r : ChatResponse Json) (w : GatewayWorld Json)
      → Wrote (filed G ttl key r) w (store_cache G ttl key r w)
  unfolding store_cache
  store_cache-Wrote none key r w = Wrote.through
  store_cache-Wrote (some ttl) none r w = Wrote.through
  store_cache-Wrote (some ttl) (some key) r w = write_io-Wrote (G.caching w.now) _ w

  -- How far the books got when a call failed behind the answer of a model: nothing, captured and
  -- published, charged too, or cached too.
  pub data Stage (r : ChatResponse Json) (m : ChatModel Json) (role : Role)
      (request : ChatRequest Json) (a : Account) (key : Option String) (w w1 : GatewayWorld Json)
      : GatewayWorld Json → Type 0 where
    uncaptured : Stage r m role request a key w w1 w1
    uncharged : Stage r m role request a key w w1 (noted r m role request (w1.now - w.now) a w1)
    unstored : Stage r m role request a key w w1 (booked r m role request (w1.now - w.now) a w1)
    unheard : Stage r m role request a key w w1 (closed r m role request a key w w1)

  pub data Settled (r : ChatResponse Json) (m : ChatModel Json) (role : Role)
      (request : ChatRequest Json) (a : Account) (key : Option String) (w w1 : GatewayWorld Json)
      : Result (Unit {0}) × GatewayWorld Json → Type 0 where
    all_booked :
        Settled r m role request a key w w1 (ok tt, booked r m role request (w1.now - w.now) a w1)
    broke :
        {v : GatewayWorld Json}
        → Stage r m role request a key w w1 v
        → Settled r m role request a key w w1 (err Error.unhandled, v)

  pub raise_at-true :
      (failing : GatewayWorld Json → Bool) (w : GatewayWorld Json)
      → failing w ≡ true
      → raise_at G failing w ≡ (err Error.unhandled, w)
  raise_at-true failing w e = rw e refl

  pub raise_at-false :
      (failing : GatewayWorld Json → Bool) (w : GatewayWorld Json)
      → failing w ≡ false
      → raise_at G failing w ≡ (ok tt, w)
  raise_at-false failing w e = rw e refl

  abbrev pub unflushed : GatewayWorld Json → Bool
  unflushed w = G.captures && not (G.flushes w.now)

  captured_if :
      (b : Bool) (r : ChatResponse Json) (role : Role) (request : ChatRequest Json)
      (run_id : Option ℕ) (w : GatewayWorld Json)
      → capture_if G b role request r run_id w ≡ (
        ok (if b then some (length w.interactions) else none),
        record w {
          interactions =
              w.interactions
              ++ (if b
                  then interaction_of G (length w.interactions) role request r run_id ∷ []
                  else []);
        },
      )
  captured_if true r role request run_id w = refl
  captured_if false r role request run_id w = rw (append-nil) refl

  capture_noted :
      (r : ChatResponse Json) (role : Role) (request : ChatRequest Json) (run_id : Option ℕ)
      (w : GatewayWorld Json)
      → unflushed w ≡ false
      → capture G role request r run_id w ≡ (
        ok (capture_id w),
        record w {
          interactions =
              w.interactions
              ++ captured (interaction_of G (length w.interactions) role request r run_id);
        },
      )
  unfolding capture
  capture_noted r role request run_id w g =
      >>=-ok (raise_at G unflushed)
        (λ (_ : Unit {0}). capture_if G G.captures role request r run_id) w
        (raise_at-false unflushed w g)
      ∙ captured_if G.captures r role request run_id w

  capture-unflushed :
      (r : ChatResponse Json) (role : Role) (request : ChatRequest Json) (run_id : Option ℕ)
      (w : GatewayWorld Json)
      → unflushed w ≡ true
      → capture G role request r run_id w ≡ (err Error.unhandled, w)
  unfolding capture
  capture-unflushed r role request run_id w g =
      >>=-err (raise_at G unflushed)
        (λ (_ : Unit {0}). capture_if G G.captures role request r run_id) w
        (raise_at-true unflushed w g)

  published_by_meter :
      (r : ChatResponse Json) (role : Role) (a : Account) (c latency : ℕ) (id : Option ℕ)
      (cached : Bool) (w : GatewayWorld Json)
      → meter G r role a c latency id cached w ≡ (
        ok tt,
        record w { events = w.events ++ published (metered G r role a c latency id cached) },
      )
  unfolding meter
  published_by_meter r role a c latency id cached w = elim (Bool-cases G.publishes) [
    | inl p ↦ rw p refl
    | inr p ↦ rw (p, append-nil) refl
  ]

  abbrev charged_with :
      ChatResponse Json → ChatModel Json → Account → Action (GatewayWorld Json) (Unit {0})
  charged_with r m a = spend G G.limits a.budget_scope r.usage (cost m.manifest r.usage)

  abbrev noted_with :
      ChatResponse Json
      → ChatModel Json
      → Role
      → (latency_ms : ℕ) → Account
      → Option ℕ
      → Action (GatewayWorld Json) (Unit {0})
  noted_with r m role latency a id = do
    meter G r role a (cost m.manifest r.usage) latency id false
    charged_with r m a

  settle-noted :
      (r : ChatResponse Json) (m : ChatModel Json) (role : Role) (request : ChatRequest Json)
      (latency : ℕ) (a : Account) (w : GatewayWorld Json)
      → unflushed w ≡ false
      → settle G r m role request latency a w
        ≡ charged_with r m a (noted r m role request latency a w)
  unfolding settle
  settle-noted r m role request latency a w g =
      let v = record w {
        interactions =
            w.interactions
            ++ captured (interaction_of G (length w.interactions) role request r a.run_id);
      } in
      >>=-ok (capture G role request r a.run_id) (noted_with r m role latency a) w
        (capture_noted r role request a.run_id w g)
      ∙ >>=-ok (meter G r role a (cost m.manifest r.usage) latency (capture_id w) false)
          (λ (_ : Unit {0}). charged_with r m a) v
          (published_by_meter r role a (cost m.manifest r.usage) latency (capture_id w) false v)

  settle-unflushed :
      (r : ChatResponse Json) (m : ChatModel Json) (role : Role) (request : ChatRequest Json)
      (latency : ℕ) (a : Account) (w : GatewayWorld Json)
      → unflushed w ≡ true
      → settle G r m role request latency a w ≡ (err Error.unhandled, w)
  unfolding settle
  settle-unflushed r m role request latency a w g =
      >>=-err (capture G role request r a.run_id) (noted_with r m role latency a) w
        (capture-unflushed r role request a.run_id w g)

  spend-Settled :
      (r : ChatResponse Json) (m : ChatModel Json) (role : Role) (request : ChatRequest Json)
      (a : Account) (key : Option String) (w w1 : GatewayWorld Json)
      {p : Result (Unit {0}) × GatewayWorld Json}
      → Wrote
          (paid G G.limits a.budget_scope r.usage (cost m.manifest r.usage))
          (noted r m role request (w1.now - w.now) a w1)
          p
      → Settled r m role request a key w w1 p
  spend-Settled r m role request a key w w1 Wrote.through = Settled.all_booked
  spend-Settled r m role request a key w w1 Wrote.unsent = Settled.broke Stage.uncharged
  spend-Settled r m role request a key w w1 Wrote.unheard = Settled.broke Stage.unstored

  settle-Settled :
      (r : ChatResponse Json) (m : ChatModel Json) (role : Role) (request : ChatRequest Json)
      (a : Account) (key : Option String) (w w1 : GatewayWorld Json)
      → Settled r m role request a key w w1 (settle G r m role request (w1.now - w.now) a w1)
  settle-Settled r m role request a key w w1 =
      let latency = w1.now - w.now in
      elim (Bool-cases (unflushed w1)) [
        | inl g ↦
            subst (Settled r m role request a key w w1)
              (sym (settle-unflushed r m role request latency a w1 g))
              (Settled.broke Stage.uncaptured)
        | inr g ↦
            subst (Settled r m role request a key w w1)
              (sym (settle-noted r m role request latency a w1 g))
              (spend-Settled r m role request a key w w1 (
                spend-Wrote G.limits a.budget_scope r.usage (cost m.manifest r.usage)
                  (noted r m role request latency a w1)))
      ]

  -- Where the database and the ledger answer, a call is captured, published and charged.
  pub settle_lem :
      (r : ChatResponse Json) (m : ChatModel Json) (role : Role) (request : ChatRequest Json)
      (latency : ℕ) (a : Account) (w : GatewayWorld Json)
      → G.flushes w.now ≡ true
      → G.charging w.now ≡ confirmed
      → settle G r m role request latency a w ≡ (ok tt, booked r m role request latency a w)
  settle_lem r m role request latency a w f c =
      settle-noted r m role request latency a w (ground (arith, f))
      ∙ spend_confirmed G.limits a.budget_scope r.usage (cost m.manifest r.usage)
          (noted r m role request latency a w) c

  -- How a completion ends behind the answer of a model.
  pub data Concluded (r : ChatResponse Json) (m : ChatModel Json) (role : Role)
      (request : ChatRequest Json) (a : Account) (key : Option String) (w w1 : GatewayWorld Json)
      : Result (ChatResponse Json) × GatewayWorld Json → Type 0 where
    all_closed : Concluded r m role request a key w w1 (ok r, closed r m role request a key w w1)
    broke :
        {v : GatewayWorld Json}
        → Stage r m role request a key w w1 v
        → Concluded r m role request a key w w1 (err Error.unhandled, v)

  abbrev pub given : ChatResponse Json → Unit {0} → Action (GatewayWorld Json) (ChatResponse Json)
  given r _ = pure r

  store_cache-Concluded :
      (r : ChatResponse Json) (m : ChatModel Json) (role : Role) (request : ChatRequest Json)
      (a : Account) (key : Option String) (w w1 : GatewayWorld Json)
      {p : Result (Unit {0}) × GatewayWorld Json}
      → Wrote (filed G G.cache_ttl key r) (booked r m role request (w1.now - w.now) a w1) p
      → store_cache G G.cache_ttl key r (booked r m role request (w1.now - w.now) a w1) ≡ p
      → Concluded r m role request a key w w1 (
          (store_cache G G.cache_ttl key r >>= given r)
            (booked r m role request (w1.now - w.now) a w1))
  store_cache-Concluded r m role request a key w w1 Wrote.through e =
      let v = booked r m role request (w1.now - w.now) a w1 in
      subst (Concluded r m role request a key w w1)
        (sym (>>=-ok (store_cache G G.cache_ttl key r) (given r) v e)) Concluded.all_closed
  store_cache-Concluded r m role request a key w w1 Wrote.unsent e =
      let v = booked r m role request (w1.now - w.now) a w1 in
      subst (Concluded r m role request a key w w1)
        (sym (>>=-err (store_cache G G.cache_ttl key r) (given r) v e))
        (Concluded.broke Stage.unstored)
  store_cache-Concluded r m role request a key w w1 Wrote.unheard e =
      let v = booked r m role request (w1.now - w.now) a w1 in
      subst (Concluded r m role request a key w w1)
        (sym (>>=-err (store_cache G G.cache_ttl key r) (given r) v e))
        (Concluded.broke Stage.unheard)

  abbrev pub filed_with :
      ChatResponse Json → Option String → Unit {0} → Action (GatewayWorld Json) (ChatResponse Json)
  filed_with r key _ = store_cache G G.cache_ttl key r >>= given r

  Settled-Concluded :
      (r : ChatResponse Json) (m : ChatModel Json) (role : Role) (request : ChatRequest Json)
      (a : Account) (key : Option String) (w w1 : GatewayWorld Json)
      {p : Result (Unit {0}) × GatewayWorld Json}
      → Settled r m role request a key w w1 p
      → settle G r m role request (w1.now - w.now) a w1 ≡ p
      → Concluded r m role request a key w w1
          ((settle G r m role request (w1.now - w.now) a >>= filed_with r key) w1)
  Settled-Concluded r m role request a key w w1 Settled.all_booked e =
      let v = booked r m role request (w1.now - w.now) a w1 in
      subst (Concluded r m role request a key w w1)
        (sym (>>=-ok (settle G r m role request (w1.now - w.now) a) (filed_with r key) w1 e))
        (store_cache-Concluded r m role request a key w w1 (store_cache-Wrote G.cache_ttl key r v)
          refl)
  Settled-Concluded r m role request a key w w1 (Settled.broke s) e =
      subst (Concluded r m role request a key w w1)
        (sym (>>=-err (settle G r m role request (w1.now - w.now) a) (filed_with r key) w1 e))
        (Concluded.broke s)

  pub conclude_call-Concluded :
      (r : ChatResponse Json) (m : ChatModel Json) (role : Role) (request : ChatRequest Json)
      (a : Account) (key : Option String) (w w1 : GatewayWorld Json)
      → Concluded r m role request a key w w1 (conclude_call G role request a key w.now (r, m) w1)
  conclude_call-Concluded r m role request a key w w1 =
      Settled-Concluded r m role request a key w w1 (settle-Settled r m role request a key w w1)
        refl
