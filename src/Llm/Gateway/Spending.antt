-- ===== src/Llm/Gateway/Spending.antt =====
-- How far a scope can get beyond its budget.
use spidey.Base.{
  ℕ, ◌+◌, ◌≤◌, ◌≡◌, sym, ap, subst, ◌∙◌, false, String, Option, none, some, List, arith, eq_refl,
}
use spidey.Base.Action.{Result, ok}
use spidey.Identity.Lockout.{look}
use spidey.Llm.Chat.{Role, ChatRequest, ChatResponse, Usage, total_tokens}
use spidey.Llm.Routing.{cost}
use spidey.Llm.Ledger.{Limits, Spent, live_tokens, used_tokens, would_exceed, record_usage}
use spidey.Llm.Calls.{Gateway, GatewayWorld, Account}
use spidey.Llm.Gateway.{over_budget, complete}
use spidey.Llm.Gateway.Metering.{Completion, complete-Completion}
use spidey.Llm.Gateway.Promises.{charge, from_cache, from_model, complete-Metered}

live_later : (now t : ℕ) (o : Option Spent) → now ≤ t → live_tokens t o ≤ live_tokens now o
live_later now t none h = omega arith
live_later now t (some s) h = ground arith

used_tokens-record_usage :
    (L : Limits) (scope : String) (u : Usage) (c now : ℕ) (l : List (String × Spent))
    → used_tokens scope now (record_usage L scope u c now l)
      ≤ used_tokens scope now l + total_tokens u
unfolding used_tokens record_usage
used_tokens-record_usage L scope u c now l = rw (eq_refl scope) (ground arith)

used_later :
    (scope : String) (now t : ℕ) (l : List (String × Spent))
    → now ≤ t
    → used_tokens scope t l ≤ used_tokens scope now l
unfolding used_tokens
used_later scope now t l h = live_later now t (look scope l) h

within_budget :
    (L : Limits) (scope : String) (tokens now : ℕ) (l : List (String × Spent))
    → would_exceed L scope tokens now l ≡ false
    → used_tokens scope now l + tokens ≤ L.max_tokens
unfolding would_exceed
within_budget L scope tokens now l h = ground arith

pair :
    {n n' : ℕ} {l l' : List (String × Spent)}
    → n ≡ n'
    → l ≡ l'
    → ◌≡◌ {A = ℕ × List (String × Spent)} (n, l) (n', l')
pair e f = λ i. (e i, f i)

module _ {Json : Type 0} (G : Gateway Json) (L : Limits) (limited : G.limits ≡ some L) where
  allowed :
      {role : Role} {request : ChatRequest Json} {a : Account} {w w' : GatewayWorld Json}
      {x : Result (ChatResponse Json)} {r : ChatResponse Json}
      → Completion G role request a w x w'
      → x ≡ ok r
      → over_budget G G.limits a.budget_scope request.max_tokens w ≡ false
  allowed (Completion.denied o) q = absurd (ground arith)
  allowed (Completion.misrouted e) q = absurd (ground arith)
  allowed (Completion.hit key y b k l) q = b
  allowed (Completion.failed e ms w1 c walk) q = absurd (ground arith)
  allowed (Completion.unsettled key ms y m w1 v b k l walk stage) q = absurd (ground arith)
  allowed (Completion.fresh key ms y m w1 b k l c walk) q = b

  -- A scope that asked within its budget is beyond it afterwards by no more than the prompt of the
  -- answer, if the answer keeps to the tokens that were asked for.
  pub used_tokens-complete :
      (role : Role) (request : ChatRequest Json) (a : Account) (w : GatewayWorld Json)
      (r : ChatResponse Json) (scope : String) {w' : GatewayWorld Json}
      → a.budget_scope ≡ some scope
      → complete G role request a w ≡ (ok r, w')
      → r.usage.completion_tokens ≤ request.max_tokens
      → used_tokens scope w'.now w'.ledger ≤ L.max_tokens + r.usage.prompt_tokens
  used_tokens-complete role request a w r scope {w'} sc h honest =
      let free = allowed (complete-Completion G role request a w) (ap (λ p. p.0) h) in
      let room : used_tokens scope w.now w.ledger + request.max_tokens ≤ L.max_tokens =
        within_budget L scope request.max_tokens w.now w.ledger (
          sym (
            ap (λ (x : Option Limits). over_budget G x a.budget_scope request.max_tokens w) limited
            ∙ ap (λ (y : Option String). over_budget G (some L) y request.max_tokens w) sc)
          ∙ free) in
      elim (complete-Metered G role request a w r h) [
        | from_cache ev cs n l is ↦
            subst
              (λ (t : ℕ × List (String × Spent)).
                used_tokens scope t.0 t.1 ≤ L.max_tokens + r.usage.prompt_tokens)
              (sym (pair n l)) (omega (arith, room))
        | from_model m early latency fs later cs ev l ↦
            let c = cost m.manifest r.usage in
            let due : w'.ledger ≡ record_usage L scope r.usage c w'.now w.ledger =
              l
              ∙ ap (λ (x : Option Limits). charge x a.budget_scope r.usage c w'.now w.ledger)
                  limited
              ∙ ap (λ (y : Option String). charge (some L) y r.usage c w'.now w.ledger) sc in
            subst
              (λ (t : List (String × Spent)).
                used_tokens scope w'.now t ≤ L.max_tokens + r.usage.prompt_tokens)
              (sym due)
              (omega (
                arith,
                used_tokens-record_usage L scope r.usage c w'.now w.ledger,
                used_later scope w.now w'.now w.ledger later,
                room,
                honest,
              ))
      ]
