-- ===== src/Agents/Graph/Licence/Steps.antt =====
-- backend/src/spidey/agents/graph/nodes.py: the nodes that call tools.
use spidey.Base.{
  ℕ, zero, suc, String, false, ◌&&◌, none, some, ◌≡◌, refl, sym, subst, inl, inr, List, [], ◌∷◌,
  arith, Bool-cases, Option-cases, find, find-add_row, is_some, is_empty,
}
use spidey.Identity.Roles as IdentityRoles
use spidey.Llm.Chat
use spidey.Agents.Runs.{Approval}
use spidey.Agents.Store
use spidey.Agents.Tools.{SideEffect, side_effect_value}
use spidey.Agents.Registry.Naming.{Named}
use spidey.Agents.Graph.{
  Nodes, State, GraphWorld, Proposal, tool_spec, invoke_tool, tool_context, current_step,
}
use spidey.Agents.Graph.Coding
use spidey.Agents.Graph.Coding.{CoderLoop, writes}
use spidey.Agents.Graph.Delivery
use spidey.Agents.Graph.Licence.{
  Safe, Safe-trans, grow-Safe, quiet-Safe, bind-Safe, invoke_tool-Safe,
}

module _ (N : Nodes) where
  open N use {services}

  pub Safe-refl : (w : GraphWorld N) → Safe N w w
  Safe-refl w = record { extends = λ id a g. g; licensed = λ h. h }

  store_approval-Safe : (a : Approval) (w : GraphWorld N) → Safe N w (Coding.store_approval N a w).1
  unfolding Store.create_approval Store.get_approval
  store_approval-Safe a w = elim (Option-cases (find a.id w.store.approvals)) [
    | inl fresh ↦
        grow-Safe N w (Coding.store_approval N a w).1
          (λ id b g. ground (arith, find-add_row {V = Approval} id a.id a w.store.approvals))
          (ground arith)
    | inr (b, taken) ↦ quiet-Safe N w (Coding.store_approval N a w).1 (ground arith) (ground arith)
  ]

  propose-Safe :
      (tool : String) (arguments : services.Json) (effect : String) (s : State N) (w : GraphWorld N)
      → Safe N w (Coding.propose N tool arguments effect s w).1
  unfolding Coding.propose
  propose-Safe tool arguments effect s w =
      let u : GraphWorld N = record w { tick = suc (suc w.tick) } in
      Safe-trans N (quiet-Safe N w u refl refl) (
        bind-Safe N
          (Coding.store_approval N
            (Coding.new_approval N tool arguments effect s (N.fresh w.tick) (N.now (suc w.tick))))
          (λ _. Coding.request_approval N tool arguments effect s (N.fresh w.tick)) u
          (store_approval-Safe
            (Coding.new_approval N tool arguments effect s (N.fresh w.tick) (N.now (suc w.tick))) u)
          (λ _ v.
            quiet-Safe N v (Coding.request_approval N tool arguments effect s (N.fresh w.tick) v).1
              refl refl))

  module _ (s : State N) (call : Chat.ToolCall (services.Json)) (c : CoderLoop N)
      (w : GraphWorld N) where
    coder_call-reading :
        writes N (tool_spec N call.name) ≡ none
        → (Coding.coder_call N s call c w).1
          ≡ (invoke_tool N call.name call.arguments
              (tool_context N s IdentityRoles.Role.viewer)
              none
              w).1
    unfolding Coding.coder_call
    coder_call-reading reads = ground arith

    coder_call-writing :
        (effect : SideEffect)
        → writes N (tool_spec N call.name) ≡ some effect
        → (Coding.coder_call N s call c w).1
          ≡ (Coding.propose N call.name call.arguments (side_effect_value effect) s w).1
    unfolding Coding.coder_call
    coder_call-writing effect change = ground arith

  module _ (closed : N.registry.allow_mutations ≡ false)
      (named : Named services N.registry.by_name) where
    coder_call-Safe :
        (s : State N) (call : Chat.ToolCall (services.Json)) (c : CoderLoop N) (w : GraphWorld N)
        → Safe N w (Coding.coder_call N s call c w).1
    coder_call-Safe s call c w = elim (Option-cases (writes N (tool_spec N call.name))) [
      | inl reads ↦ subst (Safe N w) (sym (coder_call-reading s call c w reads)) (
          invoke_tool-Safe N closed named call.name call.arguments
            (tool_context N s IdentityRoles.Role.viewer) none w s.run_id refl
            (λ a no. absurd (ground arith)))
      | inr (effect, change) ↦
          subst (Safe N w) (sym (coder_call-writing s call c w effect change))
            (propose-Safe call.name call.arguments (side_effect_value effect) s w)
    ]

    coder_calls-Safe :
        (s : State N) (calls : List (Chat.ToolCall (services.Json))) (c : CoderLoop N)
        (w : GraphWorld N)
        → Safe N w (Coding.coder_calls N s calls c w).1
    unfolding Coding.coder_calls
    coder_calls-Safe s [] c w = Safe-refl w
    coder_calls-Safe s (call ∷ calls) c w =
        bind-Safe N (Coding.coder_call N s call c) (λ c'. Coding.coder_calls N s calls c') w
          (coder_call-Safe s call c w) (λ c' u. coder_calls-Safe s calls c' u)

    apply_one-Safe :
        (p : Proposal (services.Json)) (s : State N) (w : GraphWorld N)
        → Safe N w (Coding.apply_one N p s w).1
    unfolding Coding.apply_one
    apply_one-Safe p s w =
        invoke_tool-Safe N closed named p.tool p.arguments
          (tool_context N s IdentityRoles.Role.developer) (Store.get_approval p.approval_id w.store)
          w s.run_id refl (λ a stored. (p.approval_id, stored))

    apply_each-Safe :
        (ps : List (Proposal (services.Json))) (s : State N) (w : GraphWorld N)
        → Safe N w (Coding.apply_each N ps s w).1
    unfolding Coding.apply_each
    apply_each-Safe [] s w = Safe-refl w
    apply_each-Safe (p ∷ ps) s w =
        bind-Safe N (Coding.apply_one N p s) (λ s'. Coding.apply_each N ps s') w
          (apply_one-Safe p s w) (λ s' u. apply_each-Safe ps s' u)

    pub apply_edits-Safe : (s : State N) (w : GraphWorld N) → Safe N w (Coding.apply_edits N s w).1
    unfolding Coding.apply_edits Coding.announce_edits
    apply_edits-Safe s w =
        bind-Safe N (Coding.apply_each N s.proposals s) (λ s'. Coding.announce_edits N s s') w
          (apply_each-Safe s.proposals s w)
          (λ s' u. quiet-Safe N u (Coding.announce_edits N s s' u).1 (ground arith) (ground arith))

    pub test-Safe : (s : State N) (w : GraphWorld N) → Safe N w (Delivery.test N s w).1
    unfolding Delivery.test Delivery.run_tests
    test-Safe s w =
        elim (Bool-cases (is_some s.workspace_id && is_some (tool_spec N "tester.run"))) [
          | inl on ↦ rw on (
              invoke_tool-Safe N closed named "tester.run" N.empty_arguments
                (tool_context N s IdentityRoles.Role.developer) none w s.run_id refl
                (λ a no. absurd (ground arith)))
          | inr off ↦ rw off (Safe-refl w)
        ]

    after_reply-Safe :
        (n : ℕ) (s : State N) (c : CoderLoop N)
        → ((c' : CoderLoop N) (u : GraphWorld N) → Safe N u (Coding.coder_rounds N n s c' u).1)
        → (r : Chat.ChatResponse (services.Json)) (w : GraphWorld N)
        → Safe N w (Coding.after_reply N (λ c'. Coding.coder_rounds N n s c') s c r w).1
    unfolding Coding.after_reply
    after_reply-Safe n s c more r w = elim (Bool-cases (is_empty r.message.tool_calls)) [
      | inl done ↦ rw (done, Coding.after_reply) (Safe-refl w)
      | inr calls ↦
          rw (calls, Coding.after_reply)
            (bind-Safe N (Coding.coder_calls N s r.message.tool_calls _)
              (λ c'. Coding.coder_rounds N n s c') w (coder_calls-Safe s r.message.tool_calls _ w)
              more)
    ]

    coder_rounds-Safe :
        (n : ℕ) (s : State N) (c : CoderLoop N) (w : GraphWorld N)
        → Safe N w (Coding.coder_rounds N n s c w).1
    unfolding Coding.coder_rounds
    coder_rounds-Safe zero s c w = Safe-refl w
    coder_rounds-Safe (suc n) s c w =
        bind-Safe N (Coding.ask_coder N c)
          (Coding.after_reply N (λ c'. Coding.coder_rounds N n s c') s c) w
          (quiet-Safe N w (Coding.ask_coder N c w).1 refl refl)
          (after_reply-Safe n s c (λ c' u. coder_rounds-Safe n s c' u))

    pub coder-Safe : (s : State N) (w : GraphWorld N) → Safe N w (Coding.coder N s w).1
    unfolding Coding.coder Coding.finish_coder Store.set_budget Store.set_status
    coder-Safe s w =
        bind-Safe N (current_step N s) (Coding.code_step N s) w
          (quiet-Safe N w (current_step N s w).1 (ground arith) (ground arith))
          (λ step u.
            bind-Safe N (Coding.coder_rounds N 3 s (Coding.first_round N s step))
              (Coding.finish_coder N s step) u
              (coder_rounds-Safe 3 s (Coding.first_round N s step) u)
              (λ c v.
                quiet-Safe N v (Coding.finish_coder N s step c v).1 (ground arith) (ground arith)))
