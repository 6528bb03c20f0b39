-- ===== src/Agents/Graph/Proposals.antt =====
-- backend/src/spidey/agents/graph/nodes.py `coder`: the proposals and their approvals.
use spidey.Base.{
  ℕ, zero, suc, String, none, some, ◌≡◌, refl, sym, subst, inl, inr, List, [], ◌∷◌, ◌++◌, ◌==◌,
  false, arith, All, All-append, Bool-cases, Option-cases, find-add_row, is_empty,
}
use spidey.Base.Action.{ok, ◌>>=◌}
use spidey.Base.Action.Rules.{>>=-eq-ok}
use spidey.Llm.Chat
use spidey.Agents.Runs.{Approval, ApprovalStatus, PlanStep}
use spidey.Agents.Store
use spidey.Agents.Tools.{SideEffect, side_effect_value}
use spidey.Agents.Graph.{Nodes, State, GraphWorld, Proposal, tool_spec, current_step}
use spidey.Agents.Graph.Coding
use spidey.Agents.Graph.Coding.{CoderLoop, writes}

module _ (N : Nodes) where
  open N use {services}

  -- The store holds an approval for the proposal that waits for its decision, of the same tool and of
  -- the run.
  abbrev pub Backed : (run_id : ℕ) → GraphWorld N → Proposal (services.Json) → Type 0
  Backed run_id w p =
      (a : Approval) × (Store.get_approval p.approval_id w.store ≡ some a)
      × (a.status ≡ ApprovalStatus.pending)
      × (a.run_id ≡ run_id)
      × (a.tool ≡ p.tool)

  -- No two proposals share an approval.
  abbrev pub Apart : List (Proposal (services.Json)) → Type 0
  Apart [] = Unit
  Apart (p ∷ ps) = All (λ q. (p.approval_id == q.approval_id) ≡ false) ps × Apart ps

  abbrev pub OwnBacked : (run_id : ℕ) → GraphWorld N → List (Proposal (services.Json)) → Type 0
  OwnBacked run_id w ps = All (Backed run_id w) ps × Apart ps

  all_with :
      (p q : Proposal (services.Json)) (ps : List (Proposal (services.Json)))
      → All (λ r. (p.approval_id == r.approval_id) ≡ false) ps
      → (p.approval_id == q.approval_id) ≡ false
      → All (λ r. (p.approval_id == r.approval_id) ≡ false) (ps ++ (q ∷ []))
  all_with p q ps h e =
      All-append (λ r. (p.approval_id == r.approval_id) ≡ false) ps (q ∷ []) h (e, tt)

  -- A proposal whose approval is new stands apart from those that are backed.
  Apart-append :
      (run_id : ℕ) (w : GraphWorld N) (q : Proposal (services.Json))
      (ps : List (Proposal (services.Json)))
      → OwnBacked run_id w ps
      → Store.get_approval q.approval_id w.store ≡ none
      → Apart (ps ++ (q ∷ []))
  Apart-append run_id w q [] h new = (tt, tt)
  Apart-append run_id w q (p ∷ ps) (((a, g, u, r, t), b), (away, apart)) new = (
    all_with p q ps away (elim (Bool-cases (p.approval_id == q.approval_id)) [
      | inl s ↦
          let same : p.approval_id ≡ q.approval_id = ground arith in
          let there : Store.get_approval q.approval_id w.store ≡ some a =
            subst (λ i. Store.get_approval i w.store ≡ some a) same g in
          absurd (ground (arith, new, there))
      | inr d ↦ d
    ]),
    Apart-append run_id w q ps (b, apart) new,
  )

  abbrev Keeps : GraphWorld N → GraphWorld N → Type 0
  Keeps w w' =
      (id : ℕ) (a : Approval)
      → Store.get_approval id w.store ≡ some a
      → Store.get_approval id w'.store ≡ some a

  Backed-Keeps :
      (run_id : ℕ) (w w' : GraphWorld N) (k : Keeps w w') (ps : List (Proposal (services.Json)))
      → All (Backed run_id w) ps
      → All (Backed run_id w') ps
  Backed-Keeps run_id w w' k [] h = tt
  Backed-Keeps run_id w w' k (p ∷ ps) ((a, g, u, r, t), h) =
      ((a, k p.approval_id a g, u, r, t), Backed-Keeps run_id w w' k ps h)

  propose-Backed :
      (tool : String) (arguments : services.Json) (effect : String) (s : State N) (w : GraphWorld N)
      {p : Proposal (services.Json)} {w' : GraphWorld N}
      → Coding.propose N tool arguments effect s w ≡ (ok p, w')
      → Backed s.run_id w' p × Keeps w w' × (Store.get_approval p.approval_id w.store ≡ none)
  unfolding Coding.propose Store.create_approval Store.get_approval
  propose-Backed tool arguments effect s w {p} {w'} e =
      let a = Coding.new_approval N tool arguments effect s (N.fresh w.tick) (N.now (suc w.tick)) in
      (
        (
          a,
          ground (arith, find-add_row {V = Approval} a.id a.id a w.store.approvals),
          refl,
          refl,
          ground arith,
        ),
        λ id b g. ground (arith, find-add_row {V = Approval} id a.id a w.store.approvals),
        ground arith,
      )

  module _ (s : State N) where
    abbrev AllBacked : GraphWorld N → CoderLoop N → Type 0
    AllBacked w c = OwnBacked s.run_id w c.proposals

    coder_call-quiet :
        (call : Chat.ToolCall (services.Json)) (c c' : CoderLoop N) (w w' : GraphWorld N)
        → writes N (tool_spec N call.name) ≡ none
        → Coding.coder_call N s call c w ≡ (ok c', w')
        → (c'.proposals ≡ c.proposals) × (w'.store.approvals ≡ w.store.approvals)
    unfolding Coding.coder_call
    coder_call-quiet call c c' w w' reads e = ground arith

    coder_call-proposes :
        (call : Chat.ToolCall (services.Json)) (c c' : CoderLoop N) (w w' : GraphWorld N)
        (effect : SideEffect)
        → writes N (tool_spec N call.name) ≡ some effect
        → Coding.coder_call N s call c w ≡ (ok c', w')
        → (p : Proposal (services.Json)) × (Coding.propose N call.name call.arguments
              (side_effect_value effect)
              s
              w
            ≡ (ok p, w'))
          × (c'.proposals ≡ c.proposals ++ (p ∷ []))
    unfolding Coding.coder_call Coding.propose
    coder_call-proposes call c c' w w' effect change e = (
      record { approval_id = N.fresh w.tick; tool = call.name; arguments = call.arguments },
      ground arith,
      ground arith,
    )

    coder_call-Backed :
        (call : Chat.ToolCall (services.Json)) (c c' : CoderLoop N) (w w' : GraphWorld N)
        → Coding.coder_call N s call c w ≡ (ok c', w')
        → AllBacked w c
        → AllBacked w' c'
    unfolding Store.get_approval
    coder_call-Backed call c c' w w' e h = elim (Option-cases (writes N (tool_spec N call.name))) [
      | inl reads ↦
          let (same, quiet) = coder_call-quiet call c c' w w' reads e in
          subst (λ ps. OwnBacked s.run_id w' ps) (sym same)
            (Backed-Keeps s.run_id w w' (λ id a g. rw quiet g) c.proposals h.0, h.1)
      | inr (effect, change) ↦
          let (p, proposed, grown) = coder_call-proposes call c c' w w' effect change e in
          let (new, kept, unused) =
            propose-Backed call.name call.arguments (side_effect_value effect) s w {p = p} {w' = w'}
              proposed in
          subst (λ ps. OwnBacked s.run_id w' ps) (sym grown)
            (
              All-append (Backed s.run_id w') c.proposals (p ∷ [])
                  (Backed-Keeps s.run_id w w' kept c.proposals h.0) (new, tt),
              Apart-append s.run_id w p c.proposals h unused,
            )
    ]

    coder_calls-Backed :
        (calls : List (Chat.ToolCall (services.Json))) (c c' : CoderLoop N) (w w' : GraphWorld N)
        → Coding.coder_calls N s calls c w ≡ (ok c', w')
        → AllBacked w c
        → AllBacked w' c'
    unfolding Coding.coder_calls
    coder_calls-Backed [] c c' w w' e h =
        let same : (c ≡ c') × (w ≡ w') = ground arith in
        subst (λ u. AllBacked u c') (same.1) (subst (λ d. AllBacked w d) (same.0) h)
    coder_calls-Backed (call ∷ calls) c c' w w' e h =
        let (c1, w1, first, rest) =
          >>=-eq-ok (Coding.coder_call N s call c) (λ d. Coding.coder_calls N s calls d) w e in
        coder_calls-Backed calls c1 c' w1 w' rest (coder_call-Backed call c c1 w w1 first h)

    after_reply-Backed :
        (n : ℕ) (r : Chat.ChatResponse (services.Json)) (c c' : CoderLoop N) (w w' : GraphWorld N)
        → ((d d' : CoderLoop N) (u u' : GraphWorld N)
            → Coding.coder_rounds N n s d u ≡ (ok d', u')
            → AllBacked u d
            → AllBacked u' d')
        → Coding.after_reply N (λ d. Coding.coder_rounds N n s d) s c r w ≡ (ok c', w')
        → AllBacked w c
        → AllBacked w' c'
    unfolding Coding.after_reply
    after_reply-Backed n r c c' w w' more e h = elim (Bool-cases (is_empty r.message.tool_calls)) [
      | inl done ↦
          let same : (c'.proposals ≡ c.proposals) × (w ≡ w') = ground arith in
          subst (λ u. AllBacked u c') (same.1)
            (subst (λ ps. OwnBacked s.run_id w ps) (sym (same.0)) h)
      | inr calls ↦
          let heard = Coding.add_message N r.message (Coding.hear N r c) in
          let asked : (Coding.coder_calls N s r.message.tool_calls heard >>= λ d.
          Coding.coder_rounds N n s d)
                w
              ≡ (ok c', w') =
            ground arith in
          let (c1, w1, first, rest) =
            >>=-eq-ok (Coding.coder_calls N s r.message.tool_calls heard)
              (λ d. Coding.coder_rounds N n s d) w asked in
          more c1 c' w1 w' rest (coder_calls-Backed r.message.tool_calls heard c1 w w1 first h)
    ]

    coder_rounds-Backed :
        (n : ℕ) (c c' : CoderLoop N) (w w' : GraphWorld N)
        → Coding.coder_rounds N n s c w ≡ (ok c', w')
        → AllBacked w c
        → AllBacked w' c'
    unfolding Coding.coder_rounds
    coder_rounds-Backed zero c c' w w' e h =
        let same : (c ≡ c') × (w ≡ w') = ground arith in
        subst (λ u. AllBacked u c') (same.1) (subst (λ d. AllBacked w d) (same.0) h)
    coder_rounds-Backed (suc n) c c' w w' e h =
        let (r, w1, heard, rest) =
          >>=-eq-ok (Coding.ask_coder N c)
            (Coding.after_reply N (λ d. Coding.coder_rounds N n s d) s c) w e in
        let same : w1.store ≡ w.store = ground arith in
        after_reply-Backed n r c c' w1 w' (coder_rounds-Backed n) rest
          (Backed-Keeps s.run_id w w1 (λ id a g. rw same g) c.proposals h.0, h.1)

  finish_coder-proposals :
      (s s' : State N) (step : PlanStep) (c : CoderLoop N) (w w' : GraphWorld N)
      → Coding.finish_coder N s step c w ≡ (ok s', w')
      → (s'.proposals ≡ c.proposals) × (w'.store.approvals ≡ w.store.approvals)
  unfolding Coding.finish_coder Store.set_budget Store.set_status
  finish_coder-proposals s s' step c w w' e = ground arith

  -- Every write that the coder leaves waiting has a recorded approval that is still to be decided, of
  -- the same tool and of this run, and no two of them share one: if that holds of the proposals that the
  -- node takes over, it holds of all that it hands on.
  pub coder-Backed :
      (s s' : State N) (w w' : GraphWorld N)
      → OwnBacked s.run_id w s.proposals
      → Coding.coder N s w ≡ (ok s', w')
      → OwnBacked s.run_id w' s'.proposals
  unfolding Coding.coder Store.get_approval
  coder-Backed s s' w w' h e =
      let (step, w0, there, coding) = >>=-eq-ok (current_step N s) (Coding.code_step N s) w e in
      let same : w ≡ w0 = ground arith in
      let (c, w1, rounds, finish) =
        >>=-eq-ok (Coding.coder_rounds N 3 s (Coding.first_round N s step))
          (Coding.finish_coder N s step) w0 coding in
      let (left, quiet) = finish_coder-proposals s s' step c w1 w' finish in
      let backed =
        coder_rounds-Backed s 3 (Coding.first_round N s step) c w0 w1 rounds
          (subst (λ u. OwnBacked s.run_id u s.proposals) same h) in
      subst (λ ps. OwnBacked s.run_id w' ps) (sym left)
        (Backed-Keeps s.run_id w1 w' (λ id a g. rw quiet g) c.proposals backed.0, backed.1)
