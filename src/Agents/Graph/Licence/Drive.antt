-- ===== src/Agents/Graph/Licence/Drive.antt =====
-- backend/src/spidey/agents/graph: the tool calls of a call of the graph.
use spidey.Base.{ℕ, zero, suc, Bool, false, some, ◌≡◌, sym, subst, inl, inr, arith, All, Bool-cases}
use spidey.Agents.Runs.{Approval}
use spidey.Agents.Store
use spidey.Agents.Registry.Naming.{Named}
use spidey.Agents.Graph.{Nodes, State, GraphWorld}
use spidey.Agents.Graph.Coding
use spidey.Agents.Graph.Planning
use spidey.Agents.Graph.Review
use spidey.Agents.Graph.Delivery
use spidey.Agents.Graph.Machine.{Node, next_node, run_node, drive, stops}
use spidey.Agents.Graph.Termination.{drive_go, drive_stop}
use spidey.Agents.Graph.Licence.{Licensed, Safe, quiet-Safe, bind-Safe}
use spidey.Agents.Graph.Licence.Steps.{Safe-refl, apply_edits-Safe, test-Safe, coder-Safe}

module _ (N : Nodes) where
  open N use {services}

  -- Neither the approvals nor the calls change.
  abbrev Quiet : (w w' : GraphWorld N) → Type 0
  Quiet w w' = (w'.store.approvals ≡ w.store.approvals) × (w'.log.calls ≡ w.log.calls)

  Quiet-Safe : (w w' : GraphWorld N) → Quiet w w' → Safe N w w'
  Quiet-Safe w w' q = quiet-Safe N w w' q.0 q.1

  module _ (s : State N) (w : GraphWorld N) where
    plan-Quiet : Quiet w (Planning.plan N s w).1
    unfolding Planning.plan Planning.draft Planning.await_plan Store.set_status Store.save_plan
    plan-Quiet = ground arith

    approve-Quiet : Quiet w (Planning.approve N s w).1
    unfolding Planning.approve Store.set_status
    approve-Quiet = ground arith

    branch-Quiet : Quiet w (Planning.branch N s w).1
    unfolding Planning.branch Store.set_base_commit
    branch-Quiet = ground arith

    gate_edits-Quiet : Quiet w (Coding.gate_edits N s w).1
    unfolding Coding.gate_edits
    gate_edits-Quiet = ground arith

    reviewer-Quiet : Quiet w (Review.reviewer N s w).1
    unfolding Review.reviewer Review.review Store.set_budget
    reviewer-Quiet = ground arith

    commit-Quiet : Quiet w (Review.commit N s w).1
    unfolding Review.commit Review.land_step Review.report_commit Review.park Store.set_status
    commit-Quiet = ground arith

    budget_gate-Quiet : Quiet w (Review.budget_gate N s w).1
    unfolding Review.budget_gate Store.set_budget Store.set_status
    budget_gate-Quiet = ground arith

    debug-Quiet : Quiet w (Delivery.debug N s w).1
    unfolding Delivery.debug Store.set_budget
    debug-Quiet = ground arith

    document-Quiet : Quiet w (Delivery.document N s w).1
    unfolding Delivery.document Store.set_budget
    document-Quiet = ground arith

    pr_gate-Quiet : Quiet w (Delivery.pr_gate N s w).1
    unfolding Delivery.pr_gate
    pr_gate-Quiet = ground arith

    open_pr-Quiet : Quiet w (Delivery.open_pr N s w).1
    unfolding Delivery.open_pr Delivery.deliver_pr
    open_pr-Quiet = ground arith

    escalate-Quiet : Quiet w (Delivery.escalate N s w).1
    unfolding Delivery.escalate Store.set_status
    escalate-Quiet = ground arith

    finalize-Quiet : Quiet w (Delivery.finalize N s w).1
    unfolding Delivery.finalize Store.set_status
    finalize-Quiet = ground arith

  module _ (closed : N.registry.allow_mutations ≡ false)
      (named : Named services N.registry.by_name) where
    run_node-Safe : (at : Node) (s : State N) (w : GraphWorld N) → Safe N w (run_node N at s w).1
    unfolding run_node
    run_node-Safe Node.plan s w = Quiet-Safe w (Planning.plan N s w).1 (plan-Quiet s w)
    run_node-Safe Node.approve s w = Quiet-Safe w (Planning.approve N s w).1 (approve-Quiet s w)
    run_node-Safe Node.branch s w = Quiet-Safe w (Planning.branch N s w).1 (branch-Quiet s w)
    run_node-Safe Node.coder s w = coder-Safe N closed named s w
    run_node-Safe Node.gate_edits s w =
        Quiet-Safe w (Coding.gate_edits N s w).1 (gate_edits-Quiet s w)
    run_node-Safe Node.apply_edits s w = apply_edits-Safe N closed named s w
    run_node-Safe Node.reviewer s w = Quiet-Safe w (Review.reviewer N s w).1 (reviewer-Quiet s w)
    run_node-Safe Node.commit s w = Quiet-Safe w (Review.commit N s w).1 (commit-Quiet s w)
    run_node-Safe Node.budget_gate s w =
        Quiet-Safe w (Review.budget_gate N s w).1 (budget_gate-Quiet s w)
    run_node-Safe Node.test s w = test-Safe N closed named s w
    run_node-Safe Node.debug s w = Quiet-Safe w (Delivery.debug N s w).1 (debug-Quiet s w)
    run_node-Safe Node.document s w = Quiet-Safe w (Delivery.document N s w).1 (document-Quiet s w)
    run_node-Safe Node.pr_gate s w = Quiet-Safe w (Delivery.pr_gate N s w).1 (pr_gate-Quiet s w)
    run_node-Safe Node.open_pr s w = Quiet-Safe w (Delivery.open_pr N s w).1 (open_pr-Quiet s w)
    run_node-Safe Node.escalate s w = Quiet-Safe w (Delivery.escalate N s w).1 (escalate-Quiet s w)
    run_node-Safe Node.finalize s w = Quiet-Safe w (Delivery.finalize N s w).1 (finalize-Quiet s w)
    run_node-Safe Node.end s w = Safe-refl N w

    drive-Safe :
        (fuel : ℕ) (resumed : Bool) (at : Node) (s : State N) (w : GraphWorld N)
        → Safe N w (drive N fuel resumed at s w).1
    drive-Safe zero resumed at s w = unfold drive in Safe-refl N w
    drive-Safe (suc f) resumed at s w = elim (Bool-cases (stops resumed at)) [
      | inl stop ↦
          subst (λ x. Safe N w x.1) (sym (drive_stop N f resumed at s w stop)) (Safe-refl N w)
      | inr go ↦
          subst (λ x. Safe N w x.1) (sym (drive_go N f resumed at s w go))
            (bind-Safe N (run_node N at s) (λ s'. drive N f false (next_node N at s') s') w
              (run_node-Safe at s w) (λ s' u. drive-Safe f false (next_node N at s') s' u))
    ]

  -- Behind a registry that is closed to mutations and keeps each tool under its own name, no call of
  -- the graph, from any node and with any fuel, calls a tool that does more than read without an
  -- approval: if every logged call is licensed before, every one is after. Licensed is a call of a tool
  -- that at most reads, or one for which the store holds an approved approval of that tool and of the
  -- call's run.
  pub drive-Licensed :
      N.registry.allow_mutations ≡ false
      → Named services N.registry.by_name
      → (fuel : ℕ) (resumed : Bool) (at : Node) (s : State N) (w : GraphWorld N)
      → All (Licensed N w) w.log.calls
      → let w' = (drive N fuel resumed at s w).1 in All (Licensed N w') w'.log.calls
  drive-Licensed closed named fuel resumed at s w h =
      (drive-Safe closed named fuel resumed at s w).licensed h

  -- A call of the graph neither decides nor loses an approval that was recorded before it.
  pub get_approval-drive :
      N.registry.allow_mutations ≡ false
      → Named services N.registry.by_name
      → (fuel : ℕ) (resumed : Bool) (at : Node) (s : State N) (w : GraphWorld N) (id : ℕ)
        {a : Approval}
      → Store.get_approval id w.store ≡ some a
      → Store.get_approval id (drive N fuel resumed at s w).1.store ≡ some a
  get_approval-drive closed named fuel resumed at s w id {a} g =
      (drive-Safe closed named fuel resumed at s w).extends id a g
