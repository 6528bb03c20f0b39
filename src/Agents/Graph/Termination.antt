-- ===== src/Agents/Graph/Termination.antt =====
-- backend/src/spidey/agents/graph: the loops of the run graph.
use spidey.Base.{
  ℕ, zero, suc, ◌+◌, ◌-◌, ◌*◌, ◌≤◌, ◌<◌, Bool, true, false, ◌≡◌, ◌≢◌, refl, inl, inr, arith, length,
  Bool-cases, str_truthy, sym, subst,
}
use spidey.Base.Action.{Action, Result, ok, err, ◌>>=◌}
use spidey.Platform.Errors.{Error}
use spidey.Agents.Store
use spidey.Agents.Graph.{Nodes, State, GraphWorld}
use spidey.Agents.Graph.Planning.{approved_steps}
use spidey.Agents.Graph.Machine.{
  Node, next_node, run_node, Stop, paused, ended, out_of_fuel, drive, interrupts, stops, stop_at,
  route_after_coder, route_after_reviewer, route_after_commit, route_after_test,
  route_after_document,
}
use spidey.Agents.Graph.Frames.{
  branch-Keeps, coder-Keeps, gate_edits-Keeps, apply_edits-Keeps, reviewer-Keeps, commit_frame,
  budget_gate-Keeps, test_frame, debug_frame, approve_frame,
}

-- What is left to do: rounds of fixes, steps of the plan, rounds of review, and the way to the next
-- of these.
abbrev weigh : (fixes steps reviews way : ℕ) → ℕ
weigh fixes steps reviews way = 40 * fixes + 14 * steps + 4 * reviews + way

module _ (N : Nodes) where
  abbrev fixes_left : State N → ℕ
  fixes_left s = 2 - s.debug_round

  abbrev steps_left : State N → ℕ
  steps_left s = length s.plan - s.step_index

  abbrev reviews_left : State N → ℕ
  reviews_left s = 2 - s.review_round

  -- How many nodes may run from here on, at most, if no interrupt pauses the graph. At `approve` the
  -- plan is read back from the store.
  unfoldable pub nodes_left : Node → State N → GraphWorld N → ℕ
  nodes_left Node.plan s w = 0
  nodes_left Node.approve s w =
      weigh (fixes_left s) (length (approved_steps N (Store.get_plan s.run_id w.store) s.plan))
        (reviews_left s) 6
  nodes_left Node.branch s w = weigh (fixes_left s) (steps_left s) (reviews_left s) 5
  nodes_left Node.coder s w = weigh (fixes_left s) (steps_left s) (reviews_left s) 4
  nodes_left Node.gate_edits s w = weigh (fixes_left s) (steps_left s) (reviews_left s) 3
  nodes_left Node.apply_edits s w = weigh (fixes_left s) (steps_left s) (reviews_left s) 2
  nodes_left Node.reviewer s w = weigh (fixes_left s) (steps_left s) (reviews_left s) 1
  nodes_left Node.commit s w = weigh (fixes_left s) (steps_left s) 0 0
  nodes_left Node.budget_gate s w = weigh (fixes_left s) (steps_left s) (reviews_left s) 5
  nodes_left Node.test s w = weigh (fixes_left s) (steps_left s) 0 6
  nodes_left Node.debug s w = weigh (1 - s.debug_round) (steps_left s) 0 30
  nodes_left Node.document s w = 4
  nodes_left Node.pr_gate s w = 3
  nodes_left Node.open_pr s w = 2
  nodes_left Node.escalate s w = 1
  nodes_left Node.finalize s w = 1
  nodes_left Node.end s w = 0

  -- Each node that succeeds leaves fewer to run.
  module _ (s s' : State N) (w w' : GraphWorld N) where
    Falls : Node → Type 0
    Falls at = suc (nodes_left (next_node N at s') s' w') ≤ nodes_left at s w

    reviewer-Falls : run_node N Node.reviewer s w ≡ (ok s', w') → Falls Node.reviewer
    unfolding Falls nodes_left next_node route_after_reviewer run_node
    reviewer-Falls e =
        let (kept, verdict) = reviewer-Keeps N s s' w w' e in
        elim verdict [
          | inl empty ↦
              let quiet : str_truthy s'.critique ≡ false = rw empty in ground (arith, quiet, kept)
          | inr round ↦ ground (arith, kept, round)
        ]

    commit-Falls : run_node N Node.commit s w ≡ (ok s', w') → Falls Node.commit
    unfolding Falls nodes_left next_node route_after_commit run_node
    commit-Falls e = ground (arith, commit_frame N s s' w w' e)

    test-Falls : run_node N Node.test s w ≡ (ok s', w') → Falls Node.test
    unfolding Falls nodes_left next_node route_after_test run_node
    test-Falls e = ground (arith, test_frame N s s' w w' e)

    debug-Falls : run_node N Node.debug s w ≡ (ok s', w') → Falls Node.debug
    unfolding Falls nodes_left next_node run_node
    debug-Falls e = ground (arith, debug_frame N s s' w w' e)

    coder-Falls : run_node N Node.coder s w ≡ (ok s', w') → Falls Node.coder
    unfolding Falls nodes_left next_node route_after_coder run_node
    coder-Falls e = ground (arith, coder-Keeps N s s' w w' e)

    approve-Falls : run_node N Node.approve s w ≡ (ok s', w') → Falls Node.approve
    unfolding Falls nodes_left next_node run_node
    approve-Falls e = ground (arith, approve_frame N s s' w w' e)

    branch-Falls : run_node N Node.branch s w ≡ (ok s', w') → Falls Node.branch
    unfolding Falls nodes_left next_node run_node
    branch-Falls e = ground (arith, branch-Keeps N s s' w w' e)

    gate_edits-Falls : run_node N Node.gate_edits s w ≡ (ok s', w') → Falls Node.gate_edits
    unfolding Falls nodes_left next_node run_node
    gate_edits-Falls e = ground (arith, gate_edits-Keeps N s s' w w' e)

    apply_edits-Falls : run_node N Node.apply_edits s w ≡ (ok s', w') → Falls Node.apply_edits
    unfolding Falls nodes_left next_node run_node
    apply_edits-Falls e = ground (arith, apply_edits-Keeps N s s' w w' e)

    budget_gate-Falls : run_node N Node.budget_gate s w ≡ (ok s', w') → Falls Node.budget_gate
    unfolding Falls nodes_left next_node run_node
    budget_gate-Falls e = ground (arith, budget_gate-Keeps N s s' w w' e)

    document-Falls : Falls Node.document
    unfolding Falls nodes_left next_node route_after_document
    document-Falls = ground arith

  falls :
      (at : Node) (s s' : State N) (w w' : GraphWorld N)
      → at ≢ Node.plan
      → at ≢ Node.end
      → run_node N at s w ≡ (ok s', w')
      → Falls s s' w w' at
  unfolding Falls nodes_left next_node
  falls Node.plan s s' w w' p n e = absurd (p refl)
  falls Node.approve s s' w w' p n e = approve-Falls s s' w w' e
  falls Node.branch s s' w w' p n e = branch-Falls s s' w w' e
  falls Node.coder s s' w w' p n e = coder-Falls s s' w w' e
  falls Node.gate_edits s s' w w' p n e = gate_edits-Falls s s' w w' e
  falls Node.apply_edits s s' w w' p n e = apply_edits-Falls s s' w w' e
  falls Node.reviewer s s' w w' p n e = reviewer-Falls s s' w w' e
  falls Node.commit s s' w w' p n e = commit-Falls s s' w w' e
  falls Node.budget_gate s s' w w' p n e = budget_gate-Falls s s' w w' e
  falls Node.test s s' w w' p n e = test-Falls s s' w w' e
  falls Node.debug s s' w w' p n e = debug-Falls s s' w w' e
  falls Node.document s s' w w' p n e = document-Falls s s' w w'
  falls Node.pr_gate s s' w w' p n e = omega arith
  falls Node.open_pr s s' w w' p n e = omega arith
  falls Node.escalate s s' w w' p n e = omega arith
  falls Node.finalize s s' w w' p n e = omega arith
  falls Node.end s s' w w' p n e = absurd (n refl)

  -- How a call of the graph may stop: in an exception, at its end, or at a node that waits for a human.
  abbrev pub Settled : Result (Stop N) → Type 0
  Settled (err e) = Unit
  Settled (ok (paused at s)) = interrupts at ≡ true
  Settled (ok (ended s)) = Unit
  Settled (ok out_of_fuel) = ⊥

  next_node-ne-plan : (at : Node) (s : State N) → next_node N at s ≢ Node.plan
  unfolding next_node route_after_coder route_after_reviewer route_after_commit route_after_test
      route_after_document
  next_node-ne-plan at s = ground arith

  stop_at-Settled :
      (resumed : Bool) (at : Node) (s : State N)
      → stops resumed at ≡ true
      → Settled (ok (stop_at N at s))
  stop_at-Settled resumed at s h = ground arith

  -- What holds of an exception and of what follows a node holds of both.
  pub after_node :
      (Q : Result (Stop N) → Type 0) (m : Result (State N) × GraphWorld N)
      (k : State N → Action (GraphWorld N) (Stop N))
      → ((e : Error) → Q (err e))
      → ((s' : State N) (w' : GraphWorld N) → m ≡ (ok s', w') → Q (k s' w').0)
      → Q
          (elim m.0 as (λ x. Result (Stop N) × GraphWorld N) [
            | ok s' ↦ k s' m.1
            | err e ↦ (err e, m.1)
          ]).0
  after_node Q (ok s', w') k x h = h s' w' refl
  after_node Q (err e, w') k x h = x e

  module _ (f : ℕ) (resumed : Bool) (at : Node) (s : State N) (w : GraphWorld N) where
    pub drive_stop :
        stops resumed at ≡ true → drive N (suc f) resumed at s w ≡ (ok (stop_at N at s), w)
    unfolding drive
    drive_stop h = ground arith

    pub drive_go :
        stops resumed at ≡ false
        → drive N (suc f) resumed at s w
          ≡ (run_node N at s >>= λ s'. drive N f false (next_node N at s') s') w
    unfolding drive
    drive_go h = ground arith

  -- From any node but `plan`, with fuel for the nodes that are left, a call of the graph stops by
  -- itself: it raises, ends, or pauses at an interrupt. No loop of reviews or fixes runs on.
  pub drive-Settled :
      (fuel : ℕ) (resumed : Bool) (at : Node) (s : State N) (w : GraphWorld N)
      → at ≢ Node.plan
      → nodes_left at s w < fuel
      → Settled (drive N fuel resumed at s w).0
  unfolding Falls
  drive-Settled zero resumed at s w p h = absurd (omega arith)
  drive-Settled (suc f) resumed at s w p h = elim (Bool-cases (stops resumed at)) [
    | inl stop ↦
        subst (λ x. Settled x.0) (sym (drive_stop f resumed at s w stop))
          (stop_at-Settled resumed at s stop)
    | inr go ↦
        subst (λ x. Settled x.0) (sym (drive_go f resumed at s w go))
          (after_node Settled (run_node N at s w) (λ s'. drive N f false (next_node N at s') s')
            (λ e. tt)
            (λ s' w' e.
              drive-Settled f false (next_node N at s') s' w' (next_node-ne-plan at s')
                (omega (arith, falls at s s' w w' p (ground arith) e))))
  ]

  -- A fresh run drafts its plan and then waits for a human, whatever fuel beyond two it has.
  pub drive-plan :
      (f : ℕ) (s : State N) (w : GraphWorld N)
      → Settled (drive N (suc (suc f)) false Node.plan s w).0
  drive-plan f s w =
      subst (λ x. Settled x.0) (sym (drive_go (suc f) false Node.plan s w refl))
        (after_node Settled (run_node N Node.plan s w)
          (λ s'. drive N (suc f) false (next_node N Node.plan s') s') (λ e. tt)
          (λ s' w' e.
            unfold next_node in
            subst (λ x. Settled x.0) (sym (drive_stop f false Node.approve s' w' refl)) refl))
