-- ===== src/Workers/AgentRun/Outcomes.antt =====
-- backend/src/spidey/workers/tasks/agent_run.py: how a task leaves its run.
use spidey.Base.{
  sym, subst, ◌∙◌, ℕ, suc, String, false, some, ◌≡◌, refl, inl, inr, arith, Bool-cases,
  Option-cases, find, find-upsert, map_option, str_take,
}
use spidey.Base.Action.{Result, ok, err, ◌>>◌}
use spidey.Base.Action.Rules.{>>=-eq-ok}
use spidey.Platform.Errors.{Error}
use spidey.Agents.Runs.{RunStatus, Run, is_terminal}
use spidey.Agents.Store
use spidey.Agents.Store.Laws.{find-set_status, set_status-others}
use spidey.Agents.Graph.{State, GraphWorld, initial_state, ask}
use spidey.Agents.Graph.Planning
use spidey.Agents.Graph.Planning.Waits.{plan_lem}
use spidey.Agents.Graph.Termination.{drive_go, drive_stop}
use spidey.Agents.Graph.Machine.{Node, Stop, drive, run_node, paused, next_node}
use spidey.Workers.AgentRun.{
  Task, Worker, mark_failed, run_agent, run_graph, settle_task, graph_world, invoke_graph,
  distill_completed, keep_checkpoint,
}

module _ (T : Task) where
  -- The run is failed with this text, and nothing else of the tables changes.
  pub record FailedWith (run_id : ℕ) (error : String) (w w' : Worker T) : Type 0 where
    pub status : map_option (λ r. r.run.status) (find run_id w'.store.runs) ≡ some RunStatus.failed
    pub error_text :
        map_option (λ r. r.run.error) (find run_id w'.store.runs)
        ≡ some (some (str_take 2000 error))
    pub plans : w'.store.plans ≡ w.store.plans
    pub approvals : w'.store.approvals ≡ w.store.approvals

  mark_failed-FailedWith :
      (run_id : ℕ) (error : String) (w : Worker T) {run : Run}
      → Store.load run_id w.store ≡ some run
      → is_terminal run.status ≡ false
      → FailedWith run_id error w (mark_failed T run_id error w)
  unfolding mark_failed Store.load
  mark_failed-FailedWith run_id error w {run} there live =
      let text = some (str_take 2000 error) in
      let now = T.nodes.now w.tick in
      let written = find-set_status run_id run_id RunStatus.failed text now w.store in
      let others = set_status-others run_id RunStatus.failed text now w.store in
      record {
        status = ground (arith, written);
        error_text = ground (arith, written);
        plans = ground (arith, others);
        approvals = ground (arith, others);
      }

  settled-FailedWith :
      (run_id : ℕ) (w : Worker T) {run : Run} {e : Error} {w' : Worker T}
      → Store.load run_id w.store ≡ some run
      → is_terminal run.status ≡ false
      → (p : Result (Stop T.nodes) × GraphWorld T.nodes) → settle_task T run_id w p ≡ (err e, w')
      → FailedWith run_id (T.describe e) w w'
  unfolding settle_task
  settled-FailedWith run_id w there live (ok stop, g) q = absurd (ground arith)
  settled-FailedWith run_id w {run} {e} {w'} there live (err x, g) q =
      let u : Worker T = record w { log = record (w.log) { calls = g.log.calls }; tick = g.tick } in
      let m = mark_failed-FailedWith run_id (T.describe x) u {run = run} there live in
      let same : (x ≡ e) × (mark_failed T run_id (T.describe x) u ≡ w') = ground arith in
      record {
        status = ground (arith, m.status, same);
        error_text = ground (arith, m.error_text, same);
        plans = ground (arith, m.plans, same);
        approvals = ground (arith, m.approvals, same);
      }

  -- A task that raises leaves its run failed, with the exception's text cut at 2000 characters, and its
  -- plan and its approvals as they were: the run does not stick in a status that is not terminal.
  pub run_agent-FailedWith :
      (run_id : ℕ) (w : Worker T) {e : Error} {w' : Worker T}
      → run_agent T run_id w ≡ (err e, w')
      → FailedWith run_id (T.describe e) w w'
  unfolding run_agent
  run_agent-FailedWith run_id w {e} {w'} h = elim (Option-cases (Store.load run_id w.store)) [
    | inl gone ↦ absurd (ground arith)
    | inr (run, there) ↦ elim (Bool-cases (is_terminal run.status)) [
      | inl over ↦ absurd (ground arith)
      | inr live ↦
          settled-FailedWith run_id w {run = run} there live
            (run_graph T run_id run w.checkpoints (graph_world T w)) (ground arith)
    ]
  ]

  settled_ok :
      (run_id : ℕ) (w w' : Worker T) (p : Result (Stop T.nodes) × GraphWorld T.nodes)
      → settle_task T run_id w p ≡ (ok tt, w')
      → (stop : Stop T.nodes) × (g : GraphWorld T.nodes) × (p ≡ (ok stop, g))
        × (w'.store ≡ g.store)
        × (w'.log ≡ g.log)
        × (w'.checkpoints ≡ keep_checkpoint T run_id stop w.checkpoints)
  unfolding settle_task
  settled_ok run_id w w' (ok stop, g) e = (stop, g, refl, ground arith, ground arith, ground arith)
  settled_ok run_id w w' (err x, g) e = absurd (ground arith)

  drive-fresh :
      (s : State T.nodes) (g : GraphWorld T.nodes) {stop : Stop T.nodes} {g' : GraphWorld T.nodes}
      → drive T.nodes 2 false Node.plan s g ≡ (ok stop, g')
      → (s' : State T.nodes) × (Planning.plan T.nodes s g ≡ (ok s', g'))
        × (stop ≡ paused Node.approve s')
  unfolding run_node next_node
  drive-fresh s g {stop} {g'} e =
      let (s', g1, first, rest) =
        >>=-eq-ok (run_node T.nodes Node.plan s)
          (λ s'. drive T.nodes 1 false (next_node T.nodes Node.plan s') s') g
          (sym (drive_go T.nodes 1 false Node.plan s g refl) ∙ e) in
      let waits = drive_stop T.nodes 0 false Node.approve s' g1 refl in
      let same : (stop ≡ paused Node.approve s') × (g1 ≡ g') = ground (arith, waits, rest) in
      (s', subst (λ u. Planning.plan T.nodes s g ≡ (ok s', u)) (same.1) first, same.0)

  distilled_ok :
      (stop stop' : Stop T.nodes) (g g' : GraphWorld T.nodes)
      → distill_completed T stop g ≡ (ok stop', g')
      → (stop' ≡ stop) × (g'.store ≡ g.store) × (g'.log ≡ g.log)
  distilled_ok stop stop' g g' e = ground arith

  abbrev start : (run_id : ℕ) → Run → State T.nodes
  start run_id run = initial_state run_id run.owner_id run.workspace_id run.goal

  abbrev connected : Worker T → GraphWorld T.nodes
  connected w = record { store = w.store; log = w.log; tick = suc w.tick }

  run_graph-pending :
      (run_id : ℕ) (run : Run) (w : Worker T) {stop : Stop T.nodes} {g : GraphWorld T.nodes}
      → run.status ≡ RunStatus.pending
      → run_graph T run_id run w.checkpoints (graph_world T w) ≡ (ok stop, g)
      → (stop' : Stop T.nodes) × (g' : GraphWorld T.nodes) × (drive T.nodes 2 false Node.plan
            (start run_id run)
            (connected w)
          ≡ (ok stop', g'))
        × (distill_completed T stop' g' ≡ (ok stop, g))
  unfolding run_graph invoke_graph
  run_graph-pending run_id run w {stop} {g} pending e =
      let (stop', g', first, last) =
        >>=-eq-ok (ask T.nodes T.connect >> invoke_graph T run_id run w.checkpoints)
          (distill_completed T) (graph_world T w) e in
      (stop', g', ground arith, last)

  -- A task that returns has left its pending run waiting for the approval of its plan: the plan is saved
  -- as its first version, and the graph's checkpoint stands at the approval with the same plan.
  pub run_agent-pending :
      (run_id : ℕ) (w w' : Worker T) {run : Run}
      → Store.load run_id w.store ≡ some run
      → run.status ≡ RunStatus.pending
      → run_agent T run_id w ≡ (ok tt, w')
      → (s : State T.nodes) × (find run_id w'.checkpoints ≡ some (Node.approve, s))
        × (map_option (λ r. r.run.status) (find run_id w'.store.runs)
            ≡ some RunStatus.awaiting_approval)
        × (Store.get_plan run_id w'.store ≡ some (record { version = 1; steps = s.plan }))
  unfolding run_agent run_graph invoke_graph is_terminal Store.load Store.get_plan
  run_agent-pending run_id w w' {run} there pending e =
      let settled : settle_task T run_id w (run_graph T run_id run w.checkpoints (graph_world T w))
          ≡ (ok tt, w') =
        ground arith in
      let (stop, g, ran, stored, logged, kept) = settled_ok run_id w w' _ settled in
      let (stop', g', drove, distilled) =
        run_graph-pending run_id run w {stop = stop} {g = g} pending ran in
      let (s, planned, at) =
        drive-fresh (start run_id run) (connected w) {stop = stop'} {g' = g'} drove in
      let (same, written, silent) = distilled_ok stop' stop g' g distilled in
      let (waits, saved, status) =
        plan_lem T.nodes (start run_id run) (connected w) {s' = s} {g' = g'} planned
          (ground arith) in
      (
        s,
        ground (arith, find-upsert run_id run_id (Node.approve, s) w.checkpoints),
        ground (arith, waits, stored, written),
        ground (arith, saved, stored, written),
      )
