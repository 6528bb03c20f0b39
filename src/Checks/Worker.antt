-- ===== src/Checks/Worker.antt =====
-- backend/src/spidey/workers/tasks/agent_run.py on a pending run.
use spidey.Base.{some, ◌≡◌, refl, [], ◌∷◌, find, map_option}
use spidey.Base.Action.{Result, ok, err}
use spidey.Platform.Errors.{Error}
use spidey.Agents.Runs.{RunStatus, Run, is_terminal}
use spidey.Agents.Store
use spidey.Agents.Graph.{State, initial_state}
use spidey.Agents.Graph.Planning
use spidey.Agents.Graph.Machine.{Node, drive, run_node, next_node}
use spidey.Workers.AgentRun.{Task, Worker, run_agent, run_graph, settle_task, invoke_graph}
use spidey.Workers.AgentRun.Outcomes.{FailedWith, run_agent-FailedWith, run_agent-pending}
use spidey.Checks.Graph.{env, row}

abbrev task_with : (connect : Result (Unit {0})) → Task
task_with connect = record {
  nodes = env;
  connect = λ tick. connect;
  distill = λ tick. ok tt;
  describe = λ e. "no database";
}

abbrev works : Task
works = task_with (ok tt)

abbrev fails : Task
fails = task_with (err Error.unhandled)

abbrev queued : Run
queued = record (row.run) { status = RunStatus.pending }

abbrev before : (T : Task) → Worker T
before T = record {
  store = record { runs = (1, record row { run = queued }) ∷ []; plans = []; approvals = [] };
  log = record { events = []; calls = [] };
  tick = 0;
  checkpoints = [];
}

abbrev failed : Worker fails
failed = (run_agent fails 1 (before fails)).1

failed_err : run_agent fails 1 (before fails) ≡ (err Error.unhandled, failed)
unfolding run_agent run_graph settle_task Store.load is_terminal
failed_err = refl

run_agent-FailedWith_example : FailedWith fails 1 "no database" (before fails) failed
run_agent-FailedWith_example =
    run_agent-FailedWith fails 1 (before fails) {e = Error.unhandled} {w' = failed} failed_err

abbrev planned : Worker works
planned = (run_agent works 1 (before works)).1

planned_ok : run_agent works 1 (before works) ≡ (ok tt, planned)
unfolding run_agent run_graph settle_task invoke_graph drive run_node next_node Planning.plan
    Planning.draft Planning.await_plan Store.load is_terminal
planned_ok = refl

run_agent-pending_example :
    (s : State env) × (find 1 planned.checkpoints ≡ some (Node.approve, s))
    × (map_option (λ r. r.run.status) (find 1 planned.store.runs)
        ≡ some RunStatus.awaiting_approval)
    × (Store.get_plan 1 planned.store ≡ some (record { version = 1; steps = s.plan }))
unfolding Store.load
run_agent-pending_example =
    run_agent-pending works 1 (before works) planned {run = queued} refl refl planned_ok

-- The run was escalated, and a human has resumed it.
abbrev escalated : State env
escalated = record (initial_state 1 7 (some 30) "fix the parser") { status = RunStatus.needs_human }

abbrev resumed : Worker works
resumed = record {
  store = record { runs = (1, row) ∷ []; plans = []; approvals = [] };
  log = record { events = []; calls = [] };
  tick = 0;
  checkpoints = (1, (Node.end, escalated)) ∷ [];
}

abbrev still_running : Worker works
still_running = (run_agent works 1 resumed).1
