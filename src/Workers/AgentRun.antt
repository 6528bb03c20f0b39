-- ===== src/Workers/AgentRun.antt =====
-- backend/src/spidey/workers/tasks/agent_run.py: one task drives a run's graph to its next pause or end.
-- The state: the committed tables, the outbox with the calls that reached a provider, and the graph's
-- checkpoints, which LangGraph keeps by itself. A task that fails rolls its tables and its outbox back;
-- the calls happened.
pub mod Outcomes
use spidey.Base.{
  ℕ, suc, String, Bool, true, false, not, Option, none, some, List, [], ◌∷◌, ◌++◌, if◌then◌else◌,
  Table, find, upsert, str_take,
}
use spidey.Base.Action.{Action, Result, ok, err, pure, ◌>>=◌, ◌>>◌, when}
use spidey.Platform.Errors.{Error}
use spidey.Platform.Events.{EventPayload, envelope_of}
use spidey.Agents.Runs.{RunStatus, Run, same_status, is_terminal}
use spidey.Agents.Store
use spidey.Agents.Store.{Store}
use spidey.Agents.Registry.{Log}
use spidey.Agents.Graph.{Nodes, State, GraphWorld, initial_state, ask}
use spidey.Agents.Graph.Machine.{Node, Stop, paused, ended, out_of_fuel, drive}
use spidey.Agents.Graph.Termination.{nodes_left}

-- The graph's services, the checkpointer's connection, the end-of-run distillation, the text of an
-- exception and the clock of the failure's session.
pub record Task : Type 1 where
  pub nodes : Nodes
  pub connect : (tick : ℕ) → Result (Unit {0})
  pub distill : (tick : ℕ) → Result (Unit {0})
  pub describe : Error → String

module _ (T : Task) where
  open T use {nodes}

  pub record Worker : Type 0 where
    pub store : Store
    pub log : Log (nodes.services)
    pub tick : ℕ
    pub checkpoints : Table (Node × State nodes)

  abbrev pub graph_world : Worker → GraphWorld nodes
  graph_world w = record { store = w.store; log = w.log; tick = w.tick }

  -- `_mark_failed`: a run that is not over is failed, in a session of its own.
  unfoldable pub mark_failed : (run_id : ℕ) (error : String) → Worker → Worker
  mark_failed run_id error w = elim (Store.load run_id w.store) [
    | none ↦ w
    | some run ↦ elim (is_terminal run.status) [
      | true ↦ w
      | false ↦ record w {
        store =
            Store.set_status run_id RunStatus.failed (some (str_take 2000 error)) (nodes.now w.tick)
              w.store;
        log = record (w.log) {
          events =
              w.log.events
              ++ (envelope_of (EventPayload.run_status_changed "failed" none) (some run_id) none
                    none (some run.owner_id) none none
                  ∷ []);
        };
        tick = suc w.tick;
      }
    ]
  ]

  -- The graph from its checkpoint on; the fuel is what may be left to run. A resume without a
  -- checkpoint raises.
  abbrev resume_graph : Option (Node × State nodes) → Action (GraphWorld nodes) (Stop nodes)
  resume_graph none g = (err Error.unhandled, g)
  resume_graph (some (at, s)) g = drive nodes (suc (nodes_left nodes at s g)) true at s g

  -- `graph.ainvoke`: a pending run begins, any other resumes.
  unfoldable pub invoke_graph :
      (run_id : ℕ) → Run → Table (Node × State nodes) → Action (GraphWorld nodes) (Stop nodes)
  invoke_graph run_id run checkpoints = elim (same_status run.status RunStatus.pending) [
    | true ↦
        drive nodes 2 false Node.plan (initial_state run_id run.owner_id run.workspace_id run.goal)
    | false ↦ resume_graph (find run_id checkpoints)
  ]

  abbrev is_completed : Stop nodes → Bool
  is_completed (paused at s) = same_status s.status RunStatus.completed
  is_completed (ended s) = same_status s.status RunStatus.completed
  is_completed out_of_fuel = false

  abbrev pub distill_completed : Stop nodes → Action (GraphWorld nodes) (Stop nodes)
  distill_completed stop = when (is_completed stop) (ask nodes T.distill) >> pure stop

  unfoldable pub run_graph :
      (run_id : ℕ) → Run → Table (Node × State nodes) → Action (GraphWorld nodes) (Stop nodes)
  run_graph run_id run checkpoints =
      ask nodes T.connect >> invoke_graph run_id run checkpoints >>= distill_completed

  -- What the checkpointer keeps of a run that paused.
  abbrev pub keep_checkpoint :
      ℕ → Stop nodes → Table (Node × State nodes) → Table (Node × State nodes)
  keep_checkpoint run_id (paused at s) t = upsert run_id (at, s) t
  keep_checkpoint run_id (ended s) t = upsert run_id (Node.end, s) t
  keep_checkpoint run_id out_of_fuel t = t

  unfoldable pub settle_task :
      (run_id : ℕ) → Worker → Result (Stop nodes) × GraphWorld nodes → Result (Unit {0}) × Worker
  settle_task run_id w (ok stop, g) = (
    ok tt,
    record {
      store = g.store;
      log = g.log;
      tick = g.tick;
      checkpoints = keep_checkpoint run_id stop w.checkpoints;
    },
  )
  settle_task run_id w (err e, g) = (
    err e,
    mark_failed run_id (T.describe e)
        (record w { log = record (w.log) { calls = g.log.calls }; tick = g.tick }),
  )

  -- `_run`: a run that is gone or over is left alone.
  unfoldable pub run_agent : (run_id : ℕ) → Action Worker (Unit {0})
  run_agent run_id w = elim (Store.load run_id w.store) [
    | none ↦ (ok tt, w)
    | some run ↦ elim (is_terminal run.status) [
      | true ↦ (ok tt, w)
      | false ↦ settle_task run_id w (run_graph run_id run w.checkpoints (graph_world w))
    ]
  ]
