-- ===== src/Workers.antt =====
-- backend/src/spidey/workers: the task that runs a run's graph.
pub mod AgentRun
