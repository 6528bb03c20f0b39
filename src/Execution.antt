-- ===== src/Execution.antt =====
-- backend/src/spidey/execution: which commands may run.
pub mod Policy
