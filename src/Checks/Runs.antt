-- ===== src/Checks/Runs.antt =====
-- backend/src/spidey/agents/domain/runs.py and backend/src/spidey/agents/infrastructure/run_store.py
-- on single statuses and approvals.
