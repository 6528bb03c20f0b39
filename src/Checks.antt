-- ===== src/Checks.antt =====
-- Runs of the code on small inputs: the packages agents, workers, identity and execution
-- of backend/src/spidey.
pub mod Runs
pub mod Service
pub mod Registry
pub mod Graph
pub mod Auth
pub mod Admin
pub mod Worker
pub mod Policy
pub mod Events
pub mod Gateway
pub mod Workspaces
pub mod Memory
