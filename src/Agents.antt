-- ===== src/Agents.antt =====
-- backend/src/spidey/agents: the agent runtime.
pub mod Runs
pub mod Store
pub mod Service
pub mod Requests
pub mod Tools
pub mod Registry
pub mod CodeEdit
pub mod Graph
