-- ===== src/Memory.antt =====
-- backend/src/spidey/memory: the long-term memory of the agents.
pub mod Records
pub mod Gate
pub mod Store
pub mod Service
