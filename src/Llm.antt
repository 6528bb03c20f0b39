-- ===== src/Llm.antt =====
-- backend/src/spidey/llm: the model calls that the agent runtime makes, and the gateway they pass.
pub mod Chat
pub mod Routing
pub mod Ledger
pub mod Capture
pub mod Calls
pub mod Gateway
pub mod Streaming
pub mod Assembled
