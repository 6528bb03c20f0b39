-- ===== src/Platform.antt =====
-- backend/src/spidey/platform: errors, events and their transport, which every context shares.
pub mod Errors
pub mod Events
pub mod Outbox
pub mod Streams
pub mod Relay
pub mod Consumers
pub mod EventPlane
