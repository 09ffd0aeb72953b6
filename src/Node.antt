-- ===== src/Node.antt =====
-- packages/node/src: the JavaScript SDK.
pub mod Transport
pub mod Batching
pub mod Diagnostics
pub mod Client
pub mod Normalize
pub mod Events
pub mod Logs
