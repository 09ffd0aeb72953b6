-- ===== src/Worker.antt =====
-- apps/worker/src: the service that ingests and aggregates.
pub mod Sketch
pub mod Memory
pub mod Capacity
pub mod Service
pub mod Conversions
pub mod CacheSummary
pub mod Access
