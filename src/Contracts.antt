-- ===== src/Contracts.antt =====
-- packages/contracts/src: what the SDKs, the worker and the dashboard agree on.
pub mod Routing
pub mod Breach
pub mod Histogram
