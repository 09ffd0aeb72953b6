-- ===== src/Probe.antt =====
-- apps/probe/src: the scheduled journey probe.
pub mod Incident
pub mod Run
