-- ===== src/Spec.antt =====
-- The orchestrator's project specification (orchestrator/spec).
pub mod Interpolate
