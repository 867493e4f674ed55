-- ===== src/Recovery.antt =====
-- The verification of a recovery after its deployment: domains/rca/recovery_verification.py and
-- the part of services/ai/rca-feedback-worker/app.py that persists its decisions.
pub mod Decision
pub mod Observed
pub mod Continuity
pub mod Alerts
pub mod Checks
mod Samples
