-- ===== src/Causes.antt =====
-- The engine that finds root causes: services/ai/agent/causes/engine.py and, for its
-- discriminating signals, services/ai/agent/causes/signals.py.
pub mod Signals
pub mod Evaluation
pub mod Selection
pub mod Merge
mod Samples
