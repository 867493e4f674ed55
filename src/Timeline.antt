-- ===== src/Timeline.antt =====
-- The coverage of the timeline by captured Kubernetes events: domains/timeline/coverage.py.
pub mod Coverage
mod Intervals
pub mod Equivalence
pub mod Bounds
pub mod Proven
pub mod Soundness
mod Samples
