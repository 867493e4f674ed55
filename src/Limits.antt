-- ===== src/Limits.antt =====
-- The bounds on what the cluster agent collects:
-- services/target/cluster-agent/providers/collection_limits.py.
pub mod Selection
pub mod Payload
mod Samples
