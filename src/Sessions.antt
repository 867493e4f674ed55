-- ===== src/Sessions.antt =====
-- The session authority of a single controller: `MemorySessionStore` of
-- packages/storage/sessions.py, and the limits that
-- services/gateway/api-gateway/rate_limits.py puts on requests with it.
pub mod State
pub mod Store
pub mod Limiter
mod Samples
