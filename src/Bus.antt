-- ===== src/Bus.antt =====
-- The in-process event bus of packages/events/in_memory.py.
pub mod Subject
pub mod Subscription
pub mod Exchange
mod Samples
