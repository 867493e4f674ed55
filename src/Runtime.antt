-- ===== src/Runtime.antt =====
-- The event runtime: packages/runtime, packages/events and the ledger of packages/storage.
pub mod Envelope
pub mod Ledger
pub mod World
pub mod Processor
pub mod Relay
