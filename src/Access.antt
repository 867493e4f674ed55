-- ===== src/Access.antt =====
-- The identifiers that a session may list: domains/identity/dependencies.py.
pub mod Strip
pub mod Allowed
mod Materialised
mod Guards
pub mod Grants
mod Samples
