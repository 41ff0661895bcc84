-- ===== src/Adapter.antt =====
-- The Rust adapter of the services: src/adapters/rust/src.
pub mod Access
mod AccessLaws
mod Examples
