-- ===== src/Delivery.antt =====
-- The answers to the gateway's authorization checks: src/authz/src/handler/authorization.rs.
pub mod Check
pub mod Response
pub mod Resign
pub mod Request
pub mod Failure
pub mod Evaluate
pub mod Authorize
mod ResponseLaws
pub mod ScopeTokens
pub mod CacheLaws
mod ResignLaws
pub mod Examples
pub mod CheckExamples
pub mod Granted
