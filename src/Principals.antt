-- ===== src/Principals.antt =====
-- Principals: src/authz/src/handler/principal.rs and the repository behind it.
pub mod Store
pub mod Resolve
pub mod ResolveLaws
pub mod Discovery
pub mod Manage
mod SearchLaws
mod PagesLaws
mod FederationLaws
mod Examples
