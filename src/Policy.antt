-- ===== src/Policy.antt =====
-- The authorization catalog: src/authz/src/handler/policy/mod.rs and policy.rs.
pub mod Evaluator
pub mod Decision
pub mod Scope
pub mod Catalog
pub mod Unique
pub mod CatalogLaws
pub mod Mutation
pub mod Handler
mod Keyed
pub mod Change
mod Meaning
mod Published
pub mod Refinement
pub mod Runs
mod Opened
mod Stale
mod Requests
mod HandlerExamples
pub mod Examples
