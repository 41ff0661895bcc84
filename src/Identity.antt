-- ===== src/Identity.antt =====
-- Identities: src/common/src/model/identity.rs and the check of canonical texts in
-- src/common/src/utils/mod.rs.
pub mod Json
pub mod Canonical
pub mod Headers
pub mod Claims
pub mod External
pub mod Increasing
pub mod ClaimsLaws
pub mod GroupsLaws
