-- ===== src/Access.antt =====
-- Delivery of an access decision: the module `access` of src/common/src/utils/context.rs.
pub mod Signer
pub mod Context
pub mod SignerLaws
pub mod Lifetime
pub mod Examples
