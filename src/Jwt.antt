-- ===== src/Jwt.antt =====
-- Compact RS256 tokens: src/common/src/utils/jwt.rs. The crates `rsa` and `sha2` are the parameter `Rsa`,
-- unpadded Base64URL is that of `Crypto`.
pub mod Signing
pub mod SigningLaws
