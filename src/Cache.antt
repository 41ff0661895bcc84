-- ===== src/Cache.antt =====
-- The authorization caches: src/common/src/cache.
pub mod Memory
pub mod Use
mod Capacity
mod History
pub mod Once
pub mod Kept
mod Examples
