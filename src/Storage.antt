-- ===== src/Storage.antt =====
-- internal/storage: how stored objects are kept.
pub mod Varint
pub mod Codec
pub mod Parses
pub mod Objects
pub mod HeaderOrder
pub mod Blobs
pub mod Sieve
pub mod Cachaner
pub mod Bans
pub mod EvictLists
pub mod HotShard
