-- ===== src/Api.antt =====
-- pkg/api: the stored object and the per-status TTL policy.
pub mod Object
pub mod StatusTtl
pub mod Resolution
