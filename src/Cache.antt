-- ===== src/Cache.antt =====
-- internal/cache: what may be stored, and what is served from the store.
pub mod HttpDate
pub mod Cacheable
pub mod Engine
pub mod Storable
pub mod Serving
pub mod Range
pub mod RangeBounds
pub mod OriginAge
