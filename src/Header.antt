-- ===== src/Header.antt =====
-- pkg/header: the cache directives and the header map.
pub mod Text
pub mod CacheControl
pub mod CacheControlBytes
pub mod Scan
pub mod Copies
pub mod Render
pub mod Durations
pub mod Canonical
pub mod HeaderMap
pub mod Lookup
pub mod Validity
