-- ===== src/Tests.antt =====
-- The theorems at concrete inputs.
mod Headers
mod Policies
mod Decisions
mod Frames
mod Sequences
mod Ranges
mod Blobs
mod Circuits
mod Batches
mod Evictions
mod Retries
mod Pools
mod HotShards
mod BanLists
