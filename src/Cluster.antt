-- ===== src/Cluster.antt =====
-- internal/cluster: the binary frames that the nodes of a cluster exchange.
pub mod Wire
pub mod Events
pub mod Cursor
pub mod Reads
pub mod Frames
pub mod PurgeFrames
pub mod RefreshFrames
pub mod BanFrames
pub mod Decoding
pub mod Digest
pub mod SeqWindow
pub mod Dedup
pub mod SeqTracker
pub mod Issuers
pub mod Batches
pub mod BatchFrames
pub mod BatchSplits
pub mod BatchBudgets
