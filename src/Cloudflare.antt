-- ===== src/Cloudflare.antt =====
-- internal/cloudflare: the calls that pass invalidations on to Cloudflare.
pub mod Circuit
pub mod CircuitSteps
pub mod CircuitWaits
pub mod CircuitRuns
pub mod RetryQueue
