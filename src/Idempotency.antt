-- ===== src/Idempotency.antt =====
-- services/api/internal/idempotency: a retried mutation is replayed, not run again.
pub mod Keys
pub mod Recorder
pub mod Wrap
pub mod Replay
pub mod InFlight
pub mod Isolation
