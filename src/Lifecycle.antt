-- ===== src/Lifecycle.antt =====
-- packages/chassis/lifecycle: shutting down.
pub mod Drain
pub mod Shutdown
