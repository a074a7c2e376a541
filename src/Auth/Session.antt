-- ===== src/Auth/Session.antt =====
-- services/api/internal/auth/session.go: console sessions with a rotating token.
pub mod Store
pub mod Ops
pub mod Admin
pub mod Atomic
pub mod Invariant
pub mod Keeps
pub mod Deadline
pub mod Revocation
pub mod Rotation
pub mod Ended
pub mod Unforked
