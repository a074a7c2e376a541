-- ===== src/V1/Members.antt =====
-- services/api/internal/v1/invites.go: invitations, and the members of an org.
pub mod Store
pub mod Invites
pub mod Changes
pub mod Counting
pub mod Owners
pub mod Kept
pub mod Joined
pub mod Authority
pub mod Accept
