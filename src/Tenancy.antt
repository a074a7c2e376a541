-- ===== src/Tenancy.antt =====
-- services/api/internal/tenancy: roles, and the resolution of a request to (user, org, role).
pub mod Roles
pub mod Directory
pub mod Resolve
