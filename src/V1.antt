-- ===== src/V1.antt =====
-- services/api/internal/v1: the handlers of the API.
pub mod Members
pub mod Slugs
pub mod Projects
pub mod Orgs
