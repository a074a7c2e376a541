-- ===== src/V1/Projects.antt =====
-- The handlers of services/api/internal/v1/projects.go over the tables they read and write.
pub mod Store
pub mod Create
pub mod Reads
pub mod Archive
pub mod Settled
pub mod Judged
pub mod Steps
pub mod Created
pub mod Whole
pub mod Archived
pub mod Runs
pub mod Isolated
