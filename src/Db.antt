-- ===== src/Db.antt =====
-- packages/db: transactions in the scope of an org or a user.
pub mod Scope
pub mod Confined
pub mod Kept
