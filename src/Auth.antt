-- ===== src/Auth.antt =====
-- services/api/internal/auth: who a request is from.
pub mod Token
pub mod Session
pub mod Links
pub mod Cookies
pub mod Google
pub mod Handlers
