-- ===== src/Errs.antt =====
-- packages/chassis/errs: the error vocabulary, and the only way from a Go error to a response body.
pub mod Code
pub mod Catalog
pub mod Types
pub mod Outcome
pub mod Idents
pub mod Build
pub mod Wire
pub mod Safety
