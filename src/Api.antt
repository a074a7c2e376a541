-- ===== src/Api.antt =====
-- services/api/internal/httpapi/routes.go and Mount of services/api/internal/v1/handlers.go: what a
-- request to a signed-in route passes through before its handler.
pub mod Pipeline
pub mod Guarded
