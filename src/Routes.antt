-- ===== src/Routes.antt =====
-- provider/routes.go: payloads and their validation, the handlers, and `HandleError`.
pub mod Payloads
pub mod Errors
pub mod Handlers
