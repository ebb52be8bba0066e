-- ===== src/Api.antt =====
-- The HTTP API: how the middleware answers what the services throw.
pub mod ErrorHandler
pub mod Answers
pub mod Webhooks
pub mod Version
pub mod ResponseCache
pub mod Health
