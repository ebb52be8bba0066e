-- ===== src/Email.antt =====
-- Addresses, providers, delivery and bounces: packages/email, and the address helpers.
pub mod Address
pub mod Provider
pub mod Service
pub mod Bounce
pub mod Webhook
pub mod Template
pub mod Breaker
