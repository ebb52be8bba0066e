-- ===== src/Database.antt =====
-- The database package, packages/database/src.
pub mod Connection
pub mod Migrations
pub mod Repository
