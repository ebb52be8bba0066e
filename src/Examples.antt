-- ===== src/Examples.antt =====
-- Tests of the definitions, and the theorems at concrete inputs.
pub mod Setting
pub mod Auth
pub mod Cache
pub mod Email
pub mod Worker
pub mod Others
pub mod Service
pub mod Webhooks
pub mod Process
