-- ===== src/Worker.antt =====
-- The worker: what happens to a queued job, apps/worker/src.
pub mod Consumer
pub mod Processor
pub mod Service
