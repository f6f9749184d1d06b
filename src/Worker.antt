-- ===== src/Worker.antt =====
-- app/workers
pub mod Publisher
pub mod Consumer
pub mod Scheduler
