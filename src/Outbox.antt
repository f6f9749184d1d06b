-- ===== src/Outbox.antt =====
-- app/events and app/workers/outbox_publisher.py
pub mod Backlog
pub mod Batches
pub mod Model
pub mod Repository
