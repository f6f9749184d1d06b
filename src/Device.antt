-- ===== src/Device.antt =====
-- app/devices
pub mod Model
pub mod Repository
pub mod Service
